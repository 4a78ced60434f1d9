-- ===== src/Docker/Push.antt =====
-- The upload of a layer in docker/docker.go: GetToken, HasBlob, UploadBlob, MakeManifestV1,
-- UploadManifests and UploadLayers.
use lpmx.Base.{
  ℕ, Bool, true, false, ◌||◌, ◌==◌, Option, none, some, List, [], ◌∷◌, ◌++◌, if◌then◌else◌,
}
use lpmx.Base.Text.{Bytes, codes, eqb, has_prefix}
use lpmx.Base.Dict.{Dict, lookup, insert, remove}
use lpmx.Base.Result.{Kind, Result, ok, err, panic, err_new}
use lpmx.Base.World.{World, Go, pure, fail, crash, ◌>>=◌, ◌>>◌, read_file}
use lpmx.Utils.Folders.{explain}
use lpmx.Utils.Moving.{Machine, sha256file}
use lpmx.Compose.Run.{two_parts}
use lpmx.Docker.Layers.{Hub, connected, full_name}

-- An answer to a request: its status, its header Location, and what can be read of its body.
pub record Answer : Type 0 where
  pub status_code : ℕ
  pub location : Bytes
  pub body : Result Bytes

-- http.NewRequest, client.Do, url.Parse, base64, and the field of the JSON text of a token.
pub record Client : Type 0 where
  pub new_request : Bytes → Bytes → Result (Unit {0})
  pub send : Bytes → Bytes → Dict Bytes → Bytes → Go Answer
  pub parse_url : Bytes → Result Bytes
  pub base64 : Bytes → Bytes
  pub token : Bytes → Result Bytes

-- A manifest of the first schema: the sums of its layers, and the texts of its history.
pub record ManifestV1 : Type 0 where
  pub fs_layers : List Bytes
  pub history : List Bytes

-- registry.Manifest, registry.PutManifest, the signing with a new key, random bytes, the time, the
-- checksum of a text, and package json on objects of raw texts.
pub record Manifests : Type 0 where
  pub manifest : Bytes → Bytes → Go ManifestV1
  pub put_manifest : Bytes → Bytes → Bytes → Go (Unit {0})
  pub generate_key : Go Bytes
  pub sign : Bytes → Bytes → ManifestV1 → Bytes → Result Bytes
  pub random_bytes : Go Bytes
  pub now : World → Bytes
  pub sha256_text : Bytes → Bytes
  pub parse_object : Bytes → Result (Dict Bytes)
  pub print_object : Dict Bytes → Bytes
  pub parse_text : Bytes → Bytes
  pub print_text : Bytes → Bytes
  -- json.Marshal of a v1comp, by its id, its parent and its time
  pub print_v1 : Bytes → Bytes → Bytes → Bytes

unfoldable pub returned {ℓ} : {A : Type ℓ} → Result A → Go A
returned r w = (r, w)

-- The header Authorization of GetToken, if there is one.
unfoldable pub basic : (Bytes → Bytes) → Bytes → Bytes → Dict Bytes
basic base64 username password =
    if eqb username [] || eqb password []
    then []
    else (codes "Authorization", codes "Basic " ++ base64 (username ++ b':' ∷ password)) ∷ []

unfoldable pub bearer : Bytes → Dict Bytes
bearer token = (codes "Authorization", codes "Bearer " ++ token) ∷ []

unfoldable pub octets : Bytes → Dict Bytes
unfolding bearer
octets token = bearer token ++ (codes "Content-Type", codes "application/octet-stream") ∷ []

-- `data, _ := ioutil.ReadAll(resp.Body)`
unfoldable pub or_no_text : Result Bytes → Bytes
or_no_text (ok b) = b
or_no_text (err e) = []
or_no_text panic = []

module _ (c : Client) where
  -- A request is made and done.
  unfoldable pub requested : Bytes → Bytes → Bytes → Bytes → Dict Bytes → Bytes → Go Answer
  unfolding explain returned
  requested unmade undone method url headers body = do
    explain unmade (returned (c.new_request method url))
    explain undone (c.send method url headers body)

  -- GetToken
  unfoldable pub get_token : Bytes → Bytes → Bytes → Bytes → Go Bytes
  unfolding requested explain returned basic
  get_token repository username password action = do
    rep ←
        requested (codes "could not create new http request")
          (codes "could not execute http client") (codes "GET")
          (codes "https://auth.docker.io/token?service=registry.docker.io&scope=repository:"
            ++ repository
            ++ b':' ∷ action)
          (basic c.base64 username password) []
    body ← explain (codes "could not read http response body") (returned rep.body)
    explain (codes "could not UnmarshalJSON http response body") (returned (c.token body))

  -- HasBlob
  unfoldable pub has_blob : Bytes → Bytes → Bytes → Go Bool
  unfolding requested bearer or_no_text err_new
  has_blob repository token sha256 = do
    resp ←
        requested (codes "could not create http request") (codes "could not execute http request")
          (codes "HEAD")
          (codes "https://registry-1.docker.io/v2/"
            ++ repository
            ++ codes "/blobs/sha256:"
            ++ sha256)
          (bearer token) []
    if resp.status_code == 200
        then pure true
        else fail (err_new Kind.http_not_found (or_no_text resp.body))

  -- UploadBlob; it does not look at the status of the second answer.
  unfoldable pub upload_blob : Machine → Bytes → Bytes → Bytes → Go Bool
  unfolding requested octets explain returned sha256file read_file
  upload_blob m repository token file = do
    resp ←
        requested (codes "could not create http request") (codes "could not execute http request")
          (codes "POST")
          (codes "https://registry-1.docker.io/v2/" ++ repository ++ codes "/blobs/uploads/")
          (octets token) []
    location ← explain (codes "could not parse location") (returned (c.parse_url resp.location))
    sha256 ← sha256file m file
    content ← explain (codes "could not open file:" ++ file) (λ w. (read_file w file, w))
    uresp ←
        requested (codes "could not create http request") (codes "could not execute http request")
          (codes "PUT") (location ++ codes "&digest=sha256:" ++ sha256) (octets token) content
    pure true

-- *orig_v1[key]
unfoldable pub raw : Bytes → Dict Bytes → Go Bytes
unfolding lookup
raw key m = elim (lookup key m) [ some v ↦ pure v | none ↦ crash ]

-- man_base.History[0], and the rest
unfoldable pub top_of : List Bytes → Go (Bytes × List Bytes)
top_of [] = crash
top_of (h ∷ history) = pure (h, history)

unfoldable pub with_prefix : Bytes → Bytes
unfolding has_prefix
with_prefix layer_sha =
    if has_prefix layer_sha (codes "sha256:") then layer_sha else codes "sha256:" ++ layer_sha

module _ (x : Manifests) where
  -- The base image of MakeManifestV1: `v1comp` of the first text of the history.
  unfoldable pub old_top : Dict Bytes → Go Bytes
  unfolding raw
  old_top orig_v1 = do
    id ← raw (codes "id") orig_v1
    parent ← raw (codes "parent") orig_v1
    created ← raw (codes "created") orig_v1
    pure (x.print_v1 (x.parse_text id) (x.parse_text parent) (x.parse_text created))

  unfoldable pub with_image : Bytes → Option Bytes → Dict Bytes → Dict Bytes
  unfolding insert with_prefix
  with_image layer_sha none cconfig_map = cconfig_map
  with_image layer_sha (some image) cconfig_map =
      insert (codes "Image") (x.print_text (with_prefix layer_sha)) cconfig_map

  unfoldable pub with_config : Bytes → Option Bytes → Dict Bytes → Go (Dict Bytes)
  unfolding explain returned insert with_image lookup
  with_config layer_sha none orig_v1 = pure orig_v1
  with_config layer_sha (some cconfig) orig_v1 = do
    cconfig_map ←
        explain (codes "unable to unmarshal container_config object")
          (returned (x.parse_object cconfig))
    pure (
        insert (codes "container_config")
          (x.print_object (with_image layer_sha (lookup (codes "Image") cconfig_map) cconfig_map))
          orig_v1)

  -- The top of the history of the new image, from that of the base image.
  unfoldable pub new_top : Bytes → Dict Bytes → Go Bytes
  unfolding raw remove insert explain with_config lookup
  new_top layer_sha orig_v1 = do
    let left = remove (codes "throwaway") (remove (codes "container") orig_v1)
    id ← raw (codes "id") left
    bytes ← explain (codes "error while generating random bytes") x.random_bytes
    created ← λ w. (ok (x.print_text (x.now w)), w)
    let dated =
        insert (codes "created") created (
          insert (codes "id") (x.print_text (x.sha256_text bytes))
            (insert (codes "parent") id left))
    configured ← with_config layer_sha (lookup (codes "container_config") dated) dated
    pure (x.print_object (remove (codes "config") configured))

  -- MakeManifestV1
  unfoldable pub make_manifest_v1 : Bytes → Bytes → Bytes → Bytes → Go Bytes
  unfolding two_parts full_name explain returned top_of old_top new_top
  make_manifest_v1 name tag layer_sha base_image = do
    (base, base_tag) ← two_parts b':' (full_name base_image)
    man_base ←
        explain (codes "unable to parse base image manifest: " ++ full_name base_image)
          (x.manifest base base_tag)
    (top, history) ← top_of man_base.history
    orig_v1 ←
        explain (codes "could not unmarshal V1Compatibility object") (returned (x.parse_object top))
    v1_json ← old_top orig_v1
    new ← new_top layer_sha orig_v1
    pk ← explain (codes "unexpected error generating private key") x.generate_key
    explain (codes "error signning manifest") (
        returned (
          x.sign name tag
            (record {
              fs_layers = (codes "sha256:" ++ layer_sha) ∷ man_base.fs_layers;
              history = new ∷ v1_json ∷ history;
            })
            pk))

  module _ (m : Machine) (hub : Hub) where
    -- UploadManifests
    unfoldable pub upload_manifests : Bytes → Bytes → Bytes → Bytes → Bytes → Bytes → Go (Unit {0})
    unfolding connected make_manifest_v1 explain
    upload_manifests username pass name tag layer_sha base_image = do
      connected m hub username pass
      signed_manifest ← make_manifest_v1 name tag layer_sha base_image
      explain (codes "putting manifest error") (x.put_manifest name tag signed_manifest)

    module _ (c : Client) where
      -- Behind the question of UploadLayers whether the layer is there.
      unfoldable pub upload_unless :
          Bytes → Bytes → Bytes → Bytes → Bytes → Bytes → Bytes → Bytes → Bool → Go Bytes
      unfolding upload_blob upload_manifests
      upload_unless username pass name tag file base_image token sha256 true = pure sha256
      upload_unless username pass name tag file base_image token sha256 false = do
        done ← upload_blob c m name token file
        upload_manifests username pass name tag sha256 base_image
        pure sha256

      -- UploadLayers
      unfoldable pub upload_layers : Bytes → Bytes → Bytes → Bytes → Bytes → Bytes → Go Bytes
      unfolding full_name sha256file get_token has_blob upload_unless
      upload_layers username pass name tag file base_image = do
        sha256 ← sha256file m file
        token ← get_token c (full_name name) username pass (codes "pull,push")
        hok ← has_blob c (full_name name) token sha256
        upload_unless username pass (full_name name) tag file base_image token sha256 hok
