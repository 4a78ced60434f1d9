-- ===== src/Docker/Layers.antt =====
-- The layers of an image in docker/docker.go: DownloadLayers, LoadDockerTar, LoadSkopeoTar, and the
-- questions to the registry ListRepositories, ListTags, GetDigest and DeleteManifest.
use lpmx.Base.{
  ℕ, Bool, false, ◌&&◌, ◌==◌, not, Option, none, some, List, [], ◌∷◌, ◌++◌, if◌then◌else◌,
}
use lpmx.Base.Text.{Bytes, codes, contains}
use lpmx.Base.Strings.{without_prefix, without_suffix}
use lpmx.Base.Paths.{below, path_dir}
use lpmx.Base.Dict.{Dict, lookup, insert}
use lpmx.Base.Result.{Kind, Result, ok, err, panic, err_new}
use lpmx.Base.World.{Go, pure, crash, ◌>>=◌, ◌>>◌, read_file, opens, write_file}
use lpmx.Utils.Files.{file_exist, folder_exist}
use lpmx.Utils.Folders.{explain, copy_file}
use lpmx.Utils.Moving.{Machine, rename, get_file_size, get_file_length}
use lpmx.Utils.Pack.{Packer, convert_tar2_gzip}
use lpmx.Compose.Run.{two_parts}
use lpmx.Container.Generate.Links.{make_missing}
use lpmx.Container.Expose.{contains_str}

-- A layer as a manifest tells of it.
pub record Layer : Type 0 where
  pub digest : Bytes
  pub size : ℕ

-- What can be read of a blob, and how the reading fails.
pub record Blob : Type 0 where
  pub content : Bytes
  pub failure : Option Kind

-- A hub of package registry: New, Repositories, Tags, ManifestDigest, DeleteManifest, ManifestV2 and
-- DownloadBlob.
pub record Hub : Type 0 where
  pub connect : Bytes → Bytes → Go (Unit {0})
  pub repositories : Go (List Bytes)
  pub tags : Bytes → Go (List Bytes)
  pub manifest_digest : Bytes → Bytes → Go Bytes
  pub delete_manifest : Bytes → Bytes → Go (Unit {0})
  pub manifest_v2 : Bytes → Bytes → Go (List Layer)
  pub download_blob : Bytes → Bytes → Go Blob

-- type DockerSaveInfo struct, as far as the code looks into it
pub record DockerSaveInfo : Type 0 where
  pub repo_tags : List Bytes
  pub layers : List Bytes

-- json.Unmarshal of a list of DockerSaveInfo, and of a SkopeoManifest, of which the code looks at the
-- digests of its layers.
pub record Json : Type 0 where
  pub save_infos : Bytes → Result (List DockerSaveInfo)
  pub skopeo_digests : Bytes → Result (List Bytes)

-- The sizes of the layers by their files, and the files in order.
pub record Loaded : Type 0 where
  pub layer_data : Dict ℕ
  pub layer_order : List Bytes

unfoldable pub none_loaded : Loaded
none_loaded = record { layer_data = []; layer_order = [] }

unfoldable pub loaded_too : Loaded → Bytes → ℕ → Loaded
unfolding insert
loaded_too l p size = record {
  layer_data = insert p size l.layer_data;
  layer_order = l.layer_order ++ p ∷ [];
}

unfoldable pub full_name : Bytes → Bytes
unfolding contains_str contains
full_name name =
    if not (contains_str name (codes "library/")) && not (contains b'/' name)
    then codes "library/" ++ name
    else name

-- io.Copy to a file that os.Create makes.
unfoldable pub fill_file : Bytes → Blob → Go (Unit {0})
unfolding opens write_file err_new
fill_file p b w =
    if opens w p
    then (
      elim b.failure [
        | none ↦ ok tt
        | some k ↦ err (err_new k (codes "copy file " ++ p ++ codes " content failure"))
      ],
      write_file w p b.content,
    )
    else (
      err (err_new (Kind.foreign (codes "open")) (codes "create file " ++ p ++ codes " failure")),
      w,
    )

-- `size, err := GetFileSize(filename); err == nil && size == element.Size`
unfoldable pub has_size : ℕ → Result ℕ → Bool
has_size n (ok size) = size == n
has_size n (err e) = false
has_size n panic = false

unfoldable pub loaded_once : Option ℕ → Loaded → Bytes → ℕ → Loaded
unfolding loaded_too
loaded_once (some n) l p size = l
loaded_once none l p size = loaded_too l p size

unfoldable pub layer_file : Bytes → Bytes → Bytes
unfolding without_prefix
layer_file folder digest =
    folder ++ b'/' ∷ without_prefix (codes "sha256:") digest ++ codes ".tar.gz"

module _ (m : Machine) (hub : Hub) where
  -- The body of the loop of DownloadLayers behind the download of `b`.
  unfoldable pub keep_layer : Bytes → Layer → Loaded → Blob → Go Loaded
  unfolding file_exist has_size get_file_size loaded_once loaded_too fill_file
  keep_layer p layer l b w =
      if file_exist w p && has_size layer.size (get_file_size m p w).0
      then (ok (loaded_once (lookup p l.layer_data) l p layer.size), w)
      else (do fill_file p b; pure (loaded_too l p layer.size)) w

  -- The loop; every round takes a slash off the end of the folder.
  unfoldable pub download_each : Bytes → Bytes → List Layer → Loaded → Go Loaded
  unfolding explain keep_layer layer_file without_suffix
  download_each name folder [] l = pure l
  download_each name folder (layer ∷ layers) l = do
    b ← explain (codes "download docker layers failure") (hub.download_blob name layer.digest)
    l' ← keep_layer (layer_file (without_suffix (codes "/") folder) layer.digest) layer l b
    download_each name (without_suffix (codes "/") folder) layers l'

  unfoldable pub connected : Bytes → Bytes → Go (Unit {0})
  unfolding explain
  connected username pass =
      explain (codes "create docker registry instance failure") (hub.connect username pass)

  -- DownloadLayers
  unfoldable pub download_layers : Bytes → Bytes → Bytes → Bytes → Bytes → Go Loaded
  unfolding make_missing connected explain full_name download_each none_loaded
  download_layers username pass name tag folder = do
    make_missing folder
    connected username pass
    man ← explain (codes "query docker manifest failure") (hub.manifest_v2 (full_name name) tag)
    download_each (full_name name) folder man none_loaded

  -- ListRepositories
  unfoldable pub list_repositories : Bytes → Bytes → Go (List Bytes)
  unfolding connected explain
  list_repositories username pass = do
    connected username pass
    explain (codes "query docker repositories failure") hub.repositories

  -- ListTags
  unfoldable pub list_tags : Bytes → Bytes → Bytes → Go (List Bytes)
  unfolding connected explain full_name
  list_tags username pass name = do
    connected username pass
    explain (codes "query docker tags failure") (hub.tags (full_name name))

  -- GetDigest
  unfoldable pub get_digest : Bytes → Bytes → Bytes → Bytes → Go Bytes
  unfolding connected explain full_name
  get_digest username pass name tag = do
    connected username pass
    explain (codes "query docker digest failure") (hub.manifest_digest (full_name name) tag)

  -- DeleteManifest
  unfoldable pub delete_manifest : Bytes → Bytes → Bytes → Bytes → Go (Unit {0})
  unfolding connected explain full_name
  delete_manifest username pass name tag = do
    connected username pass
    digest ←
        explain (codes "query docker digest failure") (hub.manifest_digest (full_name name) tag)
    explain (codes "delete docker manifest failure") (hub.delete_manifest (full_name name) digest)

-- A manifest.json in the folder, as `read` reads it.
unfoldable pub manifest_in : {A : Type 0} → Bytes → (Bytes → Result A) → Go A
unfolding folder_exist explain read_file err_new
manifest_in dir read w =
    if folder_exist w dir
    then (do
      b ←
          explain (codes "could not read file: " ++ below dir (codes "manifest.json"))
            (λ v. (read_file v (below dir (codes "manifest.json")), v))
      explain (codes "could not unmarshal json bytes to objects") (λ v. (read b, v)))
        w
    else (err (err_new Kind.n_exist (dir ++ codes " does not exist")), w)

module _ (m : Machine) (k : Packer) (j : Json) where
  -- The loop of LoadSkopeoTar
  unfoldable pub load_skopeo_layers : Bytes → Bytes → List Bytes → Loaded → Go Loaded
  unfolding two_parts copy_file get_file_length loaded_too
  load_skopeo_layers dir imagedir [] l = pure l
  load_skopeo_layers dir imagedir (digest ∷ digests) l = do
    (algorithm, shavalue) ← two_parts b':' digest
    copy_file (below dir shavalue) (below imagedir shavalue ++ codes ".tar.gz")
    file_length ← get_file_length m (below imagedir shavalue ++ codes ".tar.gz")
    load_skopeo_layers dir imagedir digests
        (loaded_too l (below imagedir shavalue ++ codes ".tar.gz") file_length)

  -- LoadSkopeoTar
  unfoldable pub load_skopeo_tar : Bytes → Bytes → Go Loaded
  unfolding manifest_in load_skopeo_layers none_loaded
  load_skopeo_tar dir imagedir = do
    digests ← manifest_in dir j.skopeo_digests
    load_skopeo_layers dir imagedir digests none_loaded

  -- The loop of LoadDockerTar
  unfoldable pub load_docker_layers : Bytes → Bytes → List Bytes → Loaded → Go Loaded
  unfolding path_dir convert_tar2_gzip rename get_file_length loaded_too
  load_docker_layers dir imagedir [] l = pure l
  load_docker_layers dir imagedir (layer ∷ layers) l = do
    convert_tar2_gzip k (below dir layer) (below (below dir (path_dir layer)) (path_dir layer))
    rename (below (below dir (path_dir layer)) (path_dir layer))
        (below imagedir (path_dir layer) ++ codes ".tar.gz")
    file_length ← get_file_length m (below imagedir (path_dir layer) ++ codes ".tar.gz")
    load_docker_layers dir imagedir layers
        (loaded_too l (below imagedir (path_dir layer) ++ codes ".tar.gz") file_length)

  -- infos[0], and RepoTags[0]
  unfoldable pub first_info : List DockerSaveInfo → Go DockerSaveInfo
  first_info [] = crash
  first_info (i ∷ infos) = pure i

  unfoldable pub first_tag : List Bytes → Go Bytes
  first_tag [] = crash
  first_tag (t ∷ tags) = pure t

  -- LoadDockerTar: the name, and the layers.
  unfoldable pub load_docker_tar : Bytes → Bytes → Go (Bytes × Loaded)
  unfolding manifest_in first_info first_tag load_docker_layers none_loaded
  load_docker_tar dir imagedir = do
    infos ← manifest_in dir j.save_infos
    info ← first_info infos
    name ← first_tag info.repo_tags
    l ← load_docker_layers dir imagedir info.layers none_loaded
    pure (name, l)
