-- ===== src/Docker/Tests.antt =====
-- An image of two layers, downloaded, and the upload of a layer to a registry that does not have it.
use mathlib.Core.Path.{subst}
use lpmx.Base.{ℕ, ◌⊎◌, ap, sym, if◌then◌else◌, ◌≡◌, refl, true, none, some, List, [], ◌∷◌, All}
use lpmx.Base.Text.{Bytes, codes, eqb}
use lpmx.Base.Dict.{lookup}
use lpmx.Base.Strings.{without_suffix}
use lpmx.Base.Result.{ok}
use lpmx.Base.World.{World, dir, file, resolve, pure, ◌>>=◌, put}
use lpmx.Utils.Files.{folder_exist}
use lpmx.Utils.Moving.{Machine, sha256file}
use lpmx.Docker.Layers.{Layer, Blob, Hub, Loaded, full_name, layer_file, download_layers}
use lpmx.Docker.Push.{Client, Manifests, get_token, has_blob, upload_layers}
use lpmx.Docker.Unsent.{upload_layers_asks}
use lpmx.Docker.Rounds.{adds, layer_files}
use lpmx.Docker.Complete.{IsFaithful, Holds, download_layers_lem}

-- A machine with a folder.
abbrev empty : World
empty = record {
  node = λ p. if eqb p (codes "/f") then some dir else none;
  readable = λ p. true;
  writable = λ p. true;
  removable = λ p. true;
  room = λ p. 1000;
}

abbrev machine : Machine
machine = record { sha256 = λ c. c; other_size = λ n. 0; random = λ w i. i ∷ []; rounds = 3 }

abbrev hub : Hub
hub = record {
  connect = λ user pass. pure tt;
  repositories = pure [];
  tags = λ name. pure [];
  manifest_digest = λ name tag. pure [];
  delete_manifest = λ name digest. pure tt;
  manifest_v2 = λ name tag. pure (
      record { digest = codes "sha256:ab"; size = 3 }
      ∷ record { digest = codes "sha256:cd"; size = 3 }
      ∷ record { digest = codes "sha256:ab"; size = 3 }
      ∷ []);
  download_blob = λ name digest. pure (record { content = codes "abc"; failure = none });
}

abbrev outcome : Loaded
outcome = record {
  layer_data = (codes "/f/ab.tar.gz", 3) ∷ (codes "/f/cd.tar.gz", 3) ∷ [];
  layer_order = codes "/f/ab.tar.gz" ∷ codes "/f/cd.tar.gz" ∷ [];
}

abbrev filled : World
filled = (download_layers machine hub [] [] (codes "i") (codes "latest") (codes "/f") empty).1

downloads :
    download_layers machine hub [] [] (codes "i") (codes "latest") (codes "/f") empty
    ≡ (ok outcome, filled)
unfolding download_layers codes eqb put lookup
downloads = refl

sizes_three :
    (man : List Layer)
    → (hub.manifest_v2 [] [] empty).0 ≡ ok man
    → All (λ (layer : Layer). ◌≡◌ {A = ℕ} layer.size 3) man
sizes_three man e =
    let same : (record { digest = codes "sha256:ab"; size = 3 }
          ∷ record { digest = codes "sha256:cd"; size = 3 }
          ∷ record { digest = codes "sha256:ab"; size = 3 }
          ∷ [])
        ≡ man =
      cc in
    subst (All (λ (layer : Layer). ◌≡◌ {A = ℕ} layer.size 3)) same (refl, (refl, (refl, tt)))

blob_abc : (b : Blob) → (hub.download_blob [] [] empty).0 ≡ ok b → b.content ≡ codes "abc"
blob_abc b e =
    let same : record { content = codes "abc"; failure = none } ≡ b = cc in
    sym (ap (λ (x : Blob). x.content) same)

faithful : IsFaithful machine (λ p. codes "abc") empty (codes "/f") hub
unfolding codes
faithful = record {
  connects = λ user pass v. refl;
  lists = λ name tag v. refl;
  sends = λ name d v. refl;
  sizes = λ name tag v man e. sizes_three man e;
  blobs = λ name d v b e f. blob_abc b e;
}

unlinked : (d : Bytes) → resolve empty (layer_file (codes "/f") d) ≡ layer_file (codes "/f") d
unfolding resolve layer_file eqb codes
unlinked d = refl

download_layers_lem_example :
    (man : List Layer) × ((hub.manifest_v2 (full_name (codes "i")) (codes "latest") empty).0
      ≡ ok man)
    × (outcome.layer_order ≡ adds [] (layer_files (codes "/f") man))
    × All (Holds machine (λ p. codes "abc") empty (codes "/f") hub filled outcome) man
    × ((q : Bytes) → (filled.node q ≡ empty.node q) ⊎ (filled.node q ≡ some (file (codes "abc"))))
unfolding without_suffix codes eqb folder_exist
download_layers_lem_example =
    download_layers_lem machine (λ p. codes "abc") empty (codes "/f") hub faithful [] [] (codes "i")
      (codes "latest") outcome filled refl refl unlinked downloads

abbrev client : Client
client = record {
  new_request = λ method url. ok tt;
  send = λ method url headers body.
      pure (record { status_code = 404; location = []; body = ok (codes "t") });
  parse_url = λ s. ok s;
  base64 = λ s. s;
  token = λ s. ok s;
}

abbrev manifests : Manifests
manifests = record {
  manifest = λ name tag. pure (record { fs_layers = []; history = [] });
  put_manifest = λ name tag text. pure tt;
  generate_key = pure [];
  sign = λ name tag manifest key. ok [];
  random_bytes = pure [];
  now = λ w. [];
  sha256_text = λ s. s;
  parse_object = λ s. ok [];
  print_object = λ m. [];
  parse_text = λ s. s;
  print_text = λ s. s;
  print_v1 = λ id parent created. [];
}

-- A file with a layer.
abbrev packed : World
packed = record empty { node = λ p. some (file (codes "abc")) }

upload_layers_asks_example :
    upload_layers manifests machine hub client [] []
      (codes "i")
      (codes "t")
      (codes "/f")
      (codes "b:t")
      packed
    ≡ (do
      sha256 ← sha256file machine (codes "/f")
      token ← get_token client (full_name (codes "i")) [] [] (codes "pull,push")
      hok ← has_blob client (full_name (codes "i")) token sha256
      pure sha256)
        packed
upload_layers_asks_example =
    upload_layers_asks client manifests machine hub [] [] (codes "i") (codes "t") (codes "/f")
      (codes "b:t") packed
