-- ===== src/Container/Tests/Fetched.antt =====
-- The runs of autoDownload where the list of images is empty, and where it has the image under its
-- name with its tag.
use lpmx.Base.{◌≡◌, refl, ◌∙◌, true, none, some, [], ◌∷◌, if◌then◌else◌}
use lpmx.Base.Text.{Bytes, codes, eqb, split, cons_head, has_prefix, contains}
use lpmx.Base.Dict.{lookup}
use lpmx.Base.Result.{ok, err}
use lpmx.Base.World.{World, file, pure, put, resolve, read_file, >>=-ok}
use lpmx.Utils.Files.{file_exist, file_type, regular_file_exist}
use lpmx.Compose.Validate.{AppLevel, type_docker}
use lpmx.Compose.Run.{auto_download}
use lpmx.Container.Config.{get_config_dir, get_curr_dir, locate, is_system}
use lpmx.Container.Sys.{fields, unmarshal_obj, unmarshal_obj-marshal}
use lpmx.Container.Generate.Accounts.{Account}
use lpmx.Container.Settings.{unmarshal_obj_loaded}
use lpmx.Container.Images.{Image}
use lpmx.Compose.Run.{two_parts, lift, first}
use lpmx.Docker.Layers.{Loaded}
use lpmx.FileCache.Items.{second}
use lpmx.Container.Listed.{Gains, download-starts}
use lpmx.Container.Initial.{tagged}
use lpmx.Container.Install.{
  data_dir, is_some, already, image_entry, download_unless_listed, docker_download,
}
use lpmx.Container.Composed.{
  engine, opened, auto_download-downloads, auto_download_fails_untagged, auto_download-Gains,
}
use lpmx.Container.Tests.Encoding.{image_codec}
use lpmx.Container.Tests.Held.{outside}
use lpmx.Container.Tests.Supplied.{supplies}

abbrev at : Image → World
at images = record {
  node = λ p.
      if eqb p (codes "/c/lpmx")
      then some (file [])
      else if eqb p (codes "/c/.lpmxdata/.info")
      then some (file (image_codec.marshal images))
      else none;
  readable = λ p. true;
  writable = λ p. true;
  removable = λ p. true;
  room = λ p. 1000;
}

abbrev app : AppLevel
app = record {
  name = codes "a";
  image = codes "i";
  image_type = codes "docker";
  expose = [];
  port = [];
  share = [];
  inject = [];
  depends_on = [];
  env = [];
  command = [];
}

abbrev account : Account
account = record { username = []; uid = []; gid = [] }

abbrev listed : Image
listed = record { root_dir = codes "/c/.lpmxdata"; images = (codes "i:latest", fields []) ∷ [] }

module _ (images : Image) where
  found : get_config_dir supplies.host (at images) ≡ (ok (codes "/c"), at images)
  unfolding get_config_dir get_curr_dir locate is_system has_prefix regular_file_exist file_type eqb
      codes split cons_head
  found = refl

  loaded : unmarshal_obj image_codec (data_dir (codes "/c")) (at images) ≡ (ok images, at images)
  unfolding data_dir file_exist file_type read_file resolve eqb codes
  loaded =
      unmarshal_obj_loaded image_codec (data_dir (codes "/c")) (ok images) (at images)
        (unmarshal_obj-marshal image_codec (data_dir (codes "/c")) images (at images) refl refl)

auto_download_fails_untagged_example :
    auto_download
      (engine supplies outside (λ p. λ w. (ok 0, w)) (ok account) (λ t. t) [])
      app
      (at listed)
    ≡ (err (already (tagged (codes "i"))), at listed)
unfolding lookup eqb codes type_docker tagged contains is_some
auto_download_fails_untagged_example =
    auto_download_fails_untagged supplies outside (λ p. λ w. (ok 0, w)) (ok account) (λ t. t) [] app
      (codes "/c") listed (at listed) (found listed) (loaded listed) refl refl refl

abbrev empty : Image
empty = record { root_dir = codes "/c/.lpmxdata"; images = [] }

abbrev fetched : World
fetched =
    (download_unless_listed supplies (codes "/c") (tagged (codes "i")) [] [] empty (at empty)).1

downloaded :
    download_unless_listed supplies (codes "/c") (tagged (codes "i")) [] [] empty (at empty)
    ≡ (ok tt, fetched)
unfolding download_unless_listed tagged contains is_some lookup eqb codes split cons_head two_parts
    lift second first data_dir put
downloaded = refl

all_readable : (p : Bytes) → fetched.readable p ≡ true
unfolding download_unless_listed tagged contains is_some lookup eqb codes split cons_head two_parts
    lift second first data_dir put
all_readable p = refl

succeeds :
    auto_download
      (engine supplies outside (λ p. λ w. (ok 0, w)) (ok account) (λ t. t) [])
      app
      (at empty)
    ≡ (ok (codes "i"), fetched)
unfolding lookup eqb codes type_docker
succeeds =
    auto_download-downloads supplies outside (λ p. λ w. (ok 0, w)) (ok account) (λ t. t) [] app
      (codes "/c") empty (at empty) (found empty) (loaded empty) refl refl
    ∙ >>=-ok (docker_download supplies (codes "i") [] []) (λ u. pure (codes "i")) (at empty) tt
        fetched
        (download-starts supplies (codes "i") [] [] (codes "/c") empty (at empty) (at empty)
            (found empty)
            (opened supplies outside (λ p. λ w. (ok 0, w)) (ok account) (λ t. t) [] app (codes "/c")
              empty (at empty) (found empty) (loaded empty) refl refl)
          ∙ downloaded)

auto_download-Gains_example :
    (codes "i" ≡ app.image)
    × (path : Bytes) × (l : Loaded) × Gains image_codec empty
        (tagged (codes "i"))
        (image_entry supplies (data_dir (codes "/c")) path (codes "Docker") l)
        fetched
unfolding lookup eqb codes type_docker
auto_download-Gains_example =
    auto_download-Gains supplies outside (λ p. λ w. (ok 0, w)) (ok account) (λ t. t) [] app
      (codes "/c") empty (at empty) (found empty) (loaded empty) refl refl (codes "i") fetched
      all_readable succeeds
