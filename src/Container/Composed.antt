-- ===== src/Container/Composed.antt =====
-- The engine of a compose run by the functions of container/container.go themselves, and autoDownload
-- with it.
use lpmx.Base.{ℕ, ◌≡◌, refl, ap, sym, ◌∙◌, true, none, [], ◌∷◌, ◌++◌, map, arith}
use lpmx.Base.Text.{Bytes, codes, eqb}
use lpmx.Base.Dict.{Dict, lookup}
use lpmx.Base.Result.{Result, ok, err}
use lpmx.Base.World.{World, Go, pure, ◌>>=◌, >>=-ok, >>=-eq-ok}
use lpmx.Compose.Validate.{AppLevel, type_docker}
use lpmx.Compose.Run.{Engine, attempt, fetch, download_if_missing, auto_download}
use lpmx.Container.Config.{get_config_dir}
use lpmx.Container.Sys.{Entry, unmarshal_obj}
use lpmx.Container.Common.{common_compose_run}
use lpmx.Container.Expose.{expose}
use lpmx.Container.Generate.Accounts.{Account}
use lpmx.Container.Images.{Image}
use lpmx.Docker.Layers.{Loaded}
use lpmx.Container.Initial.{tagged}
use lpmx.Container.Install.{
  Supplies, data_dir, open_list, or_new_list, is_some, already, image_entry, docker_download,
}
use lpmx.Container.Load.{singularity_load}
use lpmx.Container.Listed.{Gains, docker_download_refuses, docker_download_lists}
use lpmx.Container.Shell.{Outside}

-- The keys of the map of images.
abbrev pub image_names : Dict Entry → Dict Bytes
image_names images = map (λ (kv : Bytes × Entry). (kv.0, [])) images

unfoldable pub engine :
    Supplies → Outside → (Bytes → Go ℕ) → Result Account → (Bytes → Bytes) → Bytes → Engine
unfolding docker_download singularity_load get_config_dir unmarshal_obj common_compose_run expose
engine s o permission account formatted prog = record {
  docker_download = λ image. docker_download s image [] [];
  singularity_load = λ file name tag. singularity_load s file name tag;
  get_config_dir = get_config_dir s.host;
  load_images = λ dir. (do doc ← unmarshal_obj s.image_codec dir; pure (image_names doc.images));
  common_compose_run = λ name container_name volume_map execmaps mountfile command envmap.
      common_compose_run o permission account s.image_codec name execmaps
        (record {
          container_name = container_name;
          volume_map = volume_map;
          engine = [];
          mountfile = mountfile;
        })
        command envmap;
  expose = λ id path name. expose s.host formatted prog s.sys_codec s.con_codec id path name;
}

lookup-image_names :
    (k : Bytes) (images : Dict Entry)
    → lookup k images ≡ none
    → lookup k (image_names images) ≡ none
unfolding lookup
lookup-image_names k [] e = refl
lookup-image_names k ((j, v) ∷ images) e = ground (arith, lookup-image_names k images)

module _ (s : Supplies) (o : Outside) (permission : Bytes → Go ℕ) (account : Result Account)
    (formatted : Bytes → Bytes) (prog : Bytes) (app : AppLevel) (currdir : Bytes) (doc : Image)
    (w : World) (found : get_config_dir s.host w ≡ (ok currdir, w))
    (loaded : unmarshal_obj s.image_codec (data_dir currdir) w ≡ (ok doc, w))
    (missing : lookup app.image doc.images ≡ none)
    (is_docker : eqb app.image_type type_docker ≡ true) where
  pub opened : open_list s.image_codec (data_dir currdir) w ≡ (ok doc, w)
  unfolding open_list or_new_list
  opened = rw loaded refl

  listed_names :
      attempt
        ((engine s o permission account formatted prog).load_images (currdir ++ codes "/.lpmxdata"))
        w
      ≡ (ok (ok (image_names doc.images)), w)
  unfolding engine attempt data_dir
  listed_names = rw loaded refl

  fetched :
      download_if_missing
        (engine s o permission account formatted prog)
        app
        (ok (image_names doc.images))
        w
      ≡ (docker_download s app.image [] [] >>= (λ done. pure app.image)) w
  unfolding download_if_missing fetch engine
  fetched =
      rw
        (
          download_if_missing,
          fetch,
          engine,
          lookup-image_names app.image doc.images missing,
          is_docker,
        )
        refl

  pub auto_download-downloads :
      auto_download (engine s o permission account formatted prog) app w
      ≡ (docker_download s app.image [] [] >>= (λ done. pure app.image)) w
  unfolding auto_download engine
  auto_download-downloads =
      >>=-ok (get_config_dir s.host) _ w currdir w found
      ∙ (>>=-ok
            (attempt (
              (engine s o permission account formatted prog).load_images
                (currdir ++ codes "/.lpmxdata")))
            (download_if_missing (engine s o permission account formatted prog) app) w
            (ok (image_names doc.images)) w listed_names
          ∙ fetched)

  -- autoDownload in an engine of the functions of this package, for a Docker image that is not listed
  -- under its name: where it is listed under the name with its tag, it fails with the error that it
  -- exists, and changes nothing.
  pub auto_download_fails_untagged :
      is_some (lookup (tagged app.image) doc.images) ≡ true
      → auto_download (engine s o permission account formatted prog) app w
        ≡ (err (already (tagged app.image)), w)
  auto_download_fails_untagged e =
      auto_download-downloads
      ∙ rw (docker_download_refuses s app.image [] [] currdir doc w w found opened e) refl

  -- autoDownload in an engine of the functions of this package, for a Docker image that is not listed
  -- under its name, where the list of images is there and all files can be read in the end: if it
  -- succeeds, it returns the name of the image, and the list has the image under its name with its tag,
  -- and for every other name what it had.
  pub auto_download-Gains :
      (name : Bytes) (w' : World)
      → ((p : Bytes) → w'.readable p ≡ true)
      → auto_download (engine s o permission account formatted prog) app w ≡ (ok name, w')
      → (name ≡ app.image)
        × (dir : Bytes) × (l : Loaded) × Gains s.image_codec doc
            (tagged app.image)
            (image_entry s (data_dir currdir) dir (codes "Docker") l)
            w'
  auto_download-Gains name w' r h =
      let (done, w1, e1, h1) =
        >>=-eq-ok (docker_download s app.image [] []) (λ done. pure app.image) w
          (sym auto_download-downloads ∙ h) in
      let k : w1 ≡ w' = cc in
      let (n, dir, l, g) =
        docker_download_lists s app.image [] [] currdir doc w w found opened w' r
          (e1 ∙ ap (λ v. (ok tt, v)) k) in
      (cc, dir, l, g)
