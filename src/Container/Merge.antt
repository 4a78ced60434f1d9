-- ===== src/Container/Merge.antt =====
-- DockerMerge of container/container.go: the layers of an image become one.
use lpmx.Base.{ℕ, Option, none, some, List, [], ◌∷◌, ◌++◌}
use lpmx.Base.Text.{Bytes, codes, join, split}
use lpmx.Base.Paths.{below, path_base}
use lpmx.Base.Dict.{Dict, lookup}
use lpmx.Base.Result.{Result, ok, err, panic}
use lpmx.Base.World.{Go, pure, crash, ◌>>=◌, ◌>>◌, ignoring}
use lpmx.Utils.Files.{write_to_file}
use lpmx.Utils.Folders.{ensure_folder}
use lpmx.Utils.Moving.{create_temp_dir, rename, sha256file, get_file_length}
use lpmx.Utils.Pack.{tar_layer}
use lpmx.Utils.Untar.{Archives, untar_layer}
use lpmx.Compose.Run.{two_parts}
use lpmx.Docker.{setting_url, download_file_from_github_plus}
use lpmx.Docker.Layers.{download_layers}
use lpmx.Container.Config.{get_config_dir}
use lpmx.Container.Sys.{Scalar, text, other, Entry, fields, scalar, info_of}
use lpmx.Container.Generate.Links.{make_missing}
use lpmx.Container.Images.{Image}
use lpmx.Container.Initial.{tagged}
use lpmx.Container.Install.{Supplies, data_dir, open_list, list_image}
use lpmx.Container.Maps.{sys_dir, as_text}

-- `tmpdir, terr := CreateTempDir(…)`, whose error is not looked at: the path is empty then.
unfoldable pub or_empty_path : Result Bytes → Go Bytes
or_empty_path (ok p) = pure p
or_empty_path (err e) = pure []
or_empty_path panic = crash

-- The loop that extracts.
unfoldable pub merge_layers : Archives → Bytes → Bytes → List Bytes → Go (Unit {0})
unfolding path_base untar_layer
merge_layers a image_dir tmpdir [] = pure tt
merge_layers a image_dir tmpdir (k ∷ layer_order) = do
  untar_layer a (below image_dir (path_base k)) tmpdir
  merge_layers a image_dir tmpdir layer_order

module _ (s : Supplies) where
  -- The layers of an image that is listed, or those of the registry.
  unfoldable pub layers_to_merge :
      Bytes → Bytes → Bytes → Bytes → Bytes → Option Entry → Go (List Bytes)
  unfolding as_text split download_layers
  layers_to_merge user pass tname ttag image_dir (some (fields m)) = do
    t ← as_text (lookup (codes "layer_order") m)
    pure (split b':' t)
  layers_to_merge user pass tname ttag image_dir (some (scalar v)) = pure []
  layers_to_merge user pass tname ttag image_dir none = do
    l ← download_layers s.machine s.hub user pass tname ttag image_dir
    pure l.layer_order

  -- mdata
  unfoldable pub merged_entry : Bytes → Bytes → List Bytes → Bytes → ℕ → Dict Scalar
  unfolding join
  merged_entry rootdir dir layer_order new_image_name size =
      (codes "rootdir", text dir)
      ∷ (codes "config", text (below dir (codes "setting.yml")))
      ∷ (codes "image", text (below rootdir (codes ".image")))
      ∷ (codes "base", text (below rootdir (codes ".base")))
      ∷ (codes "workspace", text (below dir (codes "workspace")))
      ∷ (codes "layer", other (s.sizes_codec.marshal ((new_image_name, size) ∷ [])))
      ∷ (codes "orig_layer_order", text (join b':' layer_order))
      ∷ (codes "layer_order", text new_image_name)
      ∷ (codes "imagetype", text (codes "Docker"))
      ∷ []

  -- The layers are extracted to one folder, which becomes the folder and the file of the new layer:
  -- its checksum.
  unfoldable pub merge_files : Bytes → Bytes → Bytes → Bytes → Bytes → List Bytes → Go Bytes
  unfolding create_temp_dir or_empty_path merge_layers download_file_from_github_plus setting_url
      tar_layer sha256file rename
  merge_files rootdir sysdir dir tname ttag layer_order = do
    tmpdir ← λ w.
        (let (r, w') = create_temp_dir s.machine (below rootdir (codes ".base")) w in
          or_empty_path r w')
    merge_layers s.archives (below rootdir (codes ".image")) tmpdir layer_order
    download_file_from_github_plus s.web tname ttag (codes "setting.yml") setting_url dir
        (below sysdir (codes "distro.management.yml"))
    target_name ← λ w. (ok (s.machine.random w 0), w)
    tar_layer s.packer tmpdir (below rootdir (codes ".image")) target_name []
    sha256 ←
        sha256file s.machine (below (below rootdir (codes ".image")) target_name ++ codes ".tar.gz")
    rename tmpdir (below (below rootdir (codes ".base")) sha256 ++ codes ".tar.gz")
    rename (below (below rootdir (codes ".image")) target_name ++ codes ".tar.gz")
        (below (below rootdir (codes ".image")) sha256 ++ codes ".tar.gz")
    pure sha256

  -- Behind the choice of the layers.
  unfoldable pub merge_image :
      Bytes → Bytes → Image → Bytes → Bytes → Bytes → Bytes → List Bytes → Go (Unit {0})
  unfolding ignoring make_missing merge_files get_file_length ensure_folder write_to_file path_base
      list_image merged_entry
  merge_image rootdir sysdir doc name dir tname ttag layer_order = do
    ignoring (make_missing (below rootdir (codes ".base")))
    ignoring (make_missing (below dir (codes "workspace")))
    sha256 ← merge_files rootdir sysdir dir tname ttag layer_order
    size ←
        get_file_length s.machine (below (below rootdir (codes ".image")) sha256 ++ codes ".tar.gz")
    ensure_folder dir
    write_to_file
        (s.info_codec.marshal (record {
          name = name;
          image_type = codes "Docker";
          layers_map =
              (path_base (below (below rootdir (codes ".image")) sha256 ++ codes ".tar.gz"), size)
              ∷ [];
          layers = sha256;
        }))
        (info_of dir)
    list_image s.image_codec doc (name ++ codes "-merge") (
        merged_entry rootdir dir layer_order
          (below (below rootdir (codes ".image")) sha256 ++ codes ".tar.gz") size)

  unfoldable pub merge_named : Bytes → Image → Bytes → Bytes → Bytes → Go (Unit {0})
  unfolding two_parts layers_to_merge merge_image data_dir
  merge_named currdir doc name user pass = do
    (tname, ttag) ← two_parts b':' name
    layer_order ←
        layers_to_merge user pass tname ttag (below (data_dir currdir) (codes ".image"))
          (lookup name doc.images)
    merge_image (data_dir currdir) (sys_dir currdir) doc name
        (below (below doc.root_dir tname) ttag ++ codes "-merge") tname ttag layer_order

  -- DockerMerge
  unfoldable pub docker_merge : Bytes → Bytes → Bytes → Go (Unit {0})
  unfolding get_config_dir open_list data_dir merge_named tagged
  docker_merge name user pass = do
    currdir ← get_config_dir s.host
    doc ← open_list s.image_codec (data_dir currdir)
    merge_named currdir doc (tagged name) user pass
