-- ===== src/Container/Install.antt =====
-- An image gets into the list of images: DockerDownload of container/container.go, with what it
-- shares with DockerLoad, SkopeoLoad and SingularityLoad.
use lpmx.Base.{ℕ, Bool, true, false, Option, none, some, List, [], ◌∷◌, ◌++◌, map, if◌then◌else◌}
use lpmx.Base.Text.{Bytes, codes, join}
use lpmx.Base.Paths.{below, path_base}
use lpmx.Base.Dict.{Dict, lookup, insert}
use lpmx.Base.Result.{Kind, Error, Result, ok, err, panic, err_new}
use lpmx.Base.World.{Go, pure, fail, crash, ◌>>=◌, ◌>>◌, os_remove_all, ignoring}
use lpmx.Utils.Files.{folder_exist, write_to_file}
use lpmx.Utils.Folders.{make_dir, ensure_folder}
use lpmx.Utils.Moving.{Machine}
use lpmx.Utils.Pack.{Packer}
use lpmx.Utils.Untar.{Archives, untar}
use lpmx.Paeudo.{Exec}
use lpmx.Pid.{Processes}
use lpmx.Compose.Run.{two_parts}
use lpmx.Docker.{Web, setting_url, download_file_from_github_plus}
use lpmx.Docker.Layers.{Hub, Json, Loaded, download_layers}
use lpmx.Singularity.{Sif}
use lpmx.Container.Config.{Host, get_config_dir}
use lpmx.Container.Sys.{Scalar, text, other, Entry, fields, Sys, Codec, unmarshal_obj, info_of}
use lpmx.Container.Append.{Container}
use lpmx.Container.Generate.Links.{make_missing}
use lpmx.Container.Images.{Image}
use lpmx.Container.Initial.{tagged}
use lpmx.Container.Maps.{sys_dir}

-- type ImageInfo struct
pub record ImageInfo : Type 0 where
  pub name : Bytes
  pub image_type : Bytes
  pub layers_map : Dict ℕ
  pub layers : Bytes

-- What the functions on images rely on.
pub record Supplies : Type 0 where
  pub host : Host
  pub sys_codec : Codec Sys
  pub con_codec : Codec Container
  pub image_codec : Codec Image
  pub info_codec : Codec ImageInfo
  -- a map from texts to numbers as a value of a map
  pub sizes_codec : Codec (Dict ℕ)
  pub processes : Processes
  pub machine : Machine
  pub packer : Packer
  pub archives : Archives
  pub web : Web
  pub hub : Hub
  pub json : Json
  pub sif : Sif
  pub exec : Exec
  -- filepath.Abs
  pub abs : Bytes → Result Bytes

unfoldable pub data_dir : Bytes → Bytes
data_dir currdir = currdir ++ codes "/.lpmxdata"

-- `if FolderExist(tempdir) { os.RemoveAll(tempdir) }`
unfoldable pub drop_temp : Bytes → Go (Unit {0})
unfolding folder_exist os_remove_all
drop_temp tempdir w = if folder_exist w tempdir then os_remove_all tempdir w else (ok tt, w)

-- The names of the files, and their sizes.
unfoldable pub by_base : Dict ℕ → Dict ℕ
unfolding path_base insert
by_base [] = []
by_base ((k, v) ∷ ret) = insert (path_base k) v (by_base ret)

unfoldable pub already : Bytes → Error
unfolding err_new
already name = err_new Kind.exist (name ++ codes " already exists")

-- Is there an entry?
unfoldable pub is_some : Option Entry → Bool
is_some none = false
is_some (some e) = true

-- The list of images is made if its file is missing.
unfoldable pub or_new_list : Bytes → Result Image → Go Image
unfolding make_dir
or_new_list rootdir (ok doc) = pure doc
or_new_list rootdir (err e) = elim e.kind [
  | Kind.n_exist ↦ do make_dir rootdir; pure (record { root_dir = rootdir; images = [] })
  | _ ↦ fail e
]
or_new_list rootdir panic = crash

unfoldable pub open_list : Codec Image → Bytes → Go Image
unfolding unmarshal_obj or_new_list
open_list ci rootdir w = let (r, w') = unmarshal_obj ci rootdir w in or_new_list rootdir r w'

unfoldable pub list_image : Codec Image → Image → Bytes → Dict Scalar → Go (Unit {0})
unfolding write_to_file insert
list_image ci doc name mdata =
    write_to_file (ci.marshal (record doc { images = insert name (fields mdata) doc.images }))
      (info_of doc.root_dir)

-- The loop over the layers.
unfoldable pub extract_layers :
    (Bytes → Bytes → Go (Unit {0})) → Bytes → Bytes → List Bytes → Go (Unit {0})
unfolding path_base ignoring make_missing
extract_layers extract image_dir base [] = pure tt
extract_layers extract image_dir base (k ∷ layer_order) = do
  ignoring (make_missing (below base (path_base k)))
  extract (below image_dir (path_base k)) (below base (path_base k))
  extract_layers extract image_dir base layer_order

module _ (s : Supplies) where
  -- mdata
  unfoldable pub image_entry : Bytes → Bytes → Bytes → Loaded → Dict Scalar
  unfolding join
  image_entry rootdir dir imagetype l =
      (codes "rootdir", text dir)
      ∷ (codes "config", text (below dir (codes "setting.yml")))
      ∷ (codes "image", text (below rootdir (codes ".image")))
      ∷ (codes "layer", other (s.sizes_codec.marshal l.layer_data))
      ∷ (codes "layer_order", text (join b':' l.layer_order))
      ∷ (codes "imagetype", text imagetype)
      ∷ (codes "workspace", text (below dir (codes "workspace")))
      ∷ (codes "base", text (below rootdir (codes ".base")))
      ∷ []

  unfoldable pub info_for : Bytes → Bytes → Loaded → ImageInfo
  unfolding by_base path_base join
  info_for name image_type l = record {
    name = name;
    image_type = image_type;
    layers_map = by_base l.layer_data;
    layers = join b':' (map path_base l.layer_order);
  }

  -- Behind the loading of the layers, up to the list of images.
  unfoldable pub install :
      (Bytes → Bytes → Go (Unit {0}))
      → Bytes
      → Bytes
      → Bytes
      → Bytes
      → Bytes
      → ImageInfo
      → Loaded
      → Go (Unit {0})
  unfolding ensure_folder write_to_file ignoring make_missing extract_layers
      download_file_from_github_plus setting_url
  install extract rootdir sysdir dir tname ttag info l = do
    ensure_folder dir
    write_to_file (s.info_codec.marshal info) (info_of dir)
    ignoring (make_missing (below dir (codes "workspace")))
    ignoring (make_missing (below rootdir (codes ".base")))
    extract_layers extract (below rootdir (codes ".image")) (below rootdir (codes ".base"))
        l.layer_order
    download_file_from_github_plus s.web tname ttag (codes "setting.yml") setting_url dir
        (below sysdir (codes "distro.management.yml"))

  -- The image of the list below `doc.RootDir`, for a name with a tag.
  unfoldable pub install_named : Bytes → Image → Bytes → Bytes → Loaded → Go (Unit {0})
  unfolding two_parts install image_entry info_for untar list_image
  install_named currdir doc name imagetype l = do
    (tname, ttag) ← two_parts b':' name
    install (untar s.archives) (data_dir currdir) (sys_dir currdir)
        (below (below doc.root_dir tname) ttag) tname ttag (info_for name imagetype l) l
    list_image s.image_codec doc name
        (image_entry (data_dir currdir) (below (below doc.root_dir tname) ttag) imagetype l)

  unfoldable pub install_new : Bytes → Image → Bytes → Loaded → Go (Unit {0})
  unfolding is_some lookup already install_named
  install_new currdir doc name l =
      if is_some (lookup name doc.images)
      then fail (already name)
      else install_named currdir doc name (codes "Docker") l

  -- DockerDownload

  -- An image that is not listed: its parts are looked at before the layers are loaded.
  unfoldable pub download_new : Bytes → Image → Bytes → Bytes → Bytes → Go (Unit {0})
  unfolding two_parts download_layers install_named
  download_new currdir doc name user pass = do
    (tname, ttag) ← two_parts b':' name
    l ←
        download_layers s.machine s.hub user pass tname ttag
          (below (data_dir currdir) (codes ".image"))
    install_named currdir doc name (codes "Docker") l

  unfoldable pub download_unless_listed : Bytes → Bytes → Bytes → Bytes → Image → Go (Unit {0})
  unfolding is_some lookup already download_new
  download_unless_listed currdir name user pass doc =
      if is_some (lookup name doc.images)
      then fail (already name)
      else download_new currdir doc name user pass

  unfoldable pub docker_download : Bytes → Bytes → Bytes → Go (Unit {0})
  unfolding get_config_dir open_list data_dir tagged download_unless_listed
  docker_download name user pass = do
    currdir ← get_config_dir s.host
    doc ← open_list s.image_codec (data_dir currdir)
    download_unless_listed currdir (tagged name) user pass doc
