-- ===== src/Container/Offline.antt =====
-- DockerPackage and DockerAdd of container/container.go: an image as one file, to be added elsewhere.
use lpmx.Base.{ℕ, Option, none, some, List, [], ◌∷◌, ◌++◌, map, if◌then◌else◌}
use lpmx.Base.Text.{Bytes, codes, join, split}
use lpmx.Base.Paths.{below, path_base}
use lpmx.Base.Dict.{Dict, lookup, insert}
use lpmx.Base.Result.{Kind, ok, err, err_new}
use lpmx.Base.World.{Go, pure, fail, ◌>>=◌, ◌>>◌, os_rename, ignoring, deferring}
use lpmx.Utils.Files.{file_exist, folder_exist, write_to_file}
use lpmx.Utils.Folders.{explain}
use lpmx.Utils.Moving.{Machine, create_temp_dir, get_file_length}
use lpmx.Utils.Pack.{tar_files}
use lpmx.Utils.Untar.{untar}
use lpmx.Compose.Run.{two_parts}
use lpmx.Container.Config.{get_config_dir}
use lpmx.Container.Sys.{Scalar, text, other, Entry, fields, scalar, unmarshal_obj, info_of}
use lpmx.Container.Generate.Links.{make_missing}
use lpmx.Container.Images.{Image}
use lpmx.Container.Install.{
  ImageInfo, Supplies, data_dir, drop_temp, open_list, list_image, is_some,
}
use lpmx.Container.Maps.{as_text}

-- DockerPackage

-- val, vok := dmap["orig_layer_order"], and otherwise dmap["layer_order"]
unfoldable pub packed_layers : Dict Scalar → Option Scalar → Go (List Bytes)
unfolding as_text split
packed_layers m (some v) = do s ← as_text (some v); pure (split b':' s)
packed_layers m none = do s ← as_text (lookup (codes "layer_order") m); pure (split b':' s)

-- The loop over the layers: their sizes by their names.
unfoldable pub layer_sizes : Machine → Bytes → Dict ℕ → List Bytes → Go (Dict ℕ)
unfolding path_base get_file_length insert
layer_sizes m layer_base sizes [] = pure sizes
layer_sizes m layer_base sizes (layer ∷ layers) = do
  size ← get_file_length m (below layer_base (path_base layer))
  layer_sizes m layer_base (insert (path_base layer) size sizes) layers

module _ (s : Supplies) where
  unfoldable pub package_image : Bytes → Bytes → Bytes → Dict Scalar → Go (Unit {0})
  unfolding as_text packed_layers layer_sizes path_base join write_to_file tar_files
  package_image packagedir tdir name m = do
    config ← as_text (lookup (codes "config") m)
    layers ← packed_layers m (lookup (codes "orig_layer_order") m)
    layer_base ← as_text (lookup (codes "image") m)
    sizes ← layer_sizes s.machine layer_base [] layers
    write_to_file
        (s.info_codec.marshal (record {
          name = name;
          image_type = codes "Docker";
          layers_map = sizes;
          layers = join b':' (map path_base layers);
        }))
        (info_of tdir)
    tar_files s.packer
        (config ∷ map (λ layer. below layer_base (path_base layer)) layers ++ info_of tdir ∷ [])
        packagedir name

  unfoldable pub package_entry : Bytes → Bytes → Bytes → Option Entry → Go (Unit {0})
  unfolding package_image err_new
  package_entry packagedir tdir name (some (fields m)) = package_image packagedir tdir name m
  package_entry packagedir tdir name (some (scalar v)) =
      fail (err_new Kind.mismatch (codes "type mismatched"))
  package_entry packagedir tdir name none =
      fail (err_new Kind.n_exist (codes "no such image: " ++ name))

  unfoldable pub package_listed : Bytes → Bytes → Go (Unit {0})
  unfolding ignoring make_missing unmarshal_obj data_dir create_temp_dir package_entry
  package_listed currdir name = do
    ignoring (make_missing (below currdir (codes "package")))
    doc ← unmarshal_obj s.image_codec (data_dir currdir)
    tdir ← create_temp_dir s.machine (below currdir (codes ".temp"))
    package_entry (below currdir (codes "package")) tdir name (lookup name doc.images)

  unfoldable pub docker_package : Bytes → Go (Unit {0})
  unfolding get_config_dir deferring drop_temp package_listed
  docker_package name = do
    currdir ← get_config_dir s.host
    deferring (drop_temp (below currdir (codes ".temp"))) (package_listed currdir name)

  -- DockerAdd

  -- os.Rename with the message of DockerAdd
  unfoldable pub move_file : Bytes → Bytes → Go (Unit {0})
  unfolding explain os_rename
  move_file p q = explain (codes "could not move file " ++ p ++ codes " to " ++ q) (os_rename p q)

  unfoldable pub require : Bytes → Bytes → Go (Unit {0})
  unfolding file_exist err_new
  require p msg w = (if file_exist w p then ok tt else err (err_new Kind.n_exist msg), w)

  -- The layers move to the folder of images, if they are not there.
  unfoldable pub move_layers : Bytes → Bytes → List Bytes → Go (Unit {0})
  unfolding require file_exist move_file
  move_layers dir image_dir [] = pure tt
  move_layers dir image_dir (lay ∷ layers) = do
    require (below dir lay) (below dir lay ++ codes " layer does not exist")
    λ w.
        (if file_exist w (below image_dir lay)
            then pure tt
            else move_file (below dir lay) (below image_dir lay))
          w
    move_layers dir image_dir layers

  -- A layer is extracted if its folder is not there.
  unfoldable pub extract_missing : Bytes → Bytes → List Bytes → Go (Unit {0})
  unfolding folder_exist ignoring make_missing untar
  extract_missing image_dir base [] = pure tt
  extract_missing image_dir base (k ∷ layer_order) = do
    λ w.
        (if folder_exist w (below base k) then pure tt else (do
          ignoring (make_missing (below base k))
          untar s.archives (below image_dir k) (below base k)))
          w
    extract_missing image_dir base layer_order

  -- mdata
  unfoldable pub added_entry : Bytes → Bytes → ImageInfo → Dict Scalar
  added_entry rootdir dir info =
      (codes "rootdir", text dir)
      ∷ (codes "config", text (below dir (codes "setting.yml")))
      ∷ (codes "image", text (below rootdir (codes ".image")))
      ∷ (codes "imagetype", text (codes "Docker"))
      ∷ (
        codes "layer",
        other (
            s.sizes_codec.marshal (
              map (λ (kv : Bytes × ℕ). (below (below rootdir (codes ".image")) kv.0, kv.1))
                info.layers_map)),
      )
      ∷ (codes "layer_order", text info.layers)
      ∷ (codes "workspace", text (below dir (codes "workspace")))
      ∷ (codes "base", text (below rootdir (codes ".base")))
      ∷ []

  -- The files of a package move to where those of an image are.
  unfoldable pub move_package : Bytes → Bytes → Bytes → ImageInfo → Go (Unit {0})
  unfolding ignoring make_missing move_layers split require move_file extract_missing
  move_package rootdir dir temp info = do
    ignoring (make_missing dir)
    ignoring (make_missing (below rootdir (codes ".image")))
    move_layers temp (below rootdir (codes ".image")) (split b':' info.layers)
    require (below temp (codes "setting.yml"))
        (below temp (codes "setting.yml") ++ codes " does not exist")
    move_file (below temp (codes "setting.yml")) (below dir (codes "setting.yml"))
    ignoring (make_missing (below dir (codes "workspace")))
    ignoring (make_missing (below rootdir (codes ".base")))
    extract_missing (below rootdir (codes ".image")) (below rootdir (codes ".base"))
        (split b':' info.layers)
    move_file (info_of temp) (info_of dir)

  unfoldable pub add_package : Bytes → Image → Bytes → ImageInfo → Go (Unit {0})
  unfolding two_parts move_package added_entry list_image
  add_package rootdir doc temp info = do
    (tname, ttag) ← two_parts b':' info.name
    move_package rootdir (below (below doc.root_dir tname) ttag) temp info
    list_image s.image_codec doc info.name
        (added_entry rootdir (below (below doc.root_dir tname) ttag) info)

  unfoldable pub add_unless_listed : Bytes → Image → Bytes → ImageInfo → Go (Unit {0})
  unfolding is_some lookup add_package
  add_unless_listed rootdir doc temp info =
      if is_some (lookup info.name doc.images) then pure tt else add_package rootdir doc temp info

  unfoldable pub add_file : Bytes → Bytes → Go (Unit {0})
  unfolding open_list data_dir create_temp_dir untar require unmarshal_obj add_unless_listed
  add_file currdir file = do
    doc ← open_list s.image_codec (data_dir currdir)
    temp ← create_temp_dir s.machine (below currdir (codes ".temp"))
    untar s.archives file temp
    require (info_of temp) (
        codes
          ".info metafile does not exist inside package, maybe the package is not created by 'lpmx docker package' command")
    info ← unmarshal_obj s.info_codec temp
    add_unless_listed (data_dir currdir) doc temp info

  unfoldable pub docker_add : Bytes → Go (Unit {0})
  unfolding require get_config_dir deferring drop_temp add_file
  docker_add file = do
    require file (file ++ codes " does not exist")
    currdir ← get_config_dir s.host
    deferring (drop_temp (below currdir (codes ".temp"))) (add_file currdir file)
