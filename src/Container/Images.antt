-- ===== src/Container/Images.antt =====
-- CommonDelete of container/container.go: an image leaves the disk.
use lpmx.Base.{Bool, true, false, Option, none, some, List, [], ◌∷◌, ◌++◌, if◌then◌else◌}
use lpmx.Base.Text.{Bytes, codes, eqb, split}
use lpmx.Base.Paths.{below, path_base}
use lpmx.Base.Dict.{Dict, lookup, remove}
use lpmx.Base.Result.{Kind, Error, err_new}
use lpmx.Base.World.{Go, pure, fail, ◌>>=◌, ◌>>◌}
use lpmx.Utils.Files.{write_to_file}
use lpmx.Utils.Folders.{remove_all}
use lpmx.Container.Config.{Host, get_config_dir}
use lpmx.Container.Sys.{
  Scalar, text, other, Entry, fields, scalar, Sys, Codec, unmarshal_obj, info_of,
}
use lpmx.Container.Append.{Container}
use lpmx.Container.Maps.{sys_dir, as_text}

-- type Image struct
pub record Image : Type 0 where
  pub root_dir : Bytes
  pub images : Dict Entry

in_use : Bytes → Bytes → Error
unfolding err_new
in_use key name =
    err_new Kind.operation (codes "container: " ++ key ++ codes " still relies on image: " ++ name)

untyped_container : Error
unfolding err_new
untyped_container = err_new Kind.type_error (codes "container type is not map[string]interface{}")

-- The loop over sys.Containers.
unfoldable pub check_unused : Codec Container → Bytes → Dict Entry → Go (Unit {0})
unfolding as_text unmarshal_obj in_use untyped_container
check_unused c name [] = pure tt
check_unused c name ((key, fields m) ∷ containers) =
    let rest = check_unused c name containers in
    (do
      config_path ← as_text (lookup (codes "ConfigPath") m)
      con ← unmarshal_obj c config_path
      if eqb con.image_base name then fail (in_use key name) else rest)
check_unused c name ((key, scalar s) ∷ containers) = fail untyped_container

-- The files and the folders of the layers.
unfoldable pub remove_layers : Bytes → Bytes → List Bytes → Go (Unit {0})
unfolding remove_all path_base
remove_layers image_dir base_dir [] = pure tt
remove_layers image_dir base_dir (layer ∷ layers) = do
  remove_all (below image_dir (path_base layer))
  remove_all (below base_dir (path_base layer))
  remove_layers image_dir base_dir layers

unfoldable pub remove_permanently : Bool → Dict Scalar → Go (Unit {0})
unfolding as_text remove_layers split
remove_permanently false m = pure tt
remove_permanently true m = do
  image_dir ← as_text (lookup (codes "image") m)
  base_dir ← as_text (lookup (codes "base") m)
  layer_order ← as_text (lookup (codes "layer_order") m)
  remove_layers image_dir base_dir (split b':' layer_order)

-- `dir, _ := vval["rootdir"].(string)`
unfoldable pub text_or_none : Option Scalar → Bytes
text_or_none (some (text s)) = s
text_or_none (some (other s)) = []
text_or_none none = []

untyped_image : Error
unfolding err_new
untyped_image = err_new Kind.type_error (codes "doc.Images type error")

unfoldable pub delete_image : Codec Image → Bytes → Bool → Image → Option Entry → Go (Unit {0})
unfolding remove_permanently remove_all text_or_none write_to_file untyped_image
delete_image c name permernant doc (some (fields m)) = do
  remove_permanently permernant m
  remove_all (text_or_none (lookup (codes "rootdir") m))
  write_to_file (c.marshal (record doc { images = remove name doc.images })) (info_of doc.root_dir)
delete_image c name permernant doc (some (scalar s)) = fail untyped_image
delete_image c name permernant doc none = fail untyped_image

-- CommonDelete
unfoldable pub common_delete :
    Host → Codec Sys → Codec Container → Codec Image → Bytes → Bool → Go (Unit {0})
unfolding get_config_dir unmarshal_obj check_unused delete_image
common_delete h c cc ci name permernant = do
  currdir ← get_config_dir h
  sys ← unmarshal_obj c (sys_dir currdir)
  check_unused cc name sys.containers
  doc ← unmarshal_obj ci (currdir ++ codes "/.lpmxdata")
  delete_image ci name permernant doc (lookup name doc.images)
