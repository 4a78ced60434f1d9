-- ===== src/Container/Commit.antt =====
-- DockerCommit of container/container.go: what a container has changed becomes a layer, and the
-- container one of a new image.
use lpmx.Base.{ℕ, Option, none, some, [], ◌∷◌, ◌++◌, map, if◌then◌else◌}
use lpmx.Base.Text.{Bytes, codes, join, split}
use lpmx.Base.Numbers.{itoa}
use lpmx.Base.Paths.{below, path_base, path_dir}
use lpmx.Base.Dict.{Dict, lookup, insert}
use lpmx.Base.Result.{Kind, Error, err, err_new}
use lpmx.Base.World.{Go, pure, fail, ◌>>=◌, ◌>>◌, os_symlink, ignoring, deferring}
use lpmx.Utils.Files.{write_to_file}
use lpmx.Utils.Folders.{explain, copy_file}
use lpmx.Utils.Moving.{create_temp_dir, sha256file, get_file_size}
use lpmx.Utils.Pack.{tar_layer}
use lpmx.Pid.{pid_is_active, pid_value, by_file}
use lpmx.Container.Config.{get_config_dir}
use lpmx.Container.Sys.{Scalar, text, other, Entry, fields, scalar, unmarshal_obj, info_of}
use lpmx.Container.Append.{Container, append_to_sys}
use lpmx.Container.Destroy.{unknown, pid_file}
use lpmx.Container.Images.{Image}
use lpmx.Container.Install.{Supplies, data_dir, drop_temp, by_base, is_some, list_image}
use lpmx.Container.Maps.{sys_dir, as_text}
use lpmx.Container.Resume.{or_false, or_zero}
use lpmx.Container.Layer.{
  drop_folder, clear_layer, rename_as, lower_layers, committed_layers, moved_con, new_layer,
  make_workspace,
}

-- The messages of the two end with the names of Go's types, which are left out.
unfoldable pub untyped_layer : Error
unfolding err_new
untyped_layer = err_new Kind.type_error (codes "doc.Image.Layer type is not right")

unfoldable pub untyped_doc : Error
unfolding err_new
untyped_doc = err_new Kind.type_error (codes "doc.Image type is not right")

-- A list of layers with one more, if there is a list.
unfoldable pub longer_order : Bytes → Bytes → Option Scalar → Go (Dict Scalar)
unfolding as_text
longer_order key file none = pure []
longer_order key file (some v) = do t ← as_text (some v); pure ((key, text (t ++ b':' ∷ file)) ∷ [])

module _ (s : Supplies) where
  -- steps 1 and 2: the layer as a file and a folder of its checksum, and the workspace and the
  -- settings at their new places.
  unfoldable pub freeze_layer : Container → Bytes → Bytes → Bytes → Bytes → Bytes → Go Bytes
  unfolding create_temp_dir tar_layer lower_layers split sha256file path_dir rename_as explain
      os_symlink make_workspace copy_file
  freeze_layer con tempdir docker_path dir id config_dir = do
    temp_dir ← create_temp_dir s.machine tempdir
    tar_layer s.packer con.root_path temp_dir con.id (
        con.root_path
        ∷ map (λ layer. below con.base_layer_path layer) (lower_layers (split b':' con.layers)))
    shasum ← sha256file s.machine (below temp_dir con.id ++ codes ".tar.gz")
    let tar_path = below (below docker_path (codes ".image")) shasum ++ codes ".tar.gz"
    rename_as (below temp_dir con.id ++ codes ".tar.gz") tar_path tar_path
    let frozen = below con.base_layer_path shasum
    rename_as con.root_path (frozen ++ codes ".tar.gz") frozen
    let link = below (path_dir con.root_path) shasum ++ codes ".tar.gz"
    explain (codes "could not symlink: " ++ frozen ++ codes ".tar.gz to " ++ link)
        (os_symlink (frozen ++ codes ".tar.gz") link)
    make_workspace (below dir (codes "workspace"))
    rename_as config_dir (below (below dir (codes "workspace")) id)
        (below (below dir (codes "workspace")) id)
    copy_file con.setting_path (below dir (codes "setting.yml"))
    pure shasum

  -- The values of mdata that come from the image that the container was made of.
  unfoldable pub inherited_layers : Bytes → Dict Scalar → Option (Dict ℕ) → Go (Dict Scalar)
  unfolding get_file_size insert as_text longer_order untyped_layer
  inherited_layers file m none = fail untyped_layer
  inherited_layers file m (some old_map) = do
    size ← get_file_size s.machine file
    order ← as_text (lookup (codes "layer_order") m)
    orig ← longer_order (codes "orig_layer_order") file (lookup (codes "orig_layer_order") m)
    pure (
        (codes "layer", other (s.sizes_codec.marshal (insert file size old_map)))
        ∷ (codes "layer_order", text (order ++ b':' ∷ file))
        ∷ orig)

  -- (map_interface["layer"]).(map[string]interface{})
  unfoldable pub sizes_of : Option Scalar → Option (Dict ℕ)
  sizes_of none = none
  sizes_of (some (text t)) = none
  sizes_of (some (other t)) = s.sizes_codec.unmarshal t

  unfoldable pub inherited : Bytes → Option Entry → Go (Dict Scalar)
  unfolding inherited_layers sizes_of untyped_doc
  inherited file none = pure []
  inherited file (some (fields m)) = inherited_layers file m (sizes_of (lookup (codes "layer") m))
  inherited file (some (scalar v)) = fail untyped_doc

  -- mdata
  unfoldable pub commit_entry : Bytes → Bytes → Dict Scalar → Dict Scalar
  commit_entry docker_path dir layers =
      (codes "rootdir", text dir)
        ∷ (codes "config", text (below dir (codes "setting.yml")))
        ∷ (codes "image", text (below docker_path (codes ".image")))
        ∷ layers
      ++ (codes "workspace", text (below dir (codes "workspace")))
        ∷ (codes "base", text (below docker_path (codes ".base")))
        ∷ (codes "imagetype", text (codes "Docker"))
        ∷ []

  unfoldable pub sizes_or_none : Option (Dict ℕ) → Dict ℕ
  unfolding by_base
  sizes_or_none none = []
  sizes_or_none (some sizes) = by_base sizes

  -- The information on the new image; without an old image there is no order of layers, and it
  -- panics.
  unfoldable pub write_commit_info : Bytes → Bytes → Dict Scalar → Go (Unit {0})
  unfolding as_text split path_base join sizes_of sizes_or_none write_to_file
  write_commit_info dir name layers = do
    order ← as_text (lookup (codes "layer_order") layers)
    write_to_file
        (s.info_codec.marshal (record {
          name = name;
          image_type = codes "Docker";
          layers_map = sizes_or_none (sizes_of (lookup (codes "layer") layers));
          layers = join b':' (map path_base (split b':' order));
        }))
        (info_of dir)

  -- step 4: the container is stored and registered, and the image is listed.
  unfoldable pub record_commit :
      Image → Container → Bytes → Bytes → Bytes → Bytes → Bytes → Go (Unit {0})
  unfolding write_to_file committed_layers ignoring append_to_sys inherited commit_entry list_image
      write_commit_info
  record_commit doc con old_imagebase docker_path dir name shasum = do
    let con' = record con { layers = committed_layers shasum con.layers }
    write_to_file (s.con_codec.marshal con') (info_of con'.config_path)
    ignoring (append_to_sys s.host s.sys_codec (record con' { image_base = name }))
    layers ←
        inherited (below (below docker_path (codes ".image")) shasum ++ codes ".tar.gz")
          (lookup old_imagebase doc.images)
    list_image s.image_codec doc name (commit_entry docker_path dir layers)
    write_commit_info dir name layers

  -- A container that does not run.
  unfoldable pub commit_stopped : Bytes → Bytes → Bytes → Bytes → Container → Image → Go (Unit {0})
  unfolding drop_folder create_temp_dir clear_layer freeze_layer path_dir new_layer moved_con
      record_commit
  commit_stopped tempdir id newname newtag con doc = do
    drop_folder (con.root_path ++ codes "/var/cache/apt/archives")
    temp ← create_temp_dir s.machine tempdir
    clear_layer con temp
    let docker_path = path_dir con.base_layer_path
    let dir = below (below docker_path newname) newtag
    shasum ← freeze_layer con tempdir docker_path dir id (path_dir con.config_path)
    new_layer (moved_con con dir id) temp
    record_commit doc (moved_con con dir id) con.image_base docker_path dir
        (newname ++ b':' ∷ newtag) shasum

  unfoldable pub commit_new : Bytes → Bytes → Bytes → Bytes → Container → Image → Go (Unit {0})
  unfolding is_some lookup commit_stopped err_new
  commit_new tempdir id newname newtag con doc =
      if is_some (lookup (newname ++ b':' ∷ newtag) doc.images)
      then fail (
          err_new Kind.exist (
            newname
            ++ b':' ∷ newtag
            ++ codes " already exists, please choose another name and tag"))
      else commit_stopped tempdir id newname newtag con doc

  unfoldable pub not_packable : Bytes → Bytes → Error
  unfolding err_new
  not_packable id pid = err_new Kind.exist (
      codes "conatiner with id: "
      ++ id
      ++ codes " is running with pid: "
      ++ pid
      ++ codes ", can't package layer, please stop it firstly")

  unfoldable pub commit_con : Bytes → Bytes → Bytes → Bytes → Container → Go (Unit {0})
  unfolding or_false or_zero pid_is_active pid_value pid_file path_dir itoa not_packable
      unmarshal_obj data_dir commit_new
  commit_con currdir id newname newtag con w =
      if or_false (pid_is_active s.processes (by_file (pid_file (path_dir con.root_path))) w).0
      then (
        err (not_packable id (itoa (or_zero (pid_value (pid_file (path_dir con.root_path)) w).0))),
        w,
      )
      else (do
        doc ← unmarshal_obj s.image_codec (data_dir currdir)
        commit_new (below currdir (codes ".temp")) id newname newtag con doc)
          w

  unfoldable pub commit_entry_of : Bytes → Bytes → Bytes → Bytes → Option Entry → Go (Unit {0})
  unfolding as_text unmarshal_obj commit_con unknown
  commit_entry_of currdir id newname newtag (some (fields m)) = do
    config_path ← as_text (lookup (codes "ConfigPath") m)
    con ← unmarshal_obj s.con_codec config_path
    commit_con currdir id newname newtag con
  commit_entry_of currdir id newname newtag (some (scalar v)) = pure tt
  commit_entry_of currdir id newname newtag none = fail (unknown id)

  unfoldable pub commit_listed : Bytes → Bytes → Bytes → Bytes → Go (Unit {0})
  unfolding unmarshal_obj commit_entry_of
  commit_listed currdir id newname newtag = do
    sys ← unmarshal_obj s.sys_codec (sys_dir currdir)
    commit_entry_of currdir id newname newtag (lookup id sys.containers)

  -- DockerCommit
  unfoldable pub docker_commit : Bytes → Bytes → Bytes → Go (Unit {0})
  unfolding get_config_dir deferring drop_temp commit_listed
  docker_commit id newname newtag = do
    currdir ← get_config_dir s.host
    deferring (drop_temp (below currdir (codes ".temp"))) (commit_listed currdir id newname newtag)
