-- ===== src/Container/Push.antt =====
-- DockerPush of container/container.go: what a container has changed goes to the registry of images;
-- and DockerSearch.
use lpmx.Base.{List, [], Option, none, some, ◌∷◌, ◌++◌, map, if◌then◌else◌}
use lpmx.Base.Text.{Bytes, codes, join, split}
use lpmx.Base.Numbers.{itoa}
use lpmx.Base.Paths.{below, path_dir}
use lpmx.Base.Dict.{lookup}
use lpmx.Base.Result.{err}
use lpmx.Base.World.{Go, pure, fail, ◌>>=◌, ◌>>◌, os_mkdir, ignoring}
use lpmx.Utils.Files.{write_to_file}
use lpmx.Utils.Folders.{explain}
use lpmx.Utils.Pack.{tar_layer}
use lpmx.Pid.{pid_is_active, pid_value, by_file}
use lpmx.Docker.Layers.{list_tags}
use lpmx.Docker.Push.{Client, Manifests, upload_layers}
use lpmx.Container.Config.{get_config_dir}
use lpmx.Container.Sys.{Entry, fields, scalar, unmarshal_obj, info_of}
use lpmx.Container.Append.{Container, append_to_sys}
use lpmx.Container.Destroy.{unknown, pid_file}
use lpmx.Container.Install.{Supplies}
use lpmx.Container.Commit.{not_packable}
use lpmx.Container.Layer.{lower_layers, rename_as}
use lpmx.Container.Maps.{sys_dir, as_text}
use lpmx.Container.Resume.{or_false, or_zero}

-- DockerSearch
unfoldable pub docker_search : Supplies → Bytes → Go (List Bytes)
unfolding list_tags
docker_search s name = list_tags s.machine s.hub [] [] name

module _ (s : Supplies) (c : Client) (x : Manifests) (user pass name tag id : Bytes) where
  -- Steps 1 and 2: the layer as a file, which is uploaded, and the two at their new places.
  unfoldable pub push_layer : Container → Go Bytes
  unfolding tar_layer lower_layers split upload_layers path_dir rename_as
  push_layer con = do
    tar_layer s.packer con.root_path (codes "/tmp") con.id (
        con.root_path
        ∷ map (λ layer. below con.base_layer_path layer) (lower_layers (split b':' con.layers)))
    shasum ←
        upload_layers x s.machine s.hub c user pass name tag
          (codes "/tmp/" ++ con.id ++ codes ".tar.gz") con.image_base
    let target = below (below (path_dir con.base_layer_path) (codes "image")) shasum
    rename_as (codes "/tmp/" ++ con.id ++ codes ".tar.gz") target target
    rename_as con.root_path (below con.base_layer_path shasum) (below con.base_layer_path shasum)
    pure shasum

  -- Steps 3 and 4, for the layers of the container as they are then.
  unfoldable pub record_push : Container → Bytes → Go (Unit {0})
  unfolding explain os_mkdir write_to_file ignoring append_to_sys
  record_push con layers = do
    explain (codes "could not make new folder: " ++ con.root_path) (os_mkdir con.root_path)
    write_to_file (s.con_codec.marshal (record con { layers = layers })) (info_of con.config_path)
    ignoring (
        append_to_sys s.host s.sys_codec
          (record con { layers = layers; image_base = name ++ b':' ∷ tag }))

  unfoldable pub push_con : Container → Go (Unit {0})
  unfolding or_false or_zero pid_is_active pid_value pid_file path_dir itoa not_packable push_layer
      record_push join lower_layers split
  push_con con w =
      if or_false (pid_is_active s.processes (by_file (pid_file (path_dir con.root_path))) w).0
      then (
        err (
            not_packable s id (itoa (or_zero (pid_value (pid_file (path_dir con.root_path)) w).0))),
        w,
      )
      else (do
        shasum ← push_layer con
        record_push con (join b':' (codes "rw" ∷ shasum ∷ lower_layers (split b':' con.layers))))
          w

  unfoldable pub push_entry : Option Entry → Go (Unit {0})
  unfolding as_text unmarshal_obj push_con unknown
  push_entry (some (fields m)) = do
    config_path ← as_text (lookup (codes "ConfigPath") m)
    con ← unmarshal_obj s.con_codec config_path
    push_con con
  push_entry (some (scalar v)) = pure tt
  push_entry none = fail (unknown id)

  -- DockerPush
  unfoldable pub docker_push : Go (Unit {0})
  unfolding get_config_dir unmarshal_obj push_entry
  docker_push = do
    currdir ← get_config_dir s.host
    sys ← unmarshal_obj s.sys_codec (sys_dir currdir)
    push_entry (lookup id sys.containers)
