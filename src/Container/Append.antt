-- ===== src/Container/Append.antt =====
-- appendToSys of container/container.go: a container enters the registry.
use lpmx.Base.{Option, none, some, List, [], ◌∷◌}
use lpmx.Base.Text.{Bytes, codes}
use lpmx.Base.Numbers.{ℤ, itoa}
use lpmx.Base.Dict.{Dict, lookup, insert}
use lpmx.Base.Result.{Kind, Error, Result, ok, err, panic, err_new}
use lpmx.Base.World.{Go, pure, fail, crash, ◌>>=◌, ◌>>◌}
use lpmx.Utils.Files.{write_to_file}
use lpmx.Container.Config.{Host, get_config_dir}
use lpmx.Container.Sys.{Scalar, text, Entry, fields, scalar, Sys, Codec, unmarshal_obj, info_of}
use lpmx.Container.Maps.{sys_dir}
use lpmx.Container.Conf.{Setting}

-- type Container struct
pub record Container : Type 0 where
  pub id : Bytes
  pub root_path : Bytes
  pub setting_path : Bytes
  pub config_path : Bytes
  pub base_layer_path : Bytes
  pub container_name : Bytes
  pub rpc_port : ℤ
  pub base_type : Bytes
  pub image_base : Bytes
  pub data_sync_folder : Bytes
  pub data_sync_map : Bytes
  pub engine : Bytes
  pub file_sync_map : Bytes
  pub sys_folder : Bytes
  pub layers : Bytes
  pub expose_exe : Bytes
  pub user_shell : Bytes
  pub patched_elf_loader : Bytes
  pub execmaps : Bytes
  pub elf_patcher_path : Bytes
  pub log_path : Bytes
  pub setting_conf : Dict Setting
  pub start_time : Bytes
  pub create_user : Bytes
  pub current_user : Bytes
  pub rpc_map : List (ℤ × Bytes)
  pub pid_file : Bytes
  pub pid : ℤ

-- cmap, a map: BaseType is set twice, to the same value.
unfoldable pub new_entry : Container → Dict Scalar
new_entry con =
    (codes "RootPath", text con.root_path)
    ∷ (codes "SettingPath", text con.setting_path)
    ∷ (codes "ConfigPath", text con.config_path)
    ∷ (codes "ContainerID", text con.id)
    ∷ (codes "BaseLayerPath", text con.base_layer_path)
    ∷ (codes "ContainerName", text con.container_name)
    ∷ (codes "RPC", text (itoa con.rpc_port))
    ∷ (codes "BaseType", text con.base_type)
    ∷ (codes "Image", text con.image_base)
    ∷ (codes "DataSyncFolder", text con.data_sync_folder)
    ∷ (codes "DataSyncMap", text con.data_sync_map)
    ∷ (codes "Engine", text con.engine)
    ∷ (codes "MountFile", text con.file_sync_map)
    ∷ []

-- The assignments to vvalue.
unfoldable pub renew_entry : Container → Dict Scalar → Dict Scalar
unfolding insert
renew_entry con m = insert (codes "BaseType") (text con.base_type) (
    insert (codes "Image") (text con.image_base) (
      insert (codes "ConfigPath") (text con.config_path) (
        insert (codes "SettingPath") (text con.setting_path)
          (insert (codes "RootPath") (text con.root_path) m))))

mismatched : Error
unfolding err_new
mismatched =
    err_new Kind.type_error
      (codes "appendToSys container type mismatch, should be map[string]string")

-- The entry that the container gets, by the one that is there.
unfoldable pub entry_for : Container → Option Entry → Result (Dict Scalar)
unfolding new_entry renew_entry mismatched
entry_for con none = ok (new_entry con)
entry_for con (some (fields m)) = ok (renew_entry con m)
entry_for con (some (scalar s)) = err mismatched

unfoldable pub with_entry : Sys → Bytes → Dict Scalar → Sys
with_entry sys id m = record sys { containers = insert id (fields m) sys.containers }

-- `data, _ := StructMarshal(&sys)`, `WriteToFile(data, fmt.Sprintf("%s/.info", sys.RootDir))`
unfoldable pub save : Codec Sys → Sys → Go (Unit {0})
unfolding write_to_file
save c sys = write_to_file (c.marshal sys) (info_of sys.root_dir)

unfoldable pub store : Codec Sys → Sys → Bytes → Result (Dict Scalar) → Go (Unit {0})
unfolding with_entry save
store c sys id (ok m) = save c (with_entry sys id m)
store c sys id (err e) = fail e
store c sys id panic = crash

-- appendToSys, with con as it leaves it when it succeeds. After an error its callers drop con.
unfoldable pub append_to_sys : Host → Codec Sys → Container → Go Container
unfolding get_config_dir unmarshal_obj store entry_for
append_to_sys h c con = do
  currdir ← get_config_dir h
  sys ← unmarshal_obj c (sys_dir currdir)
  store c sys con.id (entry_for con (lookup con.id sys.containers))
  pure (record con { sys_folder = sys_dir currdir })

-- Does appendToSys get so far as to set con.SysDir, and to what?
unfoldable pub appended_below : Host → Codec Sys → Container → Go Bytes
unfolding get_config_dir unmarshal_obj entry_for
appended_below h c con = do
  currdir ← get_config_dir h
  sys ← unmarshal_obj c (sys_dir currdir)
  m ← λ w. (entry_for con (lookup con.id sys.containers), w)
  pure (sys_dir currdir)
