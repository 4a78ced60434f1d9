-- ===== src/Container/Run.antt =====
-- Run and startRPCService of container/container.go.
use lpmx.Base.{Bool, Option, none, some, List, [], ◌∷◌, ◌++◌, if◌then◌else◌}
use lpmx.Base.Text.{Bytes, codes, split}
use lpmx.Base.Numbers.{ℤ, pos, negsuc}
use lpmx.Base.Dict.{Dict, insert}
use lpmx.Base.Result.{panic}
use lpmx.Base.World.{Go, pure, crash, continue, ignoring}
use lpmx.Utils.Files.{file_exist, folder_exist, read_from_file, write_to_file}
use lpmx.Utils.Folders.{explain, remove_all}
use lpmx.Container.Sys.{struct_unmarshal, info_of}
use lpmx.Container.Append.{Container, append_to_sys}
use lpmx.Container.Maps.{add_exec, set_exec}
use lpmx.Container.Method.{Method, give, call, with_con, modify, ◌>>=◌, ◌>>◌, adding_msg}
use lpmx.Container.Setup.{setup_container, append_method}
use lpmx.Container.Shell.{Outside, bash_shell}

-- configmap, with the keys that every caller sets and those that not every caller does; engine and
-- container_name are empty if they are not set.
pub record RunMap : Type 0 where
  pub dir : Bytes
  pub config : Bytes
  pub parent_dir : Bytes
  pub id : Bytes
  pub imagetype : Bytes
  pub image : Bytes
  pub layers : Bytes
  pub baselayerpath : Bytes
  pub sync_folder : Bytes
  pub sync_ori_folder : Bytes
  pub engine : Bytes
  pub container_name : Bytes
  pub passive : Bool
  pub enable_engine : Bool
  pub execmaps : Option Bytes
  pub mountfile : Option Bytes
  pub elf_loader : Option Bytes

unfoldable pub or_blank_text : Option Bytes → Bytes
or_blank_text none = []
or_blank_text (some s) = s

-- con, as far as Run sets it from configmap
unfoldable pub run_con : RunMap → Bytes → Bytes → Container
unfolding or_blank_text
run_con m elf_loader id = record {
  id = id;
  root_path = m.dir;
  setting_path = m.config;
  config_path = m.parent_dir ++ codes "/.lpmx";
  base_layer_path = m.baselayerpath;
  container_name = m.container_name;
  rpc_port = pos 0;
  base_type = m.imagetype;
  image_base = m.image;
  data_sync_folder = m.sync_folder;
  data_sync_map = m.sync_ori_folder;
  engine = m.engine;
  file_sync_map = or_blank_text m.mountfile;
  sys_folder = [];
  layers = m.layers;
  expose_exe = [];
  user_shell = [];
  patched_elf_loader = elf_loader;
  execmaps = or_blank_text m.execmaps;
  elf_patcher_path = [];
  log_path = [];
  setting_conf = [];
  start_time = [];
  create_user = [];
  current_user = [];
  rpc_map = [];
  pid_file = [];
  pid = pos 0;
}

unfoldable pub insert_some : Bytes → Option Bytes → Dict Bytes → Dict Bytes
unfolding insert
insert_some k none env = env
insert_some k (some v) env = insert k v env

-- envmap
unfoldable pub run_env : RunMap → Dict Bytes → Dict Bytes
unfolding insert_some
run_env m env =
    insert_some (codes "engine") (if m.enable_engine then some (codes "TRUE") else none)
      (insert_some (codes "mountfile") m.mountfile (insert_some (codes "execmaps") m.execmaps env))

module _ (o : Outside) where
  -- startRPCService
  unfoldable pub start_rpc_service : ℤ → Method (Unit {0})
  unfolding explain insert
  start_rpc_service port = do
    modify (λ con. record con { rpc_map = [] })
    call (explain (codes "start rpc service encounters error") (o.listen port))
    with_con (λ con. call (
        o.accept (record {
          env = insert (codes "ContainerRoot") con.root_path (
              insert (codes "ContainerId") con.id
                (insert (codes "LD_PRELOAD") (con.sys_folder ++ codes "/libfakechroot.so") []));
          dir = con.root_path;
          rpc_map = [];
        })))

  unfoldable pub set_up : Method (Unit {0})
  unfolding setup_container
  set_up = setup_container o.host o.sys_codec o.exec o.viper o.walker

  -- A container whose folder has its file: con is what is stored. A text that is no container
  -- leaves con.
  unfoldable pub load_con : Method (Unit {0})
  unfolding read_from_file adding_msg struct_unmarshal
  load_con = do
    s ← with_con (λ con.
        adding_msg (codes "can't read configuration file from " ++ info_of con.config_path)
          (call (read_from_file (info_of con.config_path))))
    con' ←
        adding_msg (codes "struct unmarshal error")
          (call (λ w. (struct_unmarshal o.con_codec s, w)))
    modify (λ con. con')

  unfoldable pub load_or_set_up : Method (Unit {0})
  unfolding folder_exist file_exist load_con set_up ignoring remove_all
  load_or_set_up con w =
      (if folder_exist w con.config_path
          then (if file_exist w (info_of con.config_path)
              then load_con
              else (do call (ignoring (remove_all con.config_path)); set_up))
          else set_up)
        con w

  -- The executable mapping of one item: `strings.Split(item, "=")[1]` panics without an equals sign.
  unfoldable pub inject_pair : Bytes → List Bytes → Method (Unit {0})
  unfolding ignoring set_exec add_exec
  inject_pair id (k ∷ v ∷ parts) = call (ignoring (set_exec o.host o.sys_codec id add_exec v k))
  inject_pair id (k ∷ []) = λ con w. (panic, con, w)
  inject_pair id [] = λ con w. (panic, con, w)

  unfoldable pub inject : Bytes → List Bytes → Method (Unit {0})
  unfolding inject_pair
  inject id [] = give tt
  inject id (item ∷ items) = do inject_pair id (split b'=' item); inject id items

  unfoldable pub inject_execmaps : Bytes → Bytes → Method (Unit {0})
  unfolding inject
  inject_execmaps id [] = give tt
  inject_execmaps id (c ∷ execmaps) = inject id (split b':' (c ∷ execmaps))

  unfoldable pub serve : Method (Unit {0})
  unfolding append_method start_rpc_service adding_msg
  serve = do
    port ← call o.random_port
    modify (λ con. record con { rpc_port = port })
    append_method o.host o.sys_codec
    adding_msg (codes "starting rpc service encounters error") (start_rpc_service port)

  unfoldable pub enter : Dict Bytes → List Bytes → Method (Unit {0})
  unfolding append_method bash_shell adding_msg
  enter envmap args = do
    adding_msg (codes "append to sys info error") (append_method o.host o.sys_codec)
    adding_msg (codes "starting bash shell encounters error")
        (with_con (λ con. call (bash_shell o con args envmap)))

  -- Run behind the deferred function
  unfoldable pub run_body : Bool → Dict Bytes → List Bytes → Method (Unit {0})
  unfolding load_or_set_up inject_execmaps serve enter
  run_body passive envmap args = do
    load_or_set_up
    with_con (λ con. inject_execmaps con.id con.execmaps)
    if passive then serve else enter envmap args

  -- The deferred function: con is stored, and in the registry, also after an error.
  unfoldable pub leave : Container → Go (Unit {0})
  unfolding ignoring write_to_file append_to_sys
  leave con w =
      let con' = record con { pid = negsuc 0 } in
      let (r, w') =
        ignoring (write_to_file (o.con_codec.marshal con') (info_of con'.config_path)) w in
      ignoring (append_to_sys o.host o.sys_codec con') w'

  unfoldable pub run_from : Container → Bool → Dict Bytes → List Bytes → Go (Unit {0})
  unfolding run_body leave
  run_from con passive envmap args w =
      let (r, con', w') = run_body passive envmap args con w in
      let (s, w'') = leave con' w' in (r, w'')

  -- The id that Run gives to the container.
  unfoldable pub chosen_id : Bytes → Go Bytes
  chosen_id [] = o.random_string
  chosen_id (c ∷ id) = pure (c ∷ id)

  -- `(*configmap)["elf_loader"].(string)` panics without that key.
  unfoldable pub run_loader :
      RunMap → Dict Bytes → List Bytes → Option Bytes → Bytes → Go (Unit {0})
  unfolding run_from run_con run_env
  run_loader m env args (some elf_loader) id =
      run_from (run_con m elf_loader id) m.passive (run_env m env) args
  run_loader m env args none id = crash

  -- Run
  unfoldable pub run : RunMap → Dict Bytes → List Bytes → Go (Unit {0})
  unfolding chosen_id run_loader
  run m env args w =
      let (r, w') = chosen_id m.id w in continue r (run_loader m env args m.elf_loader) w'
