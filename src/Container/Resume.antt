-- ===== src/Container/Resume.antt =====
-- Resume of container/container.go.
use lpmx.Base.{Bool, false, Option, none, some, List, [], ◌++◌, if◌then◌else◌}
use lpmx.Base.Text.{Bytes, codes}
use lpmx.Base.Numbers.{ℤ, pos, itoa}
use lpmx.Base.Paths.{path_dir}
use lpmx.Base.Dict.{lookup}
use lpmx.Base.Result.{Kind, Result, ok, err, panic, err_new}
use lpmx.Base.World.{Go, pure, fail, ◌>>=◌}
use lpmx.Pid.{pid_is_active, pid_value, by_file}
use lpmx.Container.Config.{get_config_dir}
use lpmx.Container.Sys.{Entry, fields, scalar, unmarshal_obj}
use lpmx.Container.Append.{Container}
use lpmx.Container.Destroy.{unknown, pid_file}
use lpmx.Container.Maps.{sys_dir, as_text}
use lpmx.Container.Run.{RunMap, run}
use lpmx.Container.Shell.{Outside}

-- configmap of Resume: a container that is resumed is not passive, and gets no execmaps anew.
unfoldable pub resume_map : Container → Bool → RunMap
unfolding path_dir
resume_map con engine = record {
  dir = con.root_path;
  config = con.setting_path;
  parent_dir = path_dir con.root_path;
  id = con.id;
  imagetype = con.base_type;
  image = con.image_base;
  layers = con.layers;
  baselayerpath = con.base_layer_path;
  elf_loader = some con.patched_elf_loader;
  sync_folder = con.data_sync_folder;
  sync_ori_folder = con.data_sync_map;
  engine = con.engine;
  container_name = [];
  passive = false;
  enable_engine = engine;
  execmaps = none;
  mountfile = some con.file_sync_map;
}

-- `pok, _ := PidIsActive(pidfile)`
unfoldable pub or_false : Result Bool → Bool
or_false (ok b) = b
or_false (err e) = false
or_false panic = false

-- `pid, _ := PidValue(pidfile)`
unfoldable pub or_zero : Result ℤ → ℤ
or_zero (ok n) = n
or_zero (err e) = pos 0
or_zero panic = pos 0

module _ (o : Outside) (id : Bytes) (engine : Bool) (args : List Bytes) where
  unfoldable pub resume_con : Container → Go (Unit {0})
  unfolding or_false or_zero pid_is_active pid_value pid_file path_dir resume_map run err_new itoa
  resume_con con w =
      let pidfile = pid_file (path_dir con.root_path) in
      if or_false (pid_is_active o.processes (by_file pidfile) w).0
      then (
        err (
            err_new Kind.exist (
              codes "conatiner with id: "
              ++ id
              ++ codes " is running with pid: "
              ++ itoa (or_zero (pid_value pidfile w).0)
              ++ codes ", can't resume")),
        w,
      )
      else run o (resume_map con engine) [] args w

  unfoldable pub resume_entry : Option Entry → Go (Unit {0})
  unfolding as_text unmarshal_obj resume_con unknown
  resume_entry (some (fields m)) = do
    config_path ← as_text (lookup (codes "ConfigPath") m)
    con ← unmarshal_obj o.con_codec config_path
    resume_con con
  resume_entry (some (scalar s)) = pure tt
  resume_entry none = fail (unknown id)

  -- Resume. `err == ErrNExist` never holds, since err is an *Error and ErrNExist is none.
  unfoldable pub resume : Go (Unit {0})
  unfolding get_config_dir unmarshal_obj resume_entry
  resume = do
    currdir ← get_config_dir o.host
    sys ← unmarshal_obj o.sys_codec (sys_dir currdir)
    resume_entry (lookup id sys.containers)
