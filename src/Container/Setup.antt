-- ===== src/Container/Setup.antt =====
-- setupContainer, createContainer and the state that appendToSys leaves, of container/container.go.
use lpmx.Base.{true, Option, none, some, [], ◌++◌, if◌then◌else◌}
use lpmx.Base.Text.{Bytes, codes}
use lpmx.Base.Strings.{trim_suffix, has_suffix}
use lpmx.Base.Dict.{Dict, lookup}
use lpmx.Base.Result.{Result, ok, err, panic}
use lpmx.Base.World.{World}
use lpmx.Utils.Folders.{make_dir}
use lpmx.Paeudo.{Exec, command}
use lpmx.Yaml.{Viper, load_config}
use lpmx.Container.Config.{Host}
use lpmx.Container.Sys.{text, other, Sys, Codec}
use lpmx.Container.Conf.{Setting, single, items}
use lpmx.Container.Append.{Container, appended_below, append_to_sys}
use lpmx.Container.Patch.{Walker, patch_bineries}
use lpmx.Container.Environ.{guess}
use lpmx.Container.Method.{Method, call, with_con, modify, ◌>>=◌, ◌>>◌, adding_msg}

-- strsh, _ := sh.(string)
unfoldable pub text_or_empty : Setting → Bytes
text_or_empty (single (text s)) = s
text_or_empty (single (other s)) = []
text_or_empty (items ds) = []

-- con.UserShell, by the value of user_shell
unfoldable pub shell_of : Container → Option Setting → World → Result Bytes
unfolding text_or_empty has_suffix guess
shell_of con none w = ok (codes "/bin/bash")
shell_of con (some sh) w =
    if has_suffix (text_or_empty sh) b'/'
    then ok (text_or_empty sh)
    else guess con true w (text_or_empty sh)

unfoldable pub settings_of : Result (Dict Setting) → Dict Setting
settings_of (ok conf) = conf
settings_of (err e) = []
settings_of panic = []

unfoldable pub and_done {ℓ} : {A : Type ℓ} → Result A → Result (Unit {0})
and_done (ok a) = ok tt
and_done (err e) = err e
and_done panic = panic

-- `_, con.SettingConf, err = LoadConfig(con.SettingPath)`
unfoldable pub load_settings : Viper (Dict Setting) → Method (Unit {0})
unfolding load_config settings_of and_done
load_settings v con w =
    let (r, w') = load_config v con.setting_path w in
    (and_done r, record con { setting_conf = settings_of r }, w')

-- createContainer
unfoldable pub create_container : Exec → Viper (Dict Setting) → Method (Unit {0})
unfolding command trim_suffix adding_msg load_settings shell_of make_dir
create_container run v = do
  modify (λ con. record con {
    log_path = con.config_path ++ codes "/log";
    elf_patcher_path = con.sys_folder;
  })
  user ← call (command run (codes "whoami") [])
  modify (λ con. record con { create_user = trim_suffix 10 user })
  with_con (λ con.
      adding_msg (codes "load config from " ++ con.setting_path ++ codes " encounters error")
        (load_settings v))
  shell ←
      with_con
        (λ con. call (λ w. (shell_of con (lookup (codes "user_shell") con.setting_conf) w, w)))
  modify (λ con. record con { user_shell = shell; current_user = codes "root" })
  with_con (λ con. call (make_dir con.log_path))

module _ (h : Host) (c : Codec Sys) where
  unfoldable pub with_sys_folder : Container → Result Bytes → Container
  with_sys_folder con (ok dir) = record con { sys_folder = dir }
  with_sys_folder con (err e) = con
  with_sys_folder con panic = con

  -- appendToSys, with con as it leaves it
  unfoldable pub append_method : Method (Unit {0})
  unfolding append_to_sys and_done appended_below with_sys_folder
  append_method con w =
      let (r, w') = append_to_sys h c con w in
      (and_done r, with_sys_folder con (appended_below h c con w).0, w')

  -- setupContainer
  unfoldable pub setup_container : Exec → Viper (Dict Setting) → Walker → Method (Unit {0})
  unfolding make_dir create_container patch_bineries append_method
  setup_container run v k = do
    with_con (λ con. call (make_dir con.config_path))
    create_container run v
    with_con (λ con. call (patch_bineries run k con))
    append_method
