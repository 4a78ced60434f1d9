-- ===== src/Container/Shell.antt =====
-- bashShell of container/container.go, and KillProcessByPid of utils/utils.go.
use lpmx.Base.{Option, none, some, List, [], ◌∷◌, ◌++◌, if◌then◌else◌}
use lpmx.Base.Text.{Bytes, codes, split}
use lpmx.Base.Strings.{trim_suffix}
use lpmx.Base.Numbers.{ℤ}
use lpmx.Base.Dict.{Dict, insert}
use lpmx.Base.Result.{Kind, err_new}
use lpmx.Base.World.{Go, pure, fail, crash, ◌>>=◌, deferring}
use lpmx.Utils.Files.{folder_exist}
use lpmx.Pid.{Processes}
use lpmx.Paeudo.{Exec, command, Combined, command_bash, Shells, shell_env_pid}
use lpmx.Rpc.{Server}
use lpmx.Yaml.{Viper}
use lpmx.Container.Config.{Host}
use lpmx.Container.Sys.{Sys, Codec}
use lpmx.Container.Conf.{Setting}
use lpmx.Container.Append.{Container}
use lpmx.Container.Patch.{Walker}
use lpmx.Container.Environ.{Environ, gen_env, or_no_text}

-- What the methods of a container and the functions that run one rely on.
pub record Outside : Type 0 where
  pub host : Host
  pub sys_codec : Codec Sys
  pub con_codec : Codec Container
  pub processes : Processes
  pub environ : Environ
  pub exec : Exec
  pub combined : Combined
  pub shells : Shells
  pub viper : Viper (Dict Setting)
  pub walker : Walker
  -- RandomString(IDLENGTH) and RandomPort(MIN, MAX)
  pub random_string : Go Bytes
  pub random_port : Go ℤ
  -- net.Listen on the port, and rpc.Accept for the service
  pub listen : ℤ → Go (Unit {0})
  pub accept : Server → Go (Unit {0})

-- KillProcessByPid
unfoldable pub kill_process_by_pid : Combined → Bytes → Go (Unit {0})
unfolding command_bash
kill_process_by_pid run pid = do out ← command_bash run (codes "kill -9 " ++ pid); pure tt

unfoldable pub insert_fakeroot : Bytes → Bytes → Dict Bytes → Dict Bytes
unfolding insert trim_suffix
insert_fakeroot key pid env =
    insert (codes "FAKEROOTPID") (trim_suffix 10 pid)
      (insert (codes "FAKEROOTKEY") (trim_suffix 10 key) env)

module _ (o : Outside) (con : Container) (args : List Bytes) where
  unfoldable pub start_shell : Dict Bytes → Go (Unit {0})
  unfolding shell_env_pid
  start_shell env = shell_env_pid o.shells o.processes con.user_shell env con.root_path args

  -- The shell under the daemon that printed its key and its pid.
  unfoldable pub shell_under : Dict Bytes → List Bytes → Go (Unit {0})
  unfolding insert_fakeroot start_shell deferring kill_process_by_pid
  shell_under env (key ∷ pid ∷ faked_str) =
      deferring (kill_process_by_pid o.combined pid) (start_shell (insert_fakeroot key pid env))
  shell_under env (key ∷ []) = crash
  shell_under env [] = crash

  unfoldable pub shell_for : Dict Bytes → Option Bytes → Go (Unit {0})
  unfolding command shell_under insert_fakeroot start_shell or_no_text
  shell_for env none = do
    foutput ← command o.exec (con.sys_folder ++ codes "/faked-sysv") []
    shell_under env (split b':' foutput)
  shell_for env (some fakerootkey) =
      start_shell
        (insert_fakeroot fakerootkey (or_no_text (o.environ.lookup_env (codes "FAKEROOTPID"))) env)

  -- bashShell
  unfoldable pub bash_shell : Dict Bytes → Go (Unit {0})
  unfolding gen_env folder_exist shell_for err_new
  bash_shell envmap = do
    env ← gen_env o.host o.environ con envmap
    λ w.
        (if folder_exist w con.root_path
            then shell_for env (o.environ.lookup_env (codes "FAKEROOTKEY"))
            else fail (
                err_new Kind.n_exist
                  (codes "can't locate container root folder " ++ con.root_path)))
          w
