-- ===== src/Paeudo.antt =====
-- paeudo/paeudo.go: the programs that the process runs. What package os/exec does is a parameter.
use lpmx.Base.{◌≡◌, Bool, true, false, Option, none, some, List, [], ◌∷◌, ◌++◌, map, if◌then◌else◌}
use lpmx.Base.Text.{Bytes, codes, eqb, join}
use lpmx.Base.Strings.{trim_space}
use lpmx.Base.Numbers.{ℤ}
use lpmx.Base.Paths.{path_dir, below}
use lpmx.Base.Dict.{Dict}
use lpmx.Base.Result.{Kind, Error, Result, ok, err, panic, err_new}
use lpmx.Base.World.{World, Go, pure, fail, crash, ◌>>=◌, ◌>>◌}
use lpmx.Utils.Folders.{explain}
use lpmx.Pid.{Processes, pid_create_by_pid}
pub mod Laws
mod Tests

-- Running a program with arguments and waiting for it: what it wrote to its standard output.
abbrev pub Exec : Type 0
Exec = Bytes → List Bytes → Go Bytes

-- Command
unfoldable pub command : Exec → Bytes → List Bytes → Go Bytes
unfolding explain
command run cmd arg = explain (codes "cmd running error") (run cmd arg)

-- cmd.CombinedOutput: what the program wrote, and how its run failed.
abbrev pub Combined : Type 0
Combined = Bytes → List Bytes → Go (Bytes × Option Kind)

unfoldable pub combined_or : Bytes → Option Kind → Go Bytes
unfolding err_new
combined_or out none = pure out
combined_or out (some k) = fail (err_new k out)

-- CommandBash
unfoldable pub command_bash : Combined → Bytes → Go Bytes
unfolding combined_or
command_bash run cmd_str = do
  (out, failure) ← run (codes "sh") (codes "-c" ∷ cmd_str ∷ [])
  combined_or out failure

-- exec.LookPath; Start of a command with its arguments, environment and directory, under a context
-- with a timeout or without, which gives the process id; Wait; the context's cancel; and
-- time.ParseDuration.
pub record Shells : Type 0 where
  pub look_path : Bytes → World → Result Bytes
  pub start : Option Bytes → Bytes → List Bytes → List Bytes → Bytes → Go ℤ
  pub wait : ℤ → Go (Unit {0})
  pub cancel : ℤ → Go (Unit {0})
  pub parse_duration : Bytes → Result (Unit {0})

-- fmt.Sprintf("%s=%s", key, value) of every variable
unfoldable pub env_strings : Dict Bytes → List Bytes
env_strings env = map (λ (kv : Bytes × Bytes). kv.0 ++ b'=' ∷ kv.1) env

unfoldable pub shell_args : List Bytes → List Bytes
unfolding join
shell_args [] = []
shell_args (a ∷ arg) = codes "-c" ∷ join 32 (a ∷ arg) ∷ []

unfoldable pub or_no_shell : Bytes → Result Bytes → Result Bytes
unfolding err_new
or_no_shell sh (ok p) = ok p
or_no_shell sh (err e) =
    err (err_new Kind.nil_error (codes "shell: " ++ sh ++ codes " doesn't exist"))
or_no_shell sh panic = panic

unfoldable pub after_wait : Result (Unit {0}) → Result (Unit {0})
after_wait (ok u) = ok u
after_wait (err e) = ok tt
after_wait panic = panic

module _ (x : Shells) where
  unfoldable pub shell_path : Bytes → Go Bytes
  unfolding or_no_shell
  shell_path sh w = (or_no_shell sh (x.look_path sh w), w)

  -- ShellEnvPid: an error of Wait goes to the log only.
  unfoldable pub shell_env_pid : Processes → Bytes → Dict Bytes → Bytes → List Bytes → Go (Unit {0})
  unfolding shell_path shell_args env_strings explain pid_create_by_pid path_dir after_wait
  shell_env_pid ps sh env dir arg = do
    shpath ← shell_path sh
    pid ←
        explain (codes "cmd start error")
          (x.start none shpath (shell_args arg) (env_strings env) dir)
    pid_create_by_pid ps (below (path_dir dir) (codes "container.pid")) pid
    λ w. let (r, w') = x.wait pid w in (after_wait r, w')

  -- `defer cancel()`: the context ends when the function returns.
  unfoldable pub cancelled : Go ℤ → Go ℤ
  cancelled m = do pid ← m; x.cancel pid; pure pid

  unfoldable pub start_for : Bytes → Bytes → List Bytes → List Bytes → Bytes → Go ℤ
  unfolding trim_space explain cancelled
  start_for timeout shpath arg envstrs dir =
      if eqb (trim_space timeout) []
      then explain (codes "cmd running error") (x.start none shpath arg envstrs dir)
      else (do
        t ← explain (codes "time parse error") (λ w. (x.parse_duration timeout, w))
        cancelled
            (explain (codes "cmd running error") (x.start (some timeout) shpath arg envstrs dir)))

  -- ProcessContextEnv
  unfoldable pub process_context_env : Bytes → Dict Bytes → Bytes → Bytes → List Bytes → Go ℤ
  unfolding shell_path start_for env_strings
  process_context_env sh env dir timeout arg = do
    shpath ← shell_path sh
    start_for timeout shpath arg (env_strings env) dir
