-- ===== src/Paeudo/Laws.antt =====
-- A shell that ShellEnvPid of paeudo/paeudo.go starts for a container that is in use.
use lpmx.Base.{◌≡◌, ◌≢◌, refl, ap, ◌∙◌, true, List, some, none}
use lpmx.Base.Text.{Bytes, codes}
use lpmx.Base.Numbers.{ℤ, parse_int}
use lpmx.Base.Paths.{path_dir, below}
use lpmx.Base.Dict.{Dict}
use lpmx.Base.Result.{Result, ok, err, panic}
use lpmx.Base.World.{World, Go, ◌>>=◌, >>=-ok, continue}
use lpmx.Utils.Folders.{explain, explained}
use lpmx.Pid.{Processes, pid_create_by_pid}
use lpmx.Pid.Laws.{HasText, pid_create_by_pid_live}
use lpmx.Paeudo.{
  Shells, shell_path, or_no_shell, shell_args, env_strings, shell_env_pid, after_wait,
}

fails_there :
    (x : Result (Unit {0}) × World) (f : Unit {0} → Go (Unit {0})) (w : World)
    → x.1 ≡ w
    → x.0 ≢ ok tt
    → ((continue x.0 f x.1).0 ≢ ok tt) × ((continue x.0 f x.1).1 ≡ w)
fails_there (ok tt, v) f w e n = absurd (n refl)
fails_there (err a, v) f w e n = (cc, e)
fails_there (panic, v) f w e n = (cc, e)

-- ShellEnvPid finds the shell and starts it, and the container's pid file then can be read and
-- written and holds the pid of another process, which is alive: it fails, after the start and
-- without waiting, so that the machine stays as the start left it.
pub shell_env_pid_left :
    (x : Shells) (ps : Processes) (sh shpath : Bytes) (env : Dict Bytes) (dir : Bytes)
    (arg : List Bytes) (w w' : World) (pid n : ℤ) (text : Bytes)
    → x.look_path sh w ≡ ok shpath
    → x.start none shpath (shell_args arg) (env_strings env) dir w ≡ (ok pid, w')
    → HasText w' (below (path_dir dir) (codes "container.pid")) text
    → parse_int 31 text ≡ some n
    → ps.reached n ≡ true
    → n ≢ pid
    → ((shell_env_pid x ps sh env dir arg w).0 ≢ ok tt)
      × ((shell_env_pid x ps sh env dir arg w).1 ≡ w')
unfolding shell_env_pid shell_path or_no_shell explain explained
shell_env_pid_left x ps sh shpath env dir arg w w' pid n text l s h p a d =
    let file = below (path_dir dir) (codes "container.pid") in
    let (kept, alone) = pid_create_by_pid_live ps file text n w' h p pid a in
    let found = ap (λ (r : Result Bytes). (or_no_shell sh r, w)) l in
    let started = ap (λ (y : Result ℤ × World). (explained (codes "cmd start error") y.0, y.1)) s in
    let waiting : ℤ → Unit {0} → Go (Unit {0}) =
      λ q u v. let (r, v') = x.wait q v in (after_wait r, v') in
    let begin =
      explain (codes "cmd start error")
        (x.start none shpath (shell_args arg) (env_strings env) dir) in
    let rest = λ (q : ℤ). pid_create_by_pid ps file q >>= waiting q in
    let done =
      >>=-ok (shell_path x sh)
        (λ (path : Bytes).
          explain (codes "cmd start error")
            (x.start none path (shell_args arg) (env_strings env) dir)
          >>= rest)
        w shpath w found
      ∙ >>=-ok begin rest w pid w' started in
    rw done
      (fails_there (pid_create_by_pid ps file pid w') (waiting pid) w' kept (λ e. d (alone.0 e)))
