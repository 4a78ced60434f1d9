-- ===== src/Paeudo/Tests.antt =====
-- A shell for a container whose pid file holds another process.
use lpmx.Base.{◌≡◌, ◌≢◌, refl, true, some, []}
use lpmx.Base.Text.{codes}
use lpmx.Base.Numbers.{pos, parse_int, digits}
use lpmx.Base.Paths.{path_dir, below}
use lpmx.Base.Result.{ok}
use lpmx.Base.World.{World, file, pure, resolve, opens}
use lpmx.Pid.{Processes}
use lpmx.Pid.Laws.{HasText}
use lpmx.Paeudo.{Shells, shell_env_pid}
use lpmx.Paeudo.Laws.{shell_env_pid_left}

-- Every path is a file with the pid 12.
abbrev world : World
world = record {
  node = λ p. some (file (codes "12"));
  readable = λ p. true;
  writable = λ p. true;
  removable = λ p. true;
  room = λ p. 1000;
}

abbrev processes : Processes
processes = record { own = pos 3; reached = λ n. true }

abbrev shells : Shells
shells = record {
  look_path = λ sh w. ok (codes "/bin/sh");
  start = λ timeout cmd arg env dir. pure (pos 34);
  wait = λ n. pure tt;
  cancel = λ n. pure tt;
  parse_duration = λ s. ok tt;
}

holds : HasText world (below (path_dir (codes "/k/rw")) (codes "container.pid")) (codes "12")
unfolding resolve opens
holds = record { stands = refl; can_read = refl; can_write = refl }

twelve : parse_int 31 (codes "12") ≡ some (pos 12)
unfolding parse_int digits codes
twelve = refl

other_pid : pos 12 ≢ pos 34
other_pid e = cc

shell_env_pid_left_example :
    ((shell_env_pid shells processes (codes "sh") [] (codes "/k/rw") [] world).0 ≢ ok tt)
    × ((shell_env_pid shells processes (codes "sh") [] (codes "/k/rw") [] world).1 ≡ world)
shell_env_pid_left_example =
    shell_env_pid_left shells processes (codes "sh") (codes "/bin/sh") [] (codes "/k/rw") [] world
      world (pos 34) (pos 12) (codes "12") refl refl holds twelve refl other_pid
