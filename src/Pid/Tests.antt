-- ===== src/Pid/Tests.antt =====
-- A pid file that says 42.
use lpmx.Base.{◌≤◌, ◌<◌, ◌≡◌, ◌↔◌, refl, true, false, some, length, arith, ◌^◌}
use lpmx.Base.Text.{codes}
use lpmx.Base.Numbers.{pos, InRange, parse_int, itoa, print, digits}
use lpmx.Base.Result.{ok}
use lpmx.Base.World.{World, file, resolve, opens, read_file}
use lpmx.Pid.{
  Processes, exists, keep, active, value_of, parsed, pid_value, pid_create, pid_create_by_pid,
}
use lpmx.Pid.Laws.{HasText, pid_create_by_pid_live, pid_value-pid_create_by_pid}
use lpmx.Pid.Range.{IsHolder, pid_create-InRange}

abbrev world : World
world = record {
  node = λ p. some (file (codes "42"));
  readable = λ p. true;
  writable = λ p. true;
  removable = λ p. true;
  room = λ p. 1000;
}

abbrev nobody : Processes
nobody = record { own = pos 77; reached = λ n. false }

abbrev all_alive : Processes
all_alive = record { own = pos 77; reached = λ n. true }

world-HasText : HasText world (codes "p") (codes "42")
unfolding resolve opens
world-HasText = record { stands = refl; can_read = refl; can_write = refl }

reads_42 : parse_int 31 (codes "42") ≡ some (pos 42)
unfolding parse_int digits codes
reads_42 = ground arith

fits : length (codes "42") ≤ length (itoa (pos 77))
unfolding itoa print codes
fits = ground arith

small : 77 < 2 ^ 31
small = omega arith

pid_create_by_pid_live_example :
    ((pid_create_by_pid all_alive (codes "p") (pos 7) world).1 ≡ world)
    × (((pid_create_by_pid all_alive (codes "p") (pos 7) world).0 ≡ ok tt) ↔ (pos 42 ≡ pos 7))
pid_create_by_pid_live_example =
    pid_create_by_pid_live all_alive (codes "p") (codes "42") (pos 42) world world-HasText reads_42
      (pos 7) refl

pid_value-pid_create_by_pid_example :
    ((pid_create_by_pid nobody (codes "p") (pos 77) world).0 ≡ ok tt)
    × ((pid_value (codes "p") (pid_create_by_pid nobody (codes "p") (pos 77) world).1).0
        ≡ ok (pos 77))
pid_value-pid_create_by_pid_example =
    pid_value-pid_create_by_pid nobody (codes "p") (codes "42") (pos 42) world world-HasText
      reads_42 77 refl small fits

pid_create-InRange_example : InRange 31 (pos 42) × IsHolder all_alive (codes "p") (pos 42)
unfolding pid_create exists pid_value value_of parsed parse_int digits read_file resolve keep active
    codes
pid_create-InRange_example =
    pid_create-InRange all_alive (codes "p") world world (pos 42) small refl
