-- ===== src/Pid.antt =====
-- pid/pid.go: a file that says which process works on a container.
use lpmx.Base.{
  ◌≡◌, refl, Bool, true, false, Option, none, some, List, [], ◌++◌, ◌&&◌, ◌==◌, if◌then◌else◌,
}
use lpmx.Base.Text.{Bytes, codes}
use lpmx.Base.Numbers.{ℤ, pos, negsuc, parse_int, itoa}
use lpmx.Base.Result.{Kind, Error, Result, ok, err, panic, err_new}
use lpmx.Base.World.{Node, World, Go, pure, fail, ◌>>=◌, ◌>>◌, read_file, resolve, opens, overwrite}
pub mod Laws
pub mod Range
mod Tests

-- The processes, as the operating system shows them: os.Getpid, and whether signal 0 reaches a
-- process (os.FindProcess does not fail on Unix).
pub record Processes : Type 0 where
  pub own : ℤ
  pub reached : ℤ → Bool

-- a == b
unfoldable pub eq_int : ℤ → ℤ → Bool
eq_int (pos a) (pos b) = a == b
eq_int (negsuc a) (negsuc b) = a == b
eq_int (pos a) (negsuc b) = false
eq_int (negsuc a) (pos b) = false

unfoldable pub parsed : Bytes → Option ℤ → Result ℤ
unfolding err_new
parsed s none =
    err (err_new (Kind.foreign (codes "strconv")) (codes "could not strconv value: " ++ s))
parsed s (some n) = ok n

unfoldable pub value_of : Bytes → Result Bytes → Result ℤ
unfolding parsed parse_int err_new
value_of pidfile (ok s) = parsed s (parse_int 31 s)
value_of pidfile (err e) = err (err_new e.kind (codes "could not open file " ++ pidfile))
value_of pidfile panic = panic

-- PidValue
unfoldable pub pid_value : Bytes → Go ℤ
unfolding value_of read_file
pid_value pidfile w = (value_of pidfile (read_file w pidfile), w)

not_reached : Error
unfolding err_new
not_reached = err_new (Kind.foreign (codes "signal")) (codes "send signal to pidfile with error")

-- The interface{} that PidIsActive takes.
pub data PidArg : Type 0 where
  by_file : Bytes → PidArg
  by_pid : ℤ → PidArg
  mistyped : PidArg

unfoldable pub pid_of : PidArg → Go ℤ
unfolding pid_value err_new
pid_of (by_file pidfile) = pid_value pidfile
pid_of (by_pid n) = pure n
pid_of mistyped = fail (err_new Kind.mismatch (codes "pidfile type should be either string or int"))

-- os.Stat, which follows a link: !os.IsNotExist(err)
unfoldable pub exists : World → Bytes → Bool
exists w p = elim (w.node (resolve w p)) [ none ↦ false | some n ↦ true ]

-- os.OpenFile(pidfile, os.O_RDWR|os.O_CREATE, 0600), and pf.Write
unfoldable pub write_pid : Bytes → ℤ → Go (Unit {0})
unfolding opens overwrite itoa err_new
write_pid pidfile n w =
    if opens w pidfile && w.readable (resolve w pidfile)
    then (ok tt, overwrite w pidfile (itoa n))
    else (
      err (err_new (Kind.foreign (codes "open")) (codes "could not create pidfile: " ++ pidfile)),
      w,
    )

module _ (ps : Processes) where
  -- PidIsActive
  unfoldable pub pid_is_active : PidArg → Go Bool
  unfolding pid_of not_reached
  pid_is_active x = pid_of x >>= λ n. if ps.reached n then pure true else fail not_reached

  -- `aok, _ := PidIsActive(pid)`, on an int
  unfoldable pub active : ℤ → World → Bool
  unfolding pid_is_active
  active n w = elim ((pid_is_active (by_pid n) w).0) [ ok b ↦ b | err e ↦ false | panic ↦ false ]

  -- PidCreate, behind the reading of the file that exists
  unfoldable pub keep : Bytes → ℤ → Go ℤ
  unfolding active write_pid
  keep pidfile n w = if active n w then (ok n, w) else (do write_pid pidfile ps.own; pure ps.own) w

  -- PidCreate
  unfoldable pub pid_create : Bytes → Go ℤ
  unfolding exists pid_value keep write_pid
  pid_create pidfile w =
      if exists w pidfile
      then (pid_value pidfile >>= keep pidfile) w
      else (do write_pid pidfile ps.own; pure ps.own) w

  occupied : Bytes → ℤ → Error
  unfolding err_new itoa
  occupied pidfile n =
      err_new Kind.pid_live (pidfile ++ codes " pid file is still occupied by pid: " ++ itoa n)

  -- PidCreateByPid, behind the reading of the file that exists
  unfoldable pub take_over : Bytes → ℤ → ℤ → Go (Unit {0})
  unfolding active write_pid eq_int occupied
  take_over pidfile pid n w =
      if active n w
      then (if eq_int n pid then (ok tt, w) else (err (occupied pidfile n), w))
      else write_pid pidfile pid w

  -- PidCreateByPid
  unfoldable pub pid_create_by_pid : Bytes → ℤ → Go (Unit {0})
  unfolding exists pid_value take_over write_pid
  pid_create_by_pid pidfile pid w =
      if exists w pidfile
      then (pid_value pidfile >>= take_over pidfile pid) w
      else write_pid pidfile pid w
