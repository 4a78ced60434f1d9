-- ===== src/Pid/Laws.antt =====
-- Who holds a pid file of pid/pid.go.
use lpmx.Base.{
  ℕ, zero, suc, ◌∷◌, ◌≤◌, ◌<◌, ◌≡◌, refl, ap, true, false, some, List, [], arith, inl, inr, ◌↔◌,
  Bool-cases, length, drop, append-nil, ◌^◌, if◌then◌else◌,
}
use lpmx.Base.Text.{Bytes}
use lpmx.Base.Numbers.{ℤ, pos, negsuc, parse_int, itoa, parse_int-itoa}
use lpmx.Base.Result.{Result, ok}
use lpmx.Base.World.{
  World, file, >>=-ok, read_file, resolve, opens, overwrite, write_file, read_file-write_file,
}
use lpmx.Pid.{
  eq_int, keep, take_over, Processes, pid_value, value_of, parsed, exists, active, write_pid,
  pid_create, pid_create_by_pid, pid_is_active, pid_of,
}

-- The file can be read and written, and holds a text.
pub record HasText (w : World) (p text : Bytes) : Type 0 where
  pub stands : w.node (resolve w p) ≡ some (file text)
  pub can_read : w.readable (resolve w p) ≡ true
  pub can_write : opens w p ≡ true

drop_all {ℓ} : {A : Type ℓ} (n : ℕ) (xs : List A) → length xs ≤ n → drop n xs ≡ []
drop_all zero [] h = refl
drop_all zero (x ∷ xs) h = absurd (omega arith)
drop_all (suc n) [] h = refl
drop_all (suc n) (x ∷ xs) h = drop_all n xs (omega arith)

module _ (w : World) (p text : Bytes) (h : HasText w p text) where
  read_file-HasText : read_file w p ≡ ok text
  unfolding read_file
  read_file-HasText = rw (h.stands, h.can_read) refl

  exists-HasText : exists w p ≡ true
  unfolding exists
  exists-HasText = rw (h.stands, exists) refl

  -- What stays of a text that is not longer: nothing.
  overwrite-HasText : (c : Bytes) → length text ≤ length c → overwrite w p c ≡ write_file w p c
  unfolding overwrite write_file
  overwrite-HasText c l = rw (h.stands, drop_all (length c) text l, append-nil) refl

  pid_value-HasText : (n : ℤ) → parse_int 31 text ≡ some n → pid_value p w ≡ (ok n, w)
  unfolding pid_value value_of parsed
  pid_value-HasText n e = rw (read_file-HasText, e) refl

  write_pid-HasText :
      (n : ℤ) → length text ≤ length (itoa n) → write_pid p n w ≡ (ok tt, write_file w p (itoa n))
  unfolding write_pid
  write_pid-HasText n l = rw (h.can_write, h.can_read, overwrite-HasText (itoa n) l) refl

  pid_value-write_file :
      (n : ℕ) → n < 2 ^ 31 → (pid_value p (write_file w p (itoa (pos n)))).0 ≡ ok (pos n)
  unfolding pid_value value_of parsed
  pid_value-write_file n b =
      rw (read_file-write_file w p (itoa (pos n)) h.can_read, parse_int-itoa 31 n b) refl

pub eq_int_iff : (a b : ℤ) → (eq_int a b ≡ true) ↔ (a ≡ b)
unfolding eq_int
eq_int_iff (pos a) (pos b) = ground arith
eq_int_iff (negsuc a) (negsuc b) = ground arith
eq_int_iff (pos a) (negsuc b) = ground arith
eq_int_iff (negsuc a) (pos b) = ground arith

pub active-reached : (ps : Processes) (n : ℤ) (w : World) → active ps n w ≡ ps.reached n
unfolding active pid_is_active pid_of
active-reached ps n w = ground arith

module _ (ps : Processes) (p text : Bytes) (n : ℤ) (w : World) (h : HasText w p text)
    (e : parse_int 31 text ≡ some n) where
  create_by_pid_eq : (pid : ℤ) → pid_create_by_pid ps p pid w ≡ take_over ps p pid n w
  unfolding pid_create_by_pid
  create_by_pid_eq pid =
      rw (exists-HasText w p text h)
        (>>=-ok (pid_value p) (take_over ps p pid) w n w (pid_value-HasText w p text h n e))

  create_eq : pid_create ps p w ≡ keep ps p n w
  unfolding pid_create
  create_eq =
      rw (exists-HasText w p text h)
        (>>=-ok (pid_value p) (keep ps p) w n w (pid_value-HasText w p text h n e))

  -- The file can be read and written and holds the pid n of a process that is alive: PidCreateByPid
  -- leaves the machine as it is, and succeeds for n only.
  pub pid_create_by_pid_live :
      (pid : ℤ)
      → ps.reached n ≡ true
      → ((pid_create_by_pid ps p pid w).1 ≡ w)
        × (((pid_create_by_pid ps p pid w).0 ≡ ok tt) ↔ (n ≡ pid))
  unfolding take_over
  pid_create_by_pid_live pid a =
      rw (create_by_pid_eq pid) (ground (arith, active-reached ps n w, eq_int_iff n pid))

  -- The file can be read and written and holds the pid n of a process that is dead, in a text that
  -- is not longer than the new pid, which is below 2^31: PidCreateByPid succeeds, and PidValue then
  -- reads the new pid.
  pub pid_value-pid_create_by_pid :
      (m : ℕ)
      → ps.reached n ≡ false
      → m < 2 ^ 31
      → length text ≤ length (itoa (pos m))
      → ((pid_create_by_pid ps p (pos m) w).0 ≡ ok tt)
        × ((pid_value p (pid_create_by_pid ps p (pos m) w).1).0 ≡ ok (pos m))
  unfolding take_over
  pid_value-pid_create_by_pid m a b l =
      rw
        (create_by_pid_eq (pos m), active-reached ps n w, a, write_pid-HasText w p text h (pos m) l)
        (refl, pid_value-write_file w p text h m b)

  -- The file can be read and written and holds a pid n, in a text that is not longer than the pid of
  -- the process, which is below 2^31: PidCreate returns n if that process is alive and its own pid if
  -- not, and PidValue then reads what PidCreate returned.
  pid_value-pid_create :
      (m : ℕ)
      → ps.own ≡ pos m
      → m < 2 ^ 31
      → length text ≤ length (itoa (pos m))
      → ((pid_create ps p w).0 ≡ ok (if ps.reached n then n else pos m))
        × ((pid_value p (pid_create ps p w).1).0 ≡ (pid_create ps p w).0)
  unfolding keep
  pid_value-pid_create m o b l = elim (Bool-cases (ps.reached n)) [
    | inl a ↦
        rw (create_eq, active-reached ps n w, a)
          (refl, ap (λ (r : Result ℤ × World). r.0) (pid_value-HasText w p text h n e))
    | inr a ↦
        rw (create_eq, active-reached ps n w, a, o, write_pid-HasText w p text h (pos m) l)
          (refl, pid_value-write_file w p text h m b)
  ]
