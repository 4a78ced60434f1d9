-- ===== src/Pid/Range.antt =====
-- The pids that PidCreate of pid/pid.go returns, whatever the file holds.
use lpmx.Base.{◌≡◌, ◌⊎◌, refl, sym, ap, ◌∙◌, true, Option, none, some, inl, inr, Bool-cases, arith}
use mathlib.Core.Path.{subst}
use lpmx.Base.Text.{Bytes}
use lpmx.Base.Numbers.{ℤ, parse_int, InRange, parse_int-InRange}
use lpmx.Base.Result.{Result, ok, err, panic}
use lpmx.Base.World.{World, Go, pure, ◌>>◌, >>=-eq-ok, read_file}
use lpmx.Pid.{Processes, exists, pid_value, value_of, parsed, active, write_pid, keep, pid_create}
use lpmx.Pid.Laws.{active-reached}

parsed-InRange : (s : Bytes) (n : ℤ) → parsed s (parse_int 31 s) ≡ ok n → InRange 31 n
unfolding parsed
parsed-InRange s n e = by_case (parse_int 31 s) refl e
  where
    by_case : (o : Option ℤ) → parse_int 31 s ≡ o → parsed s o ≡ ok n → InRange 31 n
    by_case none f g = absurd (cc)
    by_case (some m) f g = parse_int-InRange 31 s n (omega arith) (f ∙ cc)

value_of-InRange : (p : Bytes) (r : Result Bytes) (n : ℤ) → value_of p r ≡ ok n → InRange 31 n
unfolding value_of
value_of-InRange p (ok s) n e = parsed-InRange s n e
value_of-InRange p (err x) n e = absurd (cc)
value_of-InRange p panic n e = absurd (cc)

module _ (ps : Processes) (p : Bytes) where
  -- The pid of the process itself, or of a process that lives.
  abbrev pub IsHolder : ℤ → Type 0
  IsHolder n = (n ≡ ps.own) ⊎ (ps.reached n ≡ true)

  written_own :
      (w w' : World) (n : ℤ) → (do write_pid p ps.own; pure ps.own) w ≡ (ok n, w') → n ≡ ps.own
  written_own w w' n h =
      let next : Unit {0} → Go ℤ = λ u. pure ps.own in
      let (u, v, e, g) = >>=-eq-ok (write_pid p ps.own) next w h in
      let same : ps.own ≡ n = cc in sym same

  returned : (m n : ℤ) (w w' : World) → ◌≡◌ {A = Result ℤ × World} (ok m, w) (ok n, w') → m ≡ n
  returned m n w w' e = cc

  kept_or_own :
      (m n : ℤ) (w w' : World)
      → keep ps p m w ≡ (ok n, w')
      → (n ≡ ps.own) ⊎ ((m ≡ n) × (ps.reached n ≡ true))
  unfolding keep
  kept_or_own m n w w' h = elim (Bool-cases (active ps m w)) [
    | inl r ↦
        let same = returned m n w w' (rw r at h) in
        inr (same, subst (λ k. ps.reached k ≡ true) same (sym (active-reached ps m w) ∙ r))
    | inr r ↦ inl (written_own w w' n (rw r at h))
  ]

  -- PidCreate, for a process whose pid has 32 bits, on any file or none: a pid that it returns has
  -- 32 bits, and is the one of the process itself or of a process that lives.
  pub pid_create-InRange :
      (w w' : World) (n : ℤ)
      → InRange 31 ps.own
      → pid_create ps p w ≡ (ok n, w')
      → InRange 31 n × IsHolder n
  unfolding pid_create pid_value
  pid_create-InRange w w' n b h = elim (Bool-cases (exists w p)) [
    | inl x ↦
        let (m, v, e, g) = >>=-eq-ok (pid_value p) (keep ps p) w (rw x at h) in
        let fits : InRange 31 m =
          value_of-InRange p (read_file w p) m (ap (λ (r : Result ℤ × World). r.0) e) in
        elim (kept_or_own m n v w' g) [
          | inl o ↦ (subst (InRange 31) (sym o) b, inl o)
          | inr k ↦ (subst (InRange 31) k.0 fits, inr k.1)
        ]
    | inr x ↦ let o = written_own w w' n (rw x at h) in (subst (InRange 31) (sym o) b, inl o)
  ]
