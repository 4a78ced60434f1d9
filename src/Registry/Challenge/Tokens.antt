-- ===== src/Registry/Challenge/Tokens.antt =====
-- expectToken and skipSpace of registry/authchallenge.go.
use lpmx.Base.{
  ℕ, ◌≤◌, ◌≡◌, refl, Bool, true, false, [], ◌∷◌, ◌++◌, arith, length, All, Bool-cases, inl, inr,
}
use lpmx.Base.Text.{Bytes}
use lpmx.Registry.Challenge.{is_token, is_space, expect_token, skip_space}

-- The text does not begin with a byte that `test` accepts.
abbrev pub Stops : (ℕ → Bool) → Bytes → Type 0
Stops test [] = Unit
Stops test (c ∷ s) = test c ≡ false

-- expectToken cuts its argument in two, behind the longest prefix of token bytes.
pub expect_token_lem :
    (s : Bytes)
    → ((expect_token s).0 ++ (expect_token s).1 ≡ s)
      × All (λ c. is_token c ≡ true) (expect_token s).0
      × Stops is_token (expect_token s).1
unfolding expect_token
expect_token_lem [] = (refl, tt, tt)
expect_token_lem (c ∷ s) = elim (Bool-cases (is_token c)) [
  | inl e ↦ let (a, b, d) = expect_token_lem s in rw e (rw a refl, (e, b), d)
  | inr e ↦ rw e (refl, tt, e)
]

-- A run of token bytes that no token byte follows is taken whole.
pub expect_token-append :
    (t rest : Bytes)
    → All (λ c. is_token c ≡ true) t
    → Stops is_token rest
    → expect_token (t ++ rest) ≡ (t, rest)
unfolding expect_token
expect_token-append [] [] h k = refl
expect_token-append [] (c ∷ rest) h k = rw k
expect_token-append (c ∷ t) rest (p, h) k = rw (p, expect_token-append t rest h k)

pub length-expect_token : (s : Bytes) → length (expect_token s).1 ≤ length s
unfolding expect_token
length-expect_token [] = omega arith
length-expect_token (c ∷ s) = ground (arith, length-expect_token s)

pub length-skip_space : (s : Bytes) → length (skip_space s) ≤ length s
unfolding skip_space
length-skip_space [] = omega arith
length-skip_space (c ∷ s) = ground (arith, length-skip_space s)

pub skip_space-Stops : (s : Bytes) → Stops is_space s → skip_space s ≡ s
unfolding skip_space
skip_space-Stops [] h = refl
skip_space-Stops (c ∷ s) h = rw h
