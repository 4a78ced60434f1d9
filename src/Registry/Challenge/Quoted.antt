-- ===== src/Registry/Challenge/Quoted.antt =====
-- expectTokenOrQuoted of registry/authchallenge.go: quoted values without escapes are read right,
-- and a value that begins with an escape ends the program.
use lpmx.Base.{
  ℕ, zero, suc, ◌-◌, ◌+◌, ◌≤◌, ◌<◌, ◌≡◌, refl, ◌≢◌, Bool, true, false, [], ◌∷◌, ◌++◌, arith, length,
  drop, length-append, append-nil, append_assoc, All,
}
use lpmx.Base.Text.{Bytes}
use lpmx.Base.Result.{ok, panic}
use lpmx.Registry.Challenge.{write, unescape, quoted, expect_token_or_quoted}

-- Neither a quote nor a backslash.
abbrev pub IsBare : Bytes → Type 0
IsBare = All (λ c. (c ≢ b'"') × (c ≢ 92))

quoted_bare :
    (s before v rest : Bytes)
    → IsBare v
    → quoted s before (v ++ b'"' ∷ rest) ≡ ok (before ++ v, rest)
unfolding quoted
quoted_bare s before [] rest h = rw append-nil refl
quoted_bare s before (c ∷ v) rest (p, h) =
    ground (arith, quoted_bare s (before ++ c ∷ []) v rest h, append_assoc before (c ∷ []) v)

-- A quoted value without escapes is read up to its closing quote.
pub expect_token_or_quoted_bare :
    (v rest : Bytes) → IsBare v → expect_token_or_quoted (b'"' ∷ v ++ b'"' ∷ rest) ≡ ok (v, rest)
unfolding expect_token_or_quoted
expect_token_or_quoted_bare v rest h = quoted_bare (v ++ b'"' ∷ rest) [] v rest h

-- The inner loop runs over the end of its slice if the text has at least as many bytes as room is left.
unescape_overflow :
    (size : ℕ) (p s : Bytes)
    → IsBare s
    → length p ≤ size
    → size < length p + length s
    → unescape size false p s ≡ panic
unfolding unescape write
unescape_overflow size p [] h k l = absurd (omega arith)
unescape_overflow size p (b ∷ s) (q, h) k l =
    ground (arith, unescape_overflow size (p ++ b ∷ []) s h, length-append p (b ∷ []))

overflow_from_start :
    (size : ℕ) (t : Bytes) → IsBare t → size ≡ length t → unescape size true [] (92 ∷ t) ≡ panic
unfolding unescape write
overflow_from_start size [] h e = ground arith
overflow_from_start size (c ∷ t) h e = ground (arith, unescape_overflow size (92 ∷ []) (c ∷ t) h)

-- A quoted value that begins with a backslash, with neither a quote nor another backslash behind
-- it, makes the parser panic, whatever else the value holds.
pub leading_escape_panics : (t : Bytes) → IsBare t → expect_token_or_quoted (b'"' ∷ 92 ∷ t) ≡ panic
unfolding expect_token_or_quoted quoted
leading_escape_panics t h = overflow_from_start (suc (length t) - 1) t h (omega arith)

-- With room for the rest the inner loop never leaves its slice.
unescape-ne-panic :
    (size : ℕ) (escape : Bool) (p s : Bytes)
    → length p + length s ≤ size
    → unescape size escape p s ≢ panic
unfolding unescape write
unescape-ne-panic size escape p [] h = cc
unescape-ne-panic size true p (b ∷ s) h =
    ground (arith, unescape-ne-panic size false (p ++ b ∷ []) s, length-append p (b ∷ []))
unescape-ne-panic size false p (b ∷ s) h = ground (
  arith,
  unescape-ne-panic size true p s,
  unescape-ne-panic size false (p ++ b ∷ []) s,
  length-append p (b ∷ []),
)

pub length-drop : (n : ℕ) (s : Bytes) → length (drop n s) ≡ length s - n
length-drop zero s = omega arith
length-drop (suc n) [] = omega arith
length-drop (suc n) (c ∷ s) = omega (arith, length-drop n s)

quoted-ne-panic :
    (s before rest : Bytes)
    → 0 < length before
    → length before + length rest ≡ length s
    → quoted s before rest ≢ panic
unfolding quoted
quoted-ne-panic s before [] h e = cc
quoted-ne-panic s before (c ∷ rest) h e =
    let n = length before + length before in
    ground (
      arith,
      quoted-ne-panic s (before ++ c ∷ []) rest,
      length-append before (c ∷ []),
      length-drop n s,
      unescape-ne-panic (length s - 1) true before (drop n s),
    )

-- A text that does not begin with a quote and a backslash behind it does not make
-- expectTokenOrQuoted panic.
expect_token_or_quoted-ne-panic :
    (s : Bytes) → ((t : Bytes) → s ≢ b'"' ∷ 92 ∷ t) → expect_token_or_quoted s ≢ panic
unfolding expect_token_or_quoted
expect_token_or_quoted-ne-panic [] h = cc
expect_token_or_quoted-ne-panic (c ∷ []) h = unfold quoted in ground arith
expect_token_or_quoted-ne-panic (c ∷ d ∷ s) h =
    unfold quoted in ground (arith, h s, quoted-ne-panic (d ∷ s) (d ∷ []) s)
