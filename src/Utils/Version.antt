-- ===== src/Utils/Version.antt =====
-- CompareVersion of utils/utils.go.
use lpmx.Base.{
  ℕ, zero, suc, ◌≡◌, ◌≢◌, refl, Bool, true, false, Option, none, some, List, [], ◌∷◌, map, ltb,
  if◌then◌else◌, arith, inl, inr, Bool-cases,
}
use lpmx.Base.Text.{Bytes, codes, eqb, eqb_iff, split}
use lpmx.Base.Strings.{to_lower}
use lpmx.Base.Numbers.{ℤ, pos, negsuc, parse_int}
use lpmx.Base.Result.{Kind, Result, ok, err, panic, err_new, ◌>>=◌}

-- a < b
unfoldable pub lt : ℤ → ℤ → Bool
lt (pos a) (pos b) = ltb a b
lt (pos a) (negsuc b) = false
lt (negsuc a) (pos b) = true
lt (negsuc a) (negsuc b) = ltb b a

unfoldable pub converted : Option ℤ → Result ℤ
unfolding err_new
converted (some n) = ok n
converted none =
    err (err_new (Kind.foreign (codes "strconv")) (codes "could not convert string to int"))

-- strconv.Atoi on a machine with 64 bits
unfoldable pub atoi : Bytes → Result ℤ
unfolding converted parse_int
atoi s = converted (parse_int 63 s)

-- What the two tests of a round return; `otherwise` is the next round.
unfoldable pub decide : ℤ → ℤ → Result ℤ → Result ℤ
unfolding lt
decide i1 i2 otherwise =
    if lt i1 i2 then ok (negsuc 0) else if lt i2 i1 then ok (pos 1) else otherwise

-- The loop over the parts that both versions have, and the comparison of the lengths behind it.
unfoldable pub compare_parts : List Bytes → List Bytes → Result ℤ
unfolding atoi decide
compare_parts [] [] = ok (pos 0)
compare_parts [] (y ∷ ys) = ok (negsuc 0)
compare_parts (x ∷ xs) [] = ok (pos 1)
compare_parts (x ∷ xs) (y ∷ ys) = do i1 ← atoi x; i2 ← atoi y; decide i1 i2 (compare_parts xs ys)

-- CompareVersion, with a delimiter of one byte
unfoldable pub compare_version : Bytes → Bytes → ℕ → Result ℤ
unfolding compare_parts
compare_version str1 str2 delimeter =
    let a = map to_lower str1 in
    let b = map to_lower str2 in
    if eqb a b then ok (pos 0) else compare_parts (split delimeter a) (split delimeter b)

abbrev pub opposite : ℤ → ℤ
opposite (pos zero) = pos 0
opposite (pos (suc n)) = negsuc n
opposite (negsuc n) = pos (suc n)

decide_swap :
    (i j : ℤ) (m n : Result ℤ) (r : ℤ)
    → (m ≡ ok r → n ≡ ok (opposite r))
    → decide i j m ≡ ok r
    → decide j i n ≡ ok (opposite r)
unfolding decide lt
decide_swap (pos a) (pos b) m n r h e = ground arith
decide_swap (pos a) (negsuc b) m n r h e = ground arith
decide_swap (negsuc a) (pos b) m n r h e = ground arith
decide_swap (negsuc a) (negsuc b) m n r h e = ground arith

bind_swap :
    (a b : Result ℤ) (m n : Result ℤ) (r : ℤ)
    → (m ≡ ok r → n ≡ ok (opposite r))
    → (a >>= λ i. b >>= λ j. decide i j m) ≡ ok r
    → (b >>= λ j. a >>= λ i. decide j i n) ≡ ok (opposite r)
bind_swap (ok i) (ok j) m n r h e = decide_swap i j m n r h e
bind_swap (ok i) (err x) m n r h e = cc
bind_swap (ok i) panic m n r h e = cc
bind_swap (err x) b m n r h e = cc
bind_swap panic b m n r h e = cc

compare_parts_swap :
    (xs ys : List Bytes) (r : ℤ)
    → compare_parts xs ys ≡ ok r
    → compare_parts ys xs ≡ ok (opposite r)
unfolding compare_parts
compare_parts_swap [] [] r e = ground arith
compare_parts_swap [] (y ∷ ys) r e = ground arith
compare_parts_swap (x ∷ xs) [] r e = ground arith
compare_parts_swap (x ∷ xs) (y ∷ ys) r e =
    bind_swap (atoi x) (atoi y) (compare_parts xs ys) (compare_parts ys xs) r
      (compare_parts_swap xs ys r) e

-- If CompareVersion returns a number for two versions, it returns the opposite number for the
-- versions in the other order.
compare_version_swap :
    (s t : Bytes) (d : ℕ) (r : ℤ)
    → compare_version s t d ≡ ok r
    → compare_version t s d ≡ ok (opposite r)
unfolding compare_version
compare_version_swap s t d r e = ground (
  arith,
  eqb_iff (map to_lower s) (map to_lower t),
  eqb_iff (map to_lower t) (map to_lower s),
  compare_parts_swap (split d (map to_lower s)) (split d (map to_lower t)) r,
)

abbrev pub below : ℤ
below = negsuc 0

decide_trans :
    (i j k : ℤ) (m n o : Result ℤ)
    → (m ≡ ok below → n ≡ ok below → o ≡ ok below)
    → decide i j m ≡ ok below
    → decide j k n ≡ ok below
    → decide i k o ≡ ok below
unfolding decide lt
decide_trans (pos a) (pos b) (pos c) m n o h e f = ground arith
decide_trans (pos a) (pos b) (negsuc c) m n o h e f = ground arith
decide_trans (pos a) (negsuc b) k m n o h e f = ground arith
decide_trans (negsuc a) (pos b) (pos c) m n o h e f = ground arith
decide_trans (negsuc a) (pos b) (negsuc c) m n o h e f = ground arith
decide_trans (negsuc a) (negsuc b) (pos c) m n o h e f = ground arith
decide_trans (negsuc a) (negsuc b) (negsuc c) m n o h e f = ground arith

bind_trans :
    (a b c : Result ℤ) (m n o : Result ℤ)
    → (m ≡ ok below → n ≡ ok below → o ≡ ok below)
    → (a >>= λ i. b >>= λ j. decide i j m) ≡ ok below
    → (b >>= λ j. c >>= λ k. decide j k n) ≡ ok below
    → (a >>= λ i. c >>= λ k. decide i k o) ≡ ok below
bind_trans (ok i) (ok j) (ok k) m n o h e f = decide_trans i j k m n o h e f
bind_trans (ok i) (ok j) (err x) m n o h e f = cc
bind_trans (ok i) (ok j) panic m n o h e f = cc
bind_trans (ok i) (err x) c m n o h e f = cc
bind_trans (ok i) panic c m n o h e f = cc
bind_trans (err x) b c m n o h e f = cc
bind_trans panic b c m n o h e f = cc

compare_parts_trans :
    (xs ys zs : List Bytes)
    → compare_parts xs ys ≡ ok below
    → compare_parts ys zs ≡ ok below
    → compare_parts xs zs ≡ ok below
unfolding compare_parts
compare_parts_trans [] [] [] e f = e
compare_parts_trans [] (y ∷ ys) [] e f = ground arith
compare_parts_trans [] ys (z ∷ zs) e f = refl
compare_parts_trans (x ∷ xs) [] zs e f = ground arith
compare_parts_trans (x ∷ xs) (y ∷ ys) [] e f = ground arith
compare_parts_trans (x ∷ xs) (y ∷ ys) (z ∷ zs) e f =
    bind_trans (atoi x) (atoi y) (atoi z) (compare_parts xs ys) (compare_parts ys zs)
      (compare_parts xs zs) (compare_parts_trans xs ys zs) e f

compare_version-below :
    (s t : Bytes) (d : ℕ)
    → compare_version s t d ≡ ok below
    → compare_parts (split d (map to_lower s)) (split d (map to_lower t)) ≡ ok below
unfolding compare_version
compare_version-below s t d e = ground (arith, eqb_iff (map to_lower s) (map to_lower t))

compare_parts_irreflexive : (xs : List Bytes) → compare_parts xs xs ≢ ok below
compare_parts_irreflexive xs e = ground (arith, compare_parts_swap xs xs below e)

-- If CompareVersion puts a first version below a second and the second below a third, it puts the
-- first below the third; it does not fail then, whatever stands behind the parts that decide.
compare_version_trans :
    (s t u : Bytes) (d : ℕ)
    → compare_version s t d ≡ ok below
    → compare_version t u d ≡ ok below
    → compare_version s u d ≡ ok below
unfolding compare_version
compare_version_trans s t u d e f =
    let c =
      compare_parts_trans (split d (map to_lower s)) (split d (map to_lower t))
        (split d (map to_lower u)) (compare_version-below s t d e)
        (compare_version-below t u d f) in
    elim (Bool-cases (eqb (map to_lower s) (map to_lower u))) [
      | inl g ↦ absurd (
          compare_parts_irreflexive (split d (map to_lower u))
            (rw ((eqb_iff (map to_lower s) (map to_lower u)).0 g) at c))
      | inr g ↦ rw g c
    ]
