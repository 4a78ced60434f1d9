-- ===== src/Base/Numbers.antt =====
-- Go's integers as strconv prints and reads them, in base 10.
use Prim.Native.Nat.{ℕ, zero, suc, ◌+◌, ◌-◌, ◌*◌, ◌/◌, ◌%◌, ◌^◌, ◌<◌}
use mathlib.Core.Path.{◌≡◌, refl}
use mathlib.Core.Logic.{inl, inr}
use mathlib.Core.Bool.{Bool, true, ◌&&◌}
use mathlib.Core.Option.{Option, none, some}
use mathlib.Core.List.{[], ◌∷◌, ◌++◌}
use native.Mathlib.Omega.{arith}
use lpmx.Base.Tests.{ltb, leb, ◌==◌, if◌then◌else◌, Bool-cases}
use lpmx.Base.Text.{Bytes}

pub data ℤ : Type 0 where
  pos negsuc : ℕ → ℤ

is_digit : ℕ → Bool
is_digit c = leb b'0' c && leb c b'9'

-- The value of a text of digits, behind the digits that are read.
unfoldable pub digits : ℕ → Bytes → Option ℕ
unfolding is_digit
digits acc [] = some acc
digits acc (c ∷ s) = if is_digit c then digits (acc * 10 + (c - b'0')) s else none

below : ℕ → (ℕ → ℤ) → Option ℕ → Option ℤ
below limit f none = none
below limit f (some n) = if ltb n limit then some (f n) else none

minus : ℕ → ℤ
minus zero = pos 0
minus (suc n) = negsuc n

number : Bytes → Option ℕ
number [] = none
number (c ∷ s) = digits 0 (c ∷ s)

-- strconv.ParseInt(s, 10, bits), at bits = suc k
unfoldable pub parse_int : ℕ → Bytes → Option ℤ
unfolding below minus number
parse_int k [] = none
parse_int k (c ∷ s) =
    if c == b'-'
    then below (suc (2 ^ k)) minus (number s)
    else if c == b'+'
    then below (2 ^ k) pos (number s)
    else below (2 ^ k) pos (number (c ∷ s))

-- The decimal digits of n, with fuel
unfoldable pub print : ℕ → ℕ → Bytes
print zero n = []
print (suc fuel) n =
    let rest = print fuel (n / 10) in
    if ltb n 10 then (b'0' + n) ∷ [] else rest ++ (b'0' + n % 10) ∷ []

-- strconv.Itoa
unfoldable pub itoa : ℤ → Bytes
unfolding print
itoa (pos n) = print (suc n) n
itoa (negsuc n) = b'-' ∷ print (suc (suc n)) (suc n)

digits-append : (acc n : ℕ) (s t : Bytes) → digits acc s ≡ some n → digits acc (s ++ t) ≡ digits n t
unfolding digits
digits-append acc n [] t h = ground arith
digits-append acc n (c ∷ s) t h = ground (arith, digits-append (acc * 10 + (c - b'0')) n s t)

digits-print : (fuel n : ℕ) → n < fuel → digits 0 (print fuel n) ≡ some n
unfolding digits print is_digit
digits-print zero n h = absurd (omega arith)
digits-print (suc fuel) n h = ground (
  arith,
  digits-print fuel (n / 10),
  digits-append 0 (n / 10) (print fuel (n / 10)) ((b'0' + n % 10) ∷ []),
)

print_head :
    (fuel n : ℕ) → n < fuel → (c : ℕ) × (s : Bytes) × (print fuel n ≡ c ∷ s) × (is_digit c ≡ true)
unfolding print is_digit
print_head zero n h = absurd (omega arith)
print_head (suc fuel) n h = elim (Bool-cases (ltb n 10)) [
  | inl e ↦ (b'0' + n, [], rw e refl, ground arith)
  | inr e ↦
      let (c, s, f, d) = print_head fuel (n / 10) (ground arith) in
      (c, s ++ (b'0' + n % 10) ∷ [], rw (e, f) refl, d)
]

-- A number that fits reads back as printed.
pub parse_int-itoa : (k n : ℕ) → n < 2 ^ k → parse_int k (itoa (pos n)) ≡ some (pos n)
unfolding parse_int itoa is_digit
parse_int-itoa k n h =
    let (c, s, f, d) = print_head (suc n) n (omega arith) in
    let g = digits-print (suc n) n (omega arith) in rw f (ground (arith, (rw f at g)))

-- The integers of suc k bits.
abbrev pub InRange : ℕ → ℤ → Type 0
InRange k (pos n) = n < 2 ^ k
InRange k (negsuc n) = n < 2 ^ k

below-pos-InRange : (k : ℕ) (o : Option ℕ) (n : ℤ) → below (2 ^ k) pos o ≡ some n → InRange k n
unfolding below
below-pos-InRange k none n e = absurd (cc)
below-pos-InRange k (some m) (pos n) e = ground (arith, e)
below-pos-InRange k (some m) (negsuc n) e = absurd (ground (arith, e))

below-minus-InRange :
    (k : ℕ) (o : Option ℕ) (n : ℤ) → 0 < 2 ^ k → below (suc (2 ^ k)) minus o ≡ some n → InRange k n
unfolding below minus
below-minus-InRange k none n l e = absurd (cc)
below-minus-InRange k (some zero) (pos n) l e = ground (arith, e, l)
below-minus-InRange k (some zero) (negsuc n) l e = absurd (ground (arith, e))
below-minus-InRange k (some (suc m)) (pos n) l e = absurd (ground (arith, e))
below-minus-InRange k (some (suc m)) (negsuc n) l e = ground (arith, e)

-- What is read fits.
pub parse_int-InRange :
    (k : ℕ) (s : Bytes) (n : ℤ) → 0 < 2 ^ k → parse_int k s ≡ some n → InRange k n
unfolding parse_int
parse_int-InRange k [] n l e = absurd (cc)
parse_int-InRange k (c ∷ s) n l e = elim (Bool-cases (c == b'-')) [
  | inl m ↦ below-minus-InRange k (number s) n l (rw m at e)
  | inr m ↦ elim (Bool-cases (c == b'+')) [
    | inl p ↦ below-pos-InRange k (number s) n (rw (m, p) at e)
    | inr p ↦ below-pos-InRange k (number (c ∷ s)) n (rw (m, p) at e)
  ]
]
