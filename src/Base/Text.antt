-- ===== src/Base/Text.antt =====
-- Go's strings as lists of bytes, with the operations of package `strings` that the program calls.
-- Every separator that the program splits by or joins with is one byte.
use Prim.Native.Nat.{ℕ}
use Prim.Native.Char.{code}
use Prim.Native.String.{String}
use mathlib.Core.Path.{◌≡◌, refl}
use mathlib.Core.Logic.{◌≢◌, ◌↔◌, inl, inr}
use mathlib.Core.Bool.{Bool, true, false, ◌&&◌, ◌||◌}
use mathlib.Core.List.{List, [], ◌∷◌, ◌++◌}
use native.Mathlib.Omega.{arith}
use lpmx.Base.Tests.{◌==◌, if◌then◌else◌, Bool-cases}
use lpmx.Base.Lists.{All}

abbrev pub Bytes : Type 0
Bytes = List ℕ

-- The bytes of an ASCII literal.
unfoldable pub codes : String → Bytes
codes String.[] = []
codes (String.◌∷◌ c s) = code c ∷ codes s

-- s == t
unfoldable pub eqb : Bytes → Bytes → Bool
eqb [] [] = true
eqb [] (c ∷ t) = false
eqb (b ∷ s) [] = false
eqb (b ∷ s) (c ∷ t) = b == c && eqb s t

pub eqb_sound : (s t : Bytes) → eqb s t ≡ true → s ≡ t
unfolding eqb
eqb_sound [] [] h = refl
eqb_sound [] (c ∷ t) h = ground arith
eqb_sound (b ∷ s) [] h = ground arith
eqb_sound (b ∷ s) (c ∷ t) h = ground (arith, eqb_sound s t)

pub eqb_refl : (s : Bytes) → eqb s s ≡ true
unfolding eqb
eqb_refl [] = refl
eqb_refl (b ∷ s) = ground (arith, eqb_refl s)

pub eqb_iff : (s t : Bytes) → (eqb s t ≡ true) ↔ (s ≡ t)
eqb_iff s t = (eqb_sound s t, λ e. rw e (eqb_refl t))

-- No byte of the text is `b`.
abbrev pub Lacks : ℕ → Bytes → Type 0
Lacks b = All (λ c. c ≢ b)

-- strings.Contains(s, string(b))
unfoldable pub contains : ℕ → Bytes → Bool
contains b [] = false
contains b (c ∷ s) = c == b || contains b s

-- strings.HasPrefix(s, p)
unfoldable pub has_prefix : Bytes → Bytes → Bool
has_prefix s [] = true
has_prefix [] (c ∷ p) = false
has_prefix (b ∷ s) (c ∷ p) = b == c && has_prefix s p

unfoldable pub cons_head : ℕ → List Bytes → List Bytes
cons_head c [] = (c ∷ []) ∷ []
cons_head c (p ∷ ps) = (c ∷ p) ∷ ps

-- strings.Split(s, string(sep)): never empty, `[""]` on the empty text.
unfoldable pub split : ℕ → Bytes → List Bytes
unfolding cons_head
split sep [] = [] ∷ []
split sep (c ∷ s) = let rest = split sep s in if c == sep then [] ∷ rest else cons_head c rest

-- strings.Join(ps, string(sep))
unfoldable pub join : ℕ → List Bytes → Bytes
join sep [] = []
join sep (p ∷ []) = p
join sep (p ∷ q ∷ ps) = p ++ sep ∷ join sep (q ∷ ps)

module _ (sep : ℕ) where
  cons_head-ne-nil : (c : ℕ) (ps : List Bytes) → cons_head c ps ≢ []
  unfolding cons_head
  cons_head-ne-nil c [] = cc
  cons_head-ne-nil c (p ∷ ps) = cc

  pub split-ne-nil : (s : Bytes) → split sep s ≢ []
  unfolding split
  split-ne-nil [] = cc
  split-ne-nil (c ∷ s) = ground (arith, cons_head-ne-nil c (split sep s))

  cons_head-Lacks :
      (c : ℕ) (ps : List Bytes) → c ≢ sep → All (Lacks sep) ps → All (Lacks sep) (cons_head c ps)
  unfolding cons_head
  cons_head-Lacks c [] h k = ((h, tt), tt)
  cons_head-Lacks c (p ∷ ps) h k = ((h, k.0), k.1)

  -- No piece of a split holds the separator.
  pub split-Lacks : (s : Bytes) → All (Lacks sep) (split sep s)
  unfolding split
  split-Lacks [] = (tt, tt)
  split-Lacks (c ∷ s) = elim (Bool-cases (c == sep)) [
    | inl e ↦ rw e (tt, split-Lacks s)
    | inr e ↦ rw e (cons_head-Lacks c (split sep s) (ground arith) (split-Lacks s))
  ]

  -- The unread rest of the text goes on the last piece.
  pub split-append :
      (p : Bytes) (s : Bytes) → Lacks sep p → split sep (p ++ sep ∷ s) ≡ p ∷ split sep s
  unfolding split cons_head
  split-append [] s h = ground arith
  split-append (c ∷ p) s h = ground (arith, split-append p s h.1)

  pub split_one : (p : Bytes) → Lacks sep p → split sep p ≡ p ∷ []
  unfolding split cons_head
  split_one [] h = refl
  split_one (c ∷ p) h = ground (arith, split_one p h.1)

  -- Splitting a join gives the pieces back.
  pub split-join : (ps : List Bytes) → ps ≢ [] → All (Lacks sep) ps → split sep (join sep ps) ≡ ps
  unfolding join
  split-join [] h k = absurd (h refl)
  split-join (p ∷ []) h k = split_one p k.0
  split-join (p ∷ q ∷ ps) h k =
      rw (split-append p (join sep (q ∷ ps)) k.0, split-join (q ∷ ps) (cc) k.1)

  -- `k=v` splits into the two parts.
  pub split_pair : (k v : Bytes) → Lacks sep k → Lacks sep v → split sep (k ++ sep ∷ v) ≡ k ∷ v ∷ []
  split_pair k v hk hv = rw (split-append k v hk, split_one v hv)
