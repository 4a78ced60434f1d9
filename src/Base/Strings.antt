-- ===== src/Base/Strings.antt =====
-- strings.ToLower and strings.TrimSpace on ASCII texts, which the tokens, versions and operation names are.
use Prim.Native.Nat.{ℕ, ◌+◌, ◌-◌}
use mathlib.Core.Path.{◌≡◌, refl}
use mathlib.Core.Bool.{Bool, false, ◌&&◌}
use mathlib.Core.List.{[], ◌∷◌, ◌++◌, reverse}
use native.Mathlib.Omega.{arith}
use lpmx.Base.Tests.{leb, ◌==◌, if◌then◌else◌}
use lpmx.Base.Text.{Bytes, contains, eqb, has_prefix}
use lpmx.Base.Lists.{length, drop}

-- A byte of strings.ToLower
unfoldable pub to_lower : ℕ → ℕ
to_lower c = if leb b'A' c && leb c b'Z' then c + 32 else c

-- A byte of strings.ToUpper
unfoldable pub to_upper : ℕ → ℕ
to_upper c = if leb b'a' c && leb c b'z' then c - 32 else c

-- strings.TrimSpace
unfoldable pub trim_left : Bytes → Bytes
trim_left [] = []
trim_left (c ∷ s) = if contains c (32 ∷ 9 ∷ 10 ∷ 11 ∷ 12 ∷ 13 ∷ []) then trim_left s else c ∷ s

unfoldable pub trim_space : Bytes → Bytes
unfolding trim_left
trim_space s = reverse (trim_left (reverse (trim_left s)))

-- strings.TrimSuffix(s, string(c))
unfoldable pub trim_suffix : ℕ → Bytes → Bytes
trim_suffix c [] = []
trim_suffix c (d ∷ []) = if d == c then [] else d ∷ []
trim_suffix c (d ∷ e ∷ s) = d ∷ trim_suffix c (e ∷ s)

-- strings.HasSuffix(s, string(c))
unfoldable pub has_suffix : Bytes → ℕ → Bool
has_suffix [] c = false
has_suffix (d ∷ []) c = d == c
has_suffix (d ∷ e ∷ s) c = has_suffix (e ∷ s) c

-- Only the suffix that is there goes.
pub trim_suffix-append : (c : ℕ) (s : Bytes) → trim_suffix c (s ++ c ∷ []) ≡ s
unfolding trim_suffix
trim_suffix-append c [] = ground arith
trim_suffix-append c (d ∷ []) = ground arith
trim_suffix-append c (d ∷ e ∷ s) = rw (trim_suffix-append c (e ∷ s)) refl

-- strings.TrimSuffix(s, suffix)
unfoldable pub without_suffix : Bytes → Bytes → Bytes
without_suffix suffix [] = []
without_suffix suffix (c ∷ s) =
    let rest = without_suffix suffix s in if eqb (c ∷ s) suffix then [] else c ∷ rest

-- strings.TrimPrefix(s, prefix)
unfoldable pub without_prefix : Bytes → Bytes → Bytes
without_prefix prefix s = if has_prefix s prefix then drop (length prefix) s else s
