-- ===== src/Compose/Vendor.antt =====
-- What compose/type.go calls of packages that are not in the repository: stringUtils
-- (agrison/go-commons-lang), mapset (deckarep/golang-set), and the order in which Go visits a map.
use lpmx.Base.{ℕ, suc, ◌≡◌, Bool, true, false, not, ◌&&◌, List, [], ◌∷◌, if◌then◌else◌}
use lpmx.Base.Text.{Bytes, eqb, contains}

-- How often `k` stands in a list.
unfoldable pub count : Bytes → List Bytes → ℕ
count k [] = 0
count k (x ∷ xs) = if eqb x k then suc (count k xs) else count k xs

pub record Vendor : Type 1 where
  -- stringUtils.IsEmpty and stringUtils.Contains
  pub is_empty : Bytes → Bool
  pub is_empty_lem : (s : Bytes) → is_empty s ≡ eqb s []
  pub contains_text : Bytes → Bytes → Bool
  pub contains_text_lem : (s : Bytes) (b : ℕ) → contains_text s (b ∷ []) ≡ contains b s
  -- mapset.Set[string]
  pub NameSet : Type 0
  pub new_set : NameSet
  pub add : NameSet → Bytes → NameSet
  pub has : NameSet → Bytes → Bool
  pub difference : NameSet → NameSet → NameSet
  pub to_slice : NameSet → List Bytes
  pub has-new_set : (k : Bytes) → has new_set k ≡ false
  pub has-add : (s : NameSet) (j k : Bytes) → has (add s j) k ≡ (if eqb j k then true else has s k)
  pub has-difference :
      (s t : NameSet) (k : Bytes) → has (difference s t) k ≡ (has s k && not (has t k))
  pub count-to_slice : (s : NameSet) (k : Bytes) → count k (to_slice s) ≡ (if has s k then 1 else 0)
  -- `for key := range m`: the keys in an order that Go does not fix
  pub shuffle : List Bytes → List Bytes
  pub count-shuffle : (xs : List Bytes) (k : Bytes) → count k (shuffle xs) ≡ count k xs
