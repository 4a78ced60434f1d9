-- ===== src/FileCache/Items.antt =====
-- The three loops of filecache/filecache.go over the items of the file.
use lpmx.Base.{Bool, false, Option, none, some, List, [], ◌∷◌, ◌++◌, if◌then◌else◌}
use lpmx.Base.Text.{Bytes, eqb, split}
use lpmx.Base.Result.{Result, ok, panic}
use mathlib.Core.Option

-- `len(kv) > 0 && kv[0] == key`
unfoldable pub is_key : Bytes → List Bytes → Bool
is_key key [] = false
is_key key (k ∷ kv) = eqb k key

-- `kv[1]`, an index out of range if the item has no `=`
unfoldable pub second : List Bytes → Result Bytes
second [] = panic
second (k ∷ []) = panic
second (k ∷ v ∷ kv) = ok v

-- fmt.Sprintf("%s=%s", key, value)
unfoldable pub entry : Bytes → Bytes → Bytes
entry key value = key ++ b'=' ∷ value

-- The loop of FGetStrValue; the empty text is the answer for a key that is not there.
unfoldable pub find_value : Bytes → List Bytes → Result Bytes
unfolding is_key second
find_value key [] = ok []
find_value key (item ∷ items) =
    let kv = split b'=' item in if is_key key kv then second kv else find_value key items

-- The loop of FSetValue: the first item of the key is overwritten. `none`: no item has the key.
unfoldable pub set_item : Bytes → Bytes → List Bytes → Option (List Bytes)
unfolding is_key entry
set_item key value [] = none
set_item key value (item ∷ items) =
    if is_key key (split b'=' item)
    then some (entry key value ∷ items)
    else Option.map (λ rest. item ∷ rest) (set_item key value items)

-- The items that FSetValue writes: the overwritten ones, or the old ones and a new one at the end.
unfoldable pub set_items : Bytes → Bytes → List Bytes → List Bytes
unfolding set_item
set_items key value items = elim (set_item key value items) [
  | some items' ↦ items'
  | none ↦ items ++ entry key value ∷ []
]

unfoldable pub last_item : Bytes → List Bytes → Bytes
last_item x [] = x
last_item x (y ∷ items) = last_item y items

unfoldable pub but_last : Bytes → List Bytes → List Bytes
but_last x [] = []
but_last x (y ∷ items) = x ∷ but_last y items

-- texts[len(texts)-1], texts[idx] = texts[idx], texts[len(texts)-1]; texts = texts[:len(texts)-1],
-- on the items behind `idx`: the last one takes the place of the item at `idx`.
unfoldable pub fill_gap : List Bytes → List Bytes
unfolding last_item but_last
fill_gap [] = []
fill_gap (x ∷ items) = last_item x items ∷ but_last x items

-- The loop of FDeleteByKey.
unfoldable pub delete_item : Bytes → List Bytes → Option (List Bytes)
unfolding is_key fill_gap
delete_item key [] = none
delete_item key (item ∷ items) =
    if is_key key (split b'=' item)
    then some (fill_gap items)
    else Option.map (λ rest. item ∷ rest) (delete_item key items)
