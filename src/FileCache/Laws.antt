-- ===== src/FileCache/Laws.antt =====
-- What the loops of filecache/filecache.go do to a list of items, key by key.
use lpmx.Base.{
  ℕ, suc, ◌+◌, ◌≤◌, ◌≡◌, refl, Bool, true, false, none, some, List, [], ◌∷◌, ◌++◌, arith, ◌==◌,
  if◌then◌else◌, Bool-cases, Option-cases, inl, inr,
}
use lpmx.Base.Text.{Bytes, eqb, eqb_iff, eqb_refl, split, split_pair, split-append, Lacks}
use lpmx.Base.Result.{ok}
use mathlib.Core.Option
use lpmx.FileCache.Items.{
  is_key, second, entry, find_value, set_item, set_items, last_item, but_last, fill_gap,
  delete_item,
}

-- Does the item have the key?
unfoldable pub has_key : Bytes → Bytes → Bool
has_key k item = is_key k (split b'=' item)

-- How many items have the key.
unfoldable pub occurs : Bytes → List Bytes → ℕ
occurs k [] = 0
occurs k (item ∷ items) = if has_key k item then suc (occurs k items) else occurs k items

pub has_key-entry : (k key value : Bytes) → Lacks b'=' key → has_key k (entry key value) ≡ eqb key k
unfolding has_key entry is_key
has_key-entry k key value h = rw (split-append b'=' key value h)

pub second-entry :
    (key value : Bytes)
    → Lacks b'=' key
    → Lacks b'=' value
    → second (split b'=' (entry key value)) ≡ ok value
unfolding entry second
second-entry key value hk hv = rw (split_pair b'=' key value hk hv)

is_key_unique : (a b : Bytes) (kv : List Bytes) → is_key a kv ≡ true → is_key b kv ≡ true → a ≡ b
unfolding is_key
is_key_unique a b [] p q = cc
is_key_unique a b (k ∷ kv) p q = cc ((eqb_iff k a).0 p, (eqb_iff k b).0 q)

pub has_key_unique : (a b item : Bytes) → has_key a item ≡ true → has_key b item ≡ true → a ≡ b
unfolding has_key
has_key_unique a b item = is_key_unique a b (split b'=' item)

pub find_value-cons :
    (k item : Bytes) (items : List Bytes)
    → find_value k (item ∷ items)
      ≡ (if has_key k item then second (split b'=' item) else find_value k items)
unfolding find_value has_key
find_value-cons k item items = refl

find_value-append :
    (k : Bytes) (xs ys : List Bytes)
    → find_value k (xs ++ ys) ≡ (if occurs k xs == 0 then find_value k ys else find_value k xs)
unfolding occurs
find_value-append k [] ys = refl
find_value-append k (x ∷ xs) ys = simp find_value-cons (ground (arith, find_value-append k xs ys))

pub set_items-cons :
    (key value item : Bytes) (items : List Bytes)
    → set_items key value (item ∷ items)
      ≡ (if has_key key item then entry key value ∷ items else item ∷ set_items key value items)
unfolding set_items set_item has_key
set_items-cons key value item items = ground arith

pub set_items-nil : (key value : Bytes) → set_items key value [] ≡ entry key value ∷ []
unfolding set_items set_item
set_items-nil key value = refl

pub find_value-nil : (k : Bytes) → find_value k [] ≡ ok []
unfolding find_value
find_value-nil k = refl

-- A key that no item has is answered by the empty text.
pub find_value_absent :
    (k : Bytes) (items : List Bytes) → occurs k items ≡ 0 → find_value k items ≡ ok []
unfolding occurs
find_value_absent k [] h = find_value-nil k
find_value_absent k (item ∷ items) h =
    ground (arith, find_value-cons k item items, find_value_absent k items)

-- After FSetValue the key is found with its value, and no other key has changed.
pub find_value-set_items :
    (k key value : Bytes) (items : List Bytes)
    → Lacks b'=' key
    → Lacks b'=' value
    → find_value k (set_items key value items)
      ≡ (if eqb key k then ok value else find_value k items)
find_value-set_items k key value [] hk hv = rw (
  set_items-nil,
  find_value-cons,
  has_key-entry k key value hk,
  second-entry key value hk hv,
  find_value-nil,
)
find_value-set_items k key value (item ∷ items) hk hv =
    simp (set_items-cons, find_value-cons)
      (ground (
        arith,
        find_value-cons k (entry key value) items,
        find_value-cons k item (set_items key value items),
        has_key-entry k key value hk,
        second-entry key value hk hv,
        find_value-set_items k key value items hk hv,
        eqb_iff key k,
        eqb_refl k,
        has_key_unique key k item,
      ))

occurs-append : (k : Bytes) (xs ys : List Bytes) → occurs k (xs ++ ys) ≡ occurs k xs + occurs k ys
unfolding occurs
occurs-append k [] ys = omega arith
occurs-append k (x ∷ xs) ys = ground (arith, occurs-append k xs ys)

but_last-append :
    (x : Bytes) (items : List Bytes) → but_last x items ++ last_item x items ∷ [] ≡ x ∷ items
unfolding but_last last_item
but_last-append x [] = refl
but_last-append x (y ∷ items) = rw (but_last-append y items)

-- Moving the last item to the front changes nothing for a key that occurs at most once.
pub find_value-fill_gap :
    (k : Bytes) (items : List Bytes)
    → occurs k items ≤ 1
    → find_value k (fill_gap items) ≡ find_value k items
unfolding fill_gap occurs
find_value-fill_gap k [] h = refl
find_value-fill_gap k (x ∷ items) h =
    let front = but_last x items in
    let last = last_item x items in
    rw (← but_last-append x items) (
      ground (
        arith,
        find_value-cons k last front,
        find_value-cons k last [],
        find_value-nil k,
        find_value_absent k front,
        find_value-append k front (last ∷ []),
        occurs-append k front (last ∷ []),
        but_last-append x items,
      ))

pub delete_item-cons :
    (key item : Bytes) (items : List Bytes)
    → delete_item key (item ∷ items) ≡ (
        if has_key key item
        then some (fill_gap items)
        else Option.map (λ rest. item ∷ rest) (delete_item key items))
unfolding delete_item has_key
delete_item-cons key item items = refl

pub occurs-fill_gap : (k : Bytes) (items : List Bytes) → occurs k (fill_gap items) ≡ occurs k items
unfolding fill_gap occurs
occurs-fill_gap k [] = refl
occurs-fill_gap k (x ∷ items) =
    let front = but_last x items in
    let last = last_item x items in
    ground (arith, occurs-append k front (last ∷ []), but_last-append x items)

-- The two ways in which the loop of FDeleteByKey ends at a found item.
pub data Deleted (key item : Bytes) (items items' : List Bytes) : Type 0 where
  here : has_key key item ≡ true → items' ≡ fill_gap items → Deleted key item items items'
  later :
      (rest : List Bytes)
      → has_key key item ≡ false
      → delete_item key items ≡ some rest
      → items' ≡ item ∷ rest
      → Deleted key item items items'

pub delete_item-Deleted :
    (key item : Bytes) (items items' : List Bytes)
    → delete_item key (item ∷ items) ≡ some items'
    → Deleted key item items items'
delete_item-Deleted key item items items' h = elim (Bool-cases (has_key key item)) [
  | inl e ↦ here e (ground (arith, delete_item-cons key item items))
  | inr e ↦ elim (Option-cases (delete_item key items)) [
    | inl f ↦ ground (arith, delete_item-cons key item items)
    | inr (rest, f) ↦ later rest e f (ground (arith, delete_item-cons key item items))
  ]
]

pub delete_item-nil : (key : Bytes) → delete_item key [] ≡ none
unfolding delete_item
delete_item-nil key = refl

-- FDeleteByKey takes one item of its key out, and keeps the number of each other key's items.
pub occurs-delete_item :
    (k key : Bytes) (items items' : List Bytes)
    → delete_item key items ≡ some items'
    → occurs k items ≡ (if eqb key k then suc (occurs k items') else occurs k items')
unfolding occurs
occurs-delete_item k key [] items' h = cc (delete_item-nil key)
occurs-delete_item k key (item ∷ items) items' h =
    elim (delete_item-Deleted key item items items' h) [
      | here e f ↦ rw f (
          ground
            (arith, occurs-fill_gap k items, eqb_iff key k, eqb_refl k, has_key_unique key k item))
      | later rest e f g ↦ rw g (ground (arith, occurs-delete_item k key items rest f))
    ]

-- FDeleteByKey finds no item only if none has the key.
pub delete_item_absent :
    (key : Bytes) (items : List Bytes) → delete_item key items ≡ none → occurs key items ≡ 0
unfolding occurs
delete_item_absent key [] h = refl
delete_item_absent key (item ∷ items) h =
    ground (arith, delete_item-cons key item items, delete_item_absent key items)

delete_item_other :
    (k key : Bytes) (items items' : List Bytes)
    → occurs k items ≤ 1
    → delete_item key items ≡ some items'
    → eqb key k ≡ false
    → find_value k items' ≡ find_value k items
unfolding occurs
delete_item_other k key [] items' u h n = cc (delete_item-nil key)
delete_item_other k key (item ∷ items) items' u h n =
    elim (delete_item-Deleted key item items items' h) [
      | here e f ↦ rw f (
          ground (
            arith,
            find_value-fill_gap k items,
            find_value-cons k item items,
            eqb_iff key k,
            has_key_unique key k item,
          ))
      | later rest e f g ↦ rw g (
          ground (
            arith,
            find_value-cons k item items,
            find_value-cons k item rest,
            delete_item_other k key items rest,
          ))
    ]

-- What FDeleteByKey leaves of a key that occurs at most once: nothing if it is the key that was
-- deleted, and the old value if it is another.
pub find_value-delete_item :
    (k key : Bytes) (items items' : List Bytes)
    → occurs k items ≤ 1
    → delete_item key items ≡ some items'
    → find_value k items' ≡ (if eqb key k then ok [] else find_value k items)
find_value-delete_item k key items items' u h = elim (Bool-cases (eqb key k)) [
  | inl e ↦
      rw e (find_value_absent k items' (ground (arith, occurs-delete_item k key items items' h)))
  | inr e ↦ rw e (delete_item_other k key items items' u h e)
]
