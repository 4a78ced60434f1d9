-- ===== src/FileCache/Remove.antt =====
-- FDeleteByKey of filecache/filecache.go, and the distinct keys that it and FSetValue rely on.
use lpmx.Base.{
  ◌≤◌, ◌≡◌, refl, ◌≢◌, false, Option, none, some, List, [], ◌∷◌, arith, inl, inr, if◌then◌else◌,
  ◌==◌, Option-cases, All,
}
use lpmx.Base.Text.{Bytes, eqb, eqb_iff, eqb_refl, split, join, split-join, split-Lacks, Lacks}
use lpmx.Base.Result.{ok}
use lpmx.Base.World.{
  World, put, write_file, resolve-write_file, read_file-write_file, opens-write_file,
}
use lpmx.Utils.Files.{write_to_file, file_exist-read_file}
use lpmx.FileCache.Items.{is_key, find_value, set_items, last_item, but_last, fill_gap, delete_item}
use lpmx.FileCache.Laws.{
  has_key, occurs, here, later, delete_item-Deleted, delete_item-nil, find_value-nil,
  find_value-cons, find_value-delete_item, occurs-delete_item, delete_item_absent,
  find_value_absent, set_items-nil, set_items-cons, has_key-entry, has_key_unique,
}
use lpmx.FileCache.Access.{Holds, IsPlain, get_of_text, set_of_text, set_items-Lacks, entry-Lacks}
use lpmx.FileCache.Store.{FileCacheInst, write_items, f_get_str_value, f_set_value, f_delete_by_key}

-- What FDeleteByKey leaves behind.
written : World → Bytes → Option (List Bytes) → World
written w p none = w
written w p (some items) = write_file w p (join b':' items)

delete_of_text :
    (fc : FileCacheInst) (key text : Bytes) (w : World)
    → Holds w fc.file_path text
    → f_delete_by_key fc key w ≡ (ok tt, written w fc.file_path (delete_item key (split b':' text)))
unfolding f_delete_by_key written write_items write_to_file
delete_of_text fc key text w h = ground (arith, file_exist-read_file w fc.file_path h.reads)

last_item-Lacks :
    (x : Bytes) (items : List Bytes)
    → Lacks b':' x
    → All (Lacks b':') items
    → Lacks b':' (last_item x items) × All (Lacks b':') (but_last x items)
unfolding last_item but_last
last_item-Lacks x [] h k = (h, tt)
last_item-Lacks x (y ∷ items) h (p, k) = let (a, b) = last_item-Lacks y items p k in (a, (h, b))

fill_gap-Lacks : (items : List Bytes) → All (Lacks b':') items → All (Lacks b':') (fill_gap items)
unfolding fill_gap
fill_gap-Lacks [] h = tt
fill_gap-Lacks (x ∷ items) (h, k) = last_item-Lacks x items h k

delete_item-Lacks :
    (key : Bytes) (items items' : List Bytes)
    → All (Lacks b':') items
    → delete_item key items ≡ some items'
    → All (Lacks b':') items'
delete_item-Lacks key [] items' h e = cc (delete_item-nil key)
delete_item-Lacks key (item ∷ items) items' (p, h) e =
    elim (delete_item-Deleted key item items items' e) [
      | here f g ↦ rw g (fill_gap-Lacks items h)
      | later rest f g k ↦ rw k (p, delete_item-Lacks key items rest h g)
    ]

has_key-nil : (k : Bytes) → k ≢ [] → has_key k [] ≡ false
unfolding has_key split is_key
has_key-nil k n = ground (arith, eqb_iff [] k)

-- Only the empty key can tell an empty list of items from the empty file.
find_value-split :
    (k : Bytes) (items : List Bytes)
    → k ≢ []
    → All (Lacks b':') items
    → find_value k (split b':' (join b':' items)) ≡ find_value k items
find_value-split k [] n h =
    unfold join split in rw (find_value-cons, find_value-nil, has_key-nil k n)
find_value-split k (item ∷ items) n h = rw (split-join b':' (item ∷ items) (cc) h)

after_delete :
    (fc : FileCacheInst) (key k text : Bytes) (w : World)
    → Holds w fc.file_path text
    → k ≢ []
    → occurs k (split b':' text) ≤ 1
    → (f_get_str_value fc k (written w fc.file_path (delete_item key (split b':' text)))).0
      ≡ (if eqb key k then ok [] else find_value k (split b':' text))
unfolding written
after_delete fc key k text w h n u =
    let items = split b':' text in
    elim (Option-cases (delete_item key items)) [
      | inl e ↦
          rw (e, written)
            (rw (get_of_text fc k text w h.reads) (
              ground
                (arith, eqb_iff key k, delete_item_absent key items, find_value_absent k items, e)))
      | inr (items', e) ↦
          rw (e, written)
            (rw
              (
                get_of_text fc k (join b':' items') _
                    (read_file-write_file w fc.file_path (join b':' items') h.can_read),
                find_value-split k items' n
                    (delete_item-Lacks key items items' (split-Lacks b':' text) e),
              )
              (find_value-delete_item k key items items' u e))
    ]

-- FDeleteByKey succeeds on a file that can be worked with. If `k` is not the empty key and at most
-- one item of the file has it, FGetStrValue then returns the empty text for the deleted key, and
-- for another key what it returned before.
pub get-delete :
    (fc : FileCacheInst) (key k text : Bytes) (w : World)
    → Holds w fc.file_path text
    → k ≢ []
    → occurs k (split b':' text) ≤ 1
    → ((f_delete_by_key fc key w).0 ≡ ok tt)
      × ((f_get_str_value fc k (f_delete_by_key fc key w).1).0
          ≡ (if eqb key k then ok [] else (f_get_str_value fc k w).0))
get-delete fc key k text w h n u =
    rw (delete_of_text fc key text w h, get_of_text fc k text w h.reads)
      (refl, after_delete fc key k text w h n u)

-- No key is held by two items of the file.
abbrev IsDistinct : List Bytes → Type 0
IsDistinct items = (k : Bytes) → occurs k items ≤ 1

occurs-set_items :
    (k key value : Bytes) (items : List Bytes)
    → Lacks b'=' key
    → occurs k (set_items key value items)
      ≡ (if eqb key k then (if occurs k items == 0 then 1 else occurs k items) else occurs k items)
unfolding occurs
occurs-set_items k key value [] h = rw (set_items-nil, occurs, has_key-entry k key value h)
occurs-set_items k key value (item ∷ items) h = rw (set_items-cons) (
    ground (
      arith,
      has_key-entry k key value h,
      occurs-set_items k key value items h,
      eqb_iff key k,
      eqb_refl k,
      has_key_unique key k item,
    ))

split-IsDistinct :
    (items : List Bytes)
    → All (Lacks b':') items
    → IsDistinct items
    → IsDistinct (split b':' (join b':' items))
split-IsDistinct [] h d k = unfold split join occurs in ground arith
split-IsDistinct (item ∷ items) h d k = rw (split-join b':' (item ∷ items) (cc) h) (d k)

Holds-write_file :
    (w : World) (p text text' : Bytes) → Holds w p text → Holds (write_file w p text') p text'
Holds-write_file w p text text' h = record {
  reads = read_file-write_file w p text' h.can_read;
  can_read = rw resolve-write_file (unfold write_file put in h.can_read);
  can_write = opens-write_file w p text' h.can_write;
}

-- The file can still be worked with, and its keys are distinct.
record IsCache (w : World) (p : Bytes) : Type 0 where
  pub text : Bytes
  pub holds : Holds w p text
  pub distinct : IsDistinct (split b':' text)

-- FSetValue with a plain key and a plain value keeps the keys of the file distinct.
set-IsCache :
    (fc : FileCacheInst) (key value : Bytes) (w : World)
    → IsCache w fc.file_path
    → IsPlain key
    → IsPlain value
    → IsCache (f_set_value fc key value w).1 fc.file_path
set-IsCache fc key value w c pk pv =
    let items = split b':' c.text in
    let items' = set_items key value items in
    let lacks =
      set_items-Lacks key value items (entry-Lacks key value pk.no_colon pv.no_colon)
        (split-Lacks b':' c.text) in
    rw (set_of_text fc key value c.text w c.holds) (record {
      text = join b':' items';
      holds = Holds-write_file w fc.file_path c.text _ c.holds;
      distinct =
          split-IsDistinct items' lacks
            (λ k. ground (arith, occurs-set_items k key value items pk.no_equals, c.distinct k));
    })

-- FDeleteByKey keeps the keys of the file distinct.
delete-IsCache :
    (fc : FileCacheInst) (key : Bytes) (w : World)
    → IsCache w fc.file_path
    → IsCache (f_delete_by_key fc key w).1 fc.file_path
unfolding written
delete-IsCache fc key w c =
    rw (delete_of_text fc key c.text w c.holds) (by_case (delete_item key items) refl)
  where
    items : List Bytes
    items = split b':' c.text

    by_case :
        (o : Option (List Bytes))
        → delete_item key items ≡ o
        → IsCache (written w fc.file_path o) fc.file_path
    by_case none e = c
    by_case (some items') e = record {
      text = join b':' items';
      holds = Holds-write_file w fc.file_path c.text _ c.holds;
      distinct =
          split-IsDistinct items' (delete_item-Lacks key items items' (split-Lacks b':' c.text) e)
            (λ k. ground (arith, occurs-delete_item k key items items' e, c.distinct k));
    }
