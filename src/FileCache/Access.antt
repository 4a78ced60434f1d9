-- ===== src/FileCache/Access.antt =====
-- The methods of filecache/filecache.go seen through FGetStrValue, on the file itself.
use lpmx.Base.{
  ◌≡◌, ◌≢◌, true, none, List, [], ◌∷◌, arith, ◌⊎◌, inl, inr, if◌then◌else◌, Bool-cases, All,
  All-append,
}
use lpmx.Base.Text.{Bytes, eqb, split, join, split-join, split-Lacks, split_one, Lacks}
use lpmx.Base.Result.{ok}
use lpmx.Base.World.{
  World, resolve, resolve-write_file, read_file, write_file, opens, put, read_file-write_file,
  opens-write_file,
}
use lpmx.Utils.Files.{file_exist, read_from_file, write_to_file, file_exist-read_file}
use lpmx.FileCache.Items.{entry, find_value, set_item, set_items}
use lpmx.FileCache.Laws.{
  has_key, set_items-nil, set_items-cons, find_value-nil, find_value-cons, has_key-entry,
  second-entry, find_value-set_items,
}
use lpmx.FileCache.Store.{FileCacheInst, create, write_items, f_get_str_value, f_set_value}

-- The file can be read and written, and holds `text`.
pub record Holds (w : World) (p text : Bytes) : Type 0 where
  pub reads : read_file w p ≡ ok text
  pub can_read : w.readable (resolve w p) ≡ true
  pub can_write : opens w p ≡ true

-- There is nothing at the path yet, and a file can be made there.
pub record IsFree (w : World) (p : Bytes) : Type 0 where
  pub missing : w.node p ≡ none
  pub can_read : w.readable (resolve w p) ≡ true
  pub can_write : opens w p ≡ true

pub get_of_text :
    (fc : FileCacheInst) (k text : Bytes) (w : World)
    → read_file w fc.file_path ≡ ok text
    → f_get_str_value fc k w ≡ (find_value k (split b':' text), w)
unfolding f_get_str_value read_from_file
get_of_text fc k text w h = ground (arith, file_exist-read_file w fc.file_path h)

pub set_of_text :
    (fc : FileCacheInst) (key value text : Bytes) (w : World)
    → Holds w fc.file_path text
    → f_set_value fc key value w
      ≡ (ok tt, write_file w fc.file_path (join b':' (set_items key value (split b':' text))))
unfolding f_set_value read_from_file write_items write_to_file
set_of_text fc key value text w h = ground (arith, file_exist-read_file w fc.file_path h.reads)

-- The pieces that FSetValue writes are the pieces that are read back.
pub set_items-Lacks :
    (key value : Bytes) (items : List Bytes)
    → Lacks b':' (entry key value)
    → All (Lacks b':') items
    → All (Lacks b':') (set_items key value items)
set_items-Lacks key value [] h k = rw set_items-nil (h, tt)
set_items-Lacks key value (item ∷ items) h (p, k) = elim (Bool-cases (has_key key item)) [
  | inl e ↦ rw (set_items-cons, e) (h, k)
  | inr e ↦ rw (set_items-cons, e) (p, set_items-Lacks key value items h k)
]

pub set_items-ne-nil : (key value : Bytes) (items : List Bytes) → set_items key value items ≢ []
unfolding set_items set_item
set_items-ne-nil key value [] = cc
set_items-ne-nil key value (item ∷ items) = ground arith

pub entry-Lacks :
    (key value : Bytes) → Lacks b':' key → Lacks b':' value → Lacks b':' (entry key value)
unfolding entry
entry-Lacks key value hk hv = All-append (λ c. c ≢ b':') key (b'=' ∷ value) hk ((omega arith), hv)

-- A key or a value that does not clash with the syntax of the file.
pub record IsPlain (s : Bytes) : Type 0 where
  pub no_colon : Lacks b':' s
  pub no_equals : Lacks b'=' s

get_of_free :
    (fc : FileCacheInst) (k : Bytes) (w : World)
    → IsFree w fc.file_path
    → (f_get_str_value fc k w).0 ≡ ok []
unfolding f_get_str_value create file_exist
get_of_free fc k w h = ground arith

pub set_of_free :
    (fc : FileCacheInst) (key value : Bytes) (w : World)
    → IsFree w fc.file_path
    → f_set_value fc key value w
      ≡ (ok tt, write_file (write_file w fc.file_path []) fc.file_path (entry key value))
unfolding f_set_value create write_items write_to_file file_exist join
set_of_free fc key value w h = ground (arith, opens-write_file w fc.file_path [])

can_read_again :
    (w : World) (p : Bytes)
    → IsFree w p
    → (write_file w p []).readable (resolve (write_file w p []) p) ≡ true
can_read_again w p h = rw resolve-write_file (unfold write_file put in h.can_read)

module _ (fc : FileCacheInst) (key value k : Bytes) (w : World) where
  get_after_set :
      (text : Bytes)
      → Holds w fc.file_path text
      → IsPlain key
      → IsPlain value
      → (f_get_str_value fc k (f_set_value fc key value w).1).0
        ≡ (if eqb key k then ok value else (f_get_str_value fc k w).0)
  get_after_set text h pk pv =
      let items = split b':' text in
      let items' = set_items key value items in
      rw (set_of_text fc key value text w h, get_of_text fc k text w h.reads)
        (rw
          (get_of_text fc k (join b':' items') _
            (read_file-write_file w fc.file_path (join b':' items') h.can_read))
          (rw
            (split-join b':' items' (set_items-ne-nil key value items) (
              set_items-Lacks key value items (entry-Lacks key value pk.no_colon pv.no_colon)
                (split-Lacks b':' text)))
            (find_value-set_items k key value items pk.no_equals pv.no_equals)))

  get_after_first_set :
      IsFree w fc.file_path
      → IsPlain key
      → IsPlain value
      → (f_get_str_value fc k (f_set_value fc key value w).1).0
        ≡ (if eqb key k then ok value else (f_get_str_value fc k w).0)
  get_after_first_set h pk pv =
      let w' = write_file w fc.file_path [] in
      let e = entry key value in
      rw (set_of_free fc key value w h, get_of_free fc k w h)
        (rw
          (get_of_text fc k e _
            (read_file-write_file w' fc.file_path e (can_read_again w fc.file_path h)))
          (rw (
            split_one b':' e (entry-Lacks key value pk.no_colon pv.no_colon),
            find_value-cons,
            find_value-nil,
            has_key-entry k key value pk.no_equals,
            second-entry key value pk.no_equals pv.no_equals,
          )))

-- The file can be worked with: it holds a text, or it is not there yet.
abbrev pub IsReady : World → Bytes → Type 0
IsReady w p = ((text : Bytes) × Holds w p text) ⊎ IsFree w p

-- FSetValue of a key and a value without a colon or an equals sign succeeds on a file that can be
-- worked with, and FGetStrValue then returns the new value for the key and, for any other key, what
-- it returned before, panics included.
pub get-set :
    (fc : FileCacheInst) (key value k : Bytes) (w : World)
    → IsReady w fc.file_path
    → IsPlain key
    → IsPlain value
    → ((f_set_value fc key value w).0 ≡ ok tt)
      × ((f_get_str_value fc k (f_set_value fc key value w).1).0
          ≡ (if eqb key k then ok value else (f_get_str_value fc k w).0))
get-set fc key value k w (inl (text, h)) pk pv =
    (rw (set_of_text fc key value text w h), get_after_set fc key value k w text h pk pv)
get-set fc key value k w (inr h) pk pv =
    (rw (set_of_free fc key value w h), get_after_first_set fc key value k w h pk pv)
