-- ===== src/FileCache/Store.antt =====
-- FInitServer, FGetStrValue, FSetValue and FDeleteByKey of filecache/filecache.go.
use lpmx.Base.{true, false, Option, none, some, List, [], ◌∷◌, ◌++◌}
use lpmx.Base.Text.{Bytes, codes, split, join}
use lpmx.Base.Result.{Kind, ok, err, err_new}
use lpmx.Base.World.{Go, pure, write_file, opens, ◌>>=◌, ◌>>◌}
use lpmx.Utils.Files.{file_exist, read_from_file, write_to_file}
use lpmx.FileCache.Items.{entry, find_value, set_items, delete_item}

pub record FileCacheInst : Type 0 where
  pub file_path : Bytes

-- FInitServer
unfoldable pub f_init_server : Bytes → Go FileCacheInst
f_init_server p = pure (record { file_path = p })

-- The branch of the three methods that finds no file: os.Create, which leaves it empty.
unfoldable pub create : Bytes → Go (Unit {0})
unfolding opens write_file
create p w = elim (opens w p) [
  | true ↦ (ok tt, write_file w p [])
  | false ↦
      (err (err_new (Kind.foreign (codes "create")) (codes "could not create file: " ++ p)), w)
]

-- WriteToFile([]byte(strings.Join(texts, ":")), fc.FilePath)
unfoldable pub write_items : Bytes → List Bytes → Go (Unit {0})
unfolding write_to_file
write_items p items = write_to_file (join b':' items) p

-- FGetStrValue
unfoldable pub f_get_str_value : FileCacheInst → Bytes → Go Bytes
unfolding create read_from_file
f_get_str_value fc key w = elim (file_exist w fc.file_path) [
  | true ↦ (do text ← read_from_file fc.file_path; λ w'. (find_value key (split b':' text), w')) w
  | false ↦ (do create fc.file_path; pure []) w
]

-- FSetValue
unfoldable pub f_set_value : FileCacheInst → Bytes → Bytes → Go (Unit {0})
unfolding create read_from_file write_items
f_set_value fc key value w = elim (file_exist w fc.file_path) [
  | true ↦
      (do
        text ← read_from_file fc.file_path
        write_items fc.file_path (set_items key value (split b':' text)))
        w
  | false ↦ (do create fc.file_path; write_items fc.file_path (entry key value ∷ [])) w
]

write_found : Bytes → Option (List Bytes) → Go (Unit {0})
unfolding write_items
write_found p none = pure tt
write_found p (some items) = write_items p items

-- FDeleteByKey
unfoldable pub f_delete_by_key : FileCacheInst → Bytes → Go (Unit {0})
unfolding create read_from_file write_found
f_delete_by_key fc key w = elim (file_exist w fc.file_path) [
  | true ↦
      (do
        text ← read_from_file fc.file_path
        write_found fc.file_path (delete_item key (split b':' text)))
        w
  | false ↦ create fc.file_path w
]
