-- ===== src/Container/Generate/Links.antt =====
-- The folders and the links of a new container: parts of generateContainer of
-- container/container.go, with ReverseStrArray and FindStringArray of utils/utils.go.
use lpmx.Base.{Bool, true, false, Option, none, some, List, [], ◌∷◌, ◌++◌, map, if◌then◌else◌}
use mathlib.Core.List.{reverse}
use lpmx.Base.Text.{Bytes, codes, eqb, split, join}
use lpmx.Base.Strings.{to_upper, trim_suffix}
use lpmx.Base.Paths.{below, path_base, path_dir}
use lpmx.Base.Result.{ok, panic}
use lpmx.Base.World.{Go, pure, ◌>>=◌, ◌>>◌, os_symlink}
use lpmx.Utils.Files.{file_exist, folder_exist}
use lpmx.Utils.Folders.{explain, make_dir, ensure_folder}
use lpmx.Container.Expose.{contains_str}

-- ReverseStrArray
unfoldable pub reverse_str_array : List Bytes → List Bytes
reverse_str_array input = reverse input

-- FindStringArray: whether the text is there, in any case.
unfoldable pub find_string_array : Bytes → List Bytes → Bool
unfolding to_upper
find_string_array s [] = false
find_string_array s (item ∷ arr) =
    if eqb (map to_upper item) (map to_upper s) then true else find_string_array s arr

-- ENGINE_TYPE
unfoldable pub engine_type : List Bytes
engine_type = codes "SGE" ∷ []

-- `if !FolderExist(dir) { MakeDir(dir) }`
unfoldable pub make_missing : Bytes → Go (Unit {0})
unfolding folder_exist make_dir
make_missing dir w = (if folder_exist w dir then pure tt else make_dir dir) w

-- The links to the layers: the names of the layers.
unfoldable pub link_layers : Bytes → Bytes → List Bytes → Go (List Bytes)
unfolding path_base explain os_symlink
link_layers base rootfolder [] = pure []
link_layers base rootfolder (layer ∷ layers) = do
  explain
      (codes "can't create symlink from path: "
        ++ below base (path_base layer)
        ++ codes " to "
        ++ below rootfolder (path_base layer))
      (os_symlink (below base (path_base layer)) (below rootfolder (path_base layer)))
  keys ← link_layers base rootfolder layers
  pure (path_base layer ∷ keys)

unfoldable pub link : Bytes → Bytes → Go (Unit {0})
unfolding explain os_symlink
link old new =
    explain (codes "could not symlink, oldpath: " ++ old ++ codes ", newpath: " ++ new)
      (os_symlink old new)

-- The path of the container that the second part of an item names.
abbrev pub in_rw : Bytes → Bytes → Bytes
in_rw rootfolder p = rootfolder ++ codes "/rw" ++ p

-- One item of mountfile, split by the equals sign.
unfoldable pub mount_parts : Bytes → List Bytes → Go (Unit {0})
unfolding file_exist ensure_folder path_dir link
mount_parts rootfolder [] w = (panic, w)
mount_parts rootfolder (old ∷ []) w = if file_exist w old then (panic, w) else (ok tt, w)
mount_parts rootfolder (old ∷ new ∷ parts) w =
    (if file_exist w old
        then (do ensure_folder (path_dir (in_rw rootfolder new)); link old (in_rw rootfolder new))
        else pure tt)
      w

unfoldable pub mount_items : Bytes → List Bytes → Go (Unit {0})
unfolding mount_parts split
mount_items rootfolder [] = pure tt
mount_items rootfolder ([] ∷ items) = mount_items rootfolder items
mount_items rootfolder ((c ∷ item) ∷ items) = do
  mount_parts rootfolder (split b'=' (c ∷ item))
  mount_items rootfolder items

-- configmap["mountfile"]
unfoldable pub mounted : Bytes → Bytes → Go (Option Bytes)
unfolding mount_items split
mounted rootfolder [] = pure none
mounted rootfolder (c ∷ mountfile) = do
  mount_items rootfolder (split b':' (c ∷ mountfile))
  pure (some (c ∷ mountfile))

-- One volume, split by the equals sign: the host's folder, if it is linked.
unfoldable pub volume_parts : Bytes → List Bytes → Go (List Bytes)
unfolding folder_exist link
volume_parts rootfolder [] w = (panic, w)
volume_parts rootfolder (old ∷ []) w = if folder_exist w old then (panic, w) else (ok [], w)
volume_parts rootfolder (old ∷ new ∷ parts) w =
    (if folder_exist w old
        then (if folder_exist w (in_rw rootfolder new)
            then pure []
            else (do link old (in_rw rootfolder new); pure (old ∷ [])))
        else pure [])
      w

unfoldable pub volume_items : Bytes → List Bytes → Go (List Bytes)
unfolding volume_parts split
volume_items rootfolder [] = pure []
volume_items rootfolder ([] ∷ volumes) = volume_items rootfolder volumes
volume_items rootfolder ((c ∷ volume) ∷ volumes) = do
  first ← volume_parts rootfolder (split b'=' (c ∷ volume))
  rest ← volume_items rootfolder volumes
  pure (first ++ rest)

-- volume_map with the default folder.
unfoldable pub with_default : Bytes → Bytes → Bytes
unfolding contains_str
with_default default_sync_folder volume_map =
    if contains_str volume_map default_sync_folder
    then volume_map
    else default_sync_folder ++ codes "=/lpmx:" ++ volume_map

-- configmap["sync_folder"]
unfoldable pub sync_text : List Bytes → Bytes
unfolding join trim_suffix
sync_text [] = []
sync_text (p ∷ []) = trim_suffix b':' p
sync_text (p ∷ q ∷ ps) = join b':' (p ∷ q ∷ ps)
