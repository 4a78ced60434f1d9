-- ===== src/Container/Patch.antt =====
-- patchBineries and walkfs of container/container.go: the binaries that the settings name are
-- changed.
use lpmx.Base.{Bool, true, false, ◌&&◌, Option, none, some, List, [], ◌∷◌, if◌then◌else◌}
use lpmx.Base.Text.{Bytes, codes, eqb}
use lpmx.Base.Dict.{lookup}
use lpmx.Base.Result.{Error, Result, ok, err, panic}
use lpmx.Base.World.{World, Go, pure, fail, crash, ◌>>=◌, ◌>>◌, is_within}
use lpmx.Utils.Files.{NodeType, type_regular, file_type, file_exist, folder_exist}
use lpmx.Utils.Folders.{explain}
use lpmx.Utils.Guess.{guess_path, add_con_path}
use lpmx.Paeudo.{Exec}
use lpmx.Container.Sys.{Scalar, text, other}
use lpmx.Container.Conf.{
  Field, one, many, Item, absent, keyed, named, plain, Setting, single, items, text_of, guess_each,
}
use lpmx.Container.Append.{Container}
use lpmx.Container.Refresh.{refresh_elf}

-- What filepath.Walk tells its callback.
pub record Visit : Type 0 where
  pub path : Bytes
  pub is_dir : Bool
  pub name : Bytes
  pub failure : Option Error

-- filepath.Walk's visits below a directory, and FilePermission(path, PERM_EXE).
pub record Walker : Type 0 where
  pub visits : World → Bytes → List Visit
  pub executable : Bytes → Go Bool

unfoldable pub kept : Bool → Bytes → List Bytes → List Bytes
kept true p files = p ∷ files
kept false p files = files

-- The visits behind a directory that is skipped.
unfoldable pub is_skipped : Option Bytes → Visit → Bool
unfolding is_within
is_skipped none v = false
is_skipped (some p) v = is_within p v.path

-- The callback of walkfs, on what the type of the file is.
unfoldable pub walk_type : Walker → Bytes → Result NodeType → Go Bool
walk_type k p (ok type_regular) = k.executable p
walk_type k p (ok _) = pure false
walk_type k p (err e) = fail e
walk_type k p panic = crash

-- The callback of walkfs on the visits, where those below `skip` are skipped: the files it lists.
unfoldable pub walk_from : Walker → Option Bytes → List Visit → Go (List Bytes)
unfolding is_skipped walk_type file_type kept
walk_from k skip [] = pure []
walk_from k skip (v ∷ vs) =
    let pruned = walk_from k (some v.path) vs in
    let rest = walk_from k skip vs in
    if is_skipped skip v then rest else elim v.failure [
      | some e ↦ fail e
      | none ↦ if v.is_dir && eqb v.name (codes ".lpmx") then pruned else (do
        exe ← λ w. walk_type k v.path (file_type w v.path) w
        files ← rest
        pure (kept exe v.path files))
    ]

-- walkSpecificDir and walkfs
unfoldable pub walk_fs : Walker → Bytes → Go (List Bytes)
unfolding explain walk_from
walk_fs k dir =
    explain (codes "walkfs encountered error") (λ w. walk_from k none (k.visits w dir) w)

-- ELFOP[0], ELFOP[1], ELFOP[2] and ELFOP[3]
unfoldable pub add_allow_priv : Bytes
add_allow_priv = codes "add_allow_priv"

unfoldable pub remove_allow_priv : Bytes
remove_allow_priv = codes "remove_allow_priv"

unfoldable pub add_deny_priv : Bytes
add_deny_priv = codes "add_deny_priv"

unfoldable pub remove_deny_priv : Bytes
remove_deny_priv = codes "remove_deny_priv"

module _ (run : Exec) (k : Walker) (con : Container) where
  unfoldable pub patch_at : Bytes → List Bytes → Result Bytes → Go (Unit {0})
  unfolding refresh_elf
  patch_at op libs (ok prog) = refresh_elf run con.elf_patcher_path op libs prog
  patch_at op libs (err e) = pure tt
  patch_at op libs panic = crash

  unfoldable pub patch_key : Bytes → List Bytes → Scalar → Go (Unit {0})
  unfolding patch_at guess_path
  patch_key op libs (text s) w = patch_at op libs (guess_path w con.root_path s true) w
  patch_key op libs (other s) w = (ok tt, w)

  -- The body for ELFOP[0] and ELFOP[1], on an item of a map.
  unfoldable pub patch_program : Bytes → Scalar → Field → Go (Unit {0})
  unfolding guess_each guess_path patch_key
  patch_program op key (many vs) = do
    libs ← guess_each (λ w s. guess_path w con.root_path s true) vs
    patch_key op libs key
  patch_program op key (one v) = pure tt

  unfoldable pub folder_libs : Field → Go (List Bytes)
  unfolding guess_each guess_path
  folder_libs (many vs) = guess_each (λ w s. guess_path w con.root_path s false) vs
  folder_libs (one v) = pure []

  -- v.(string)
  unfoldable pub single_text : Field → Go Bytes
  unfolding text_of
  single_text (one v) = text_of v
  single_text (many vs) = crash

  unfoldable pub patch_each : Bytes → Field → List Bytes → Go (Unit {0})
  unfolding single_text refresh_elf file_exist
  patch_each op v [] = pure tt
  patch_each op v (binery ∷ bineries) = do
    λ w.
        (if file_exist w binery
            then (do s ← single_text v; refresh_elf run con.elf_patcher_path op (s ∷ []) binery)
            else pure tt)
          w
    patch_each op v bineries

  -- The body for ELFOP[2] and ELFOP[3], on an item of a map.
  unfoldable pub patch_folder : Bytes → Scalar → Field → Go (Unit {0})
  unfolding folder_libs text_of add_con_path file_exist folder_exist refresh_elf walk_fs patch_each
  patch_folder op key v = do
    libs ← folder_libs v
    s ← text_of key
    λ w.
        (if file_exist w (add_con_path con.root_path s)
            then refresh_elf run con.elf_patcher_path op libs (add_con_path con.root_path s)
            else pure tt)
          w
    λ w.
        (if folder_exist w (add_con_path con.root_path s)
            then (do bineries ← walk_fs k (add_con_path con.root_path s); patch_each op v bineries)
            else pure tt)
          w

  unfoldable pub patch_map :
      (Scalar → Field → Go (Unit {0})) → List (Scalar × Field) → Go (Unit {0})
  patch_map f [] = pure tt
  patch_map f ((key, v) ∷ kvs) = do f key v; patch_map f kvs

  -- `d1_11.(map[interface{}]interface{})` panics on an item that is neither nil nor such a map.
  unfoldable pub patch_items : (Scalar → Field → Go (Unit {0})) → List Item → Go (Unit {0})
  unfolding patch_map
  patch_items f [] = pure tt
  patch_items f (absent ∷ ds) = patch_items f ds
  patch_items f (keyed kvs ∷ ds) = do patch_map f kvs; patch_items f ds
  patch_items f (named kvs ∷ ds) = crash
  patch_items f (plain v ∷ ds) = crash

  unfoldable pub patch_setting : (Scalar → Field → Go (Unit {0})) → Option Setting → Go (Unit {0})
  unfolding patch_items
  patch_setting f none = pure tt
  patch_setting f (some (single v)) = pure tt
  patch_setting f (some (items ds)) = patch_items f ds

  -- patchBineries; the other four of ELFOP have no case.
  unfoldable pub patch_bineries : Go (Unit {0})
  unfolding patch_setting patch_program patch_folder add_allow_priv remove_allow_priv add_deny_priv
      remove_deny_priv
  patch_bineries = do
    patch_setting (patch_program add_allow_priv) (lookup add_allow_priv con.setting_conf)
    patch_setting (patch_program remove_allow_priv) (lookup remove_allow_priv con.setting_conf)
    patch_setting (patch_folder add_deny_priv) (lookup add_deny_priv con.setting_conf)
    patch_setting (patch_folder remove_deny_priv) (lookup remove_deny_priv con.setting_conf)
