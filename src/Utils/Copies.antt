-- ===== src/Utils/Copies.antt =====
-- What CopyFile of utils/utils.go leaves.
use lpmx.Base.{
  take, take_whole, length, ◌≤◌, ◌≡◌, ◌≢◌, refl, ap, ◌∙◌, Bool, true, false, not, none, some, ◌++◌,
  arith,
}
use lpmx.Base.Text.{Bytes, codes, eqb_refl, eqb_iff}
use lpmx.Base.Paths.{path_dir}
use lpmx.Base.Result.{Kind, Result, ok}
use lpmx.Base.World.{World, file, dir, read_file, opens, write_file, put, resolve, ◌>>◌, >>=-ok}
use lpmx.Utils.Files.{file_exist, file_type, folder_exist}
use lpmx.Utils.Folders.{
  reject_if, is_regular_type, open_file, explained, ensure_folder, create_with, copy_file,
}

-- A file that can be read, and a path where nothing stands, in a folder, that can be written and read.
pub record IsCopyable (w : World) (src dst c : Bytes) : Type 0 where
  pub source : w.node src ≡ some (file c)
  pub readable : w.readable src ≡ true
  pub free : w.node dst ≡ none
  pub folder : w.node (path_dir dst) ≡ some dir
  pub writable : w.writable dst ≡ true
  pub rereadable : w.readable dst ≡ true

module _ (w : World) (src dst c : Bytes) (h : IsCopyable w src dst c) where
  accepted : (b : Bool) (k : Kind) (m : Bytes) → b ≡ false → reject_if b k m w ≡ (ok tt, w)
  unfolding reject_if
  accepted b k m e = rw e refl

  source_exists : not (file_exist w src) ≡ false
  unfolding file_exist file_type
  source_exists = ground (arith, h.source)

  source_regular : not (is_regular_type (file_type w src)) ≡ false
  unfolding file_type is_regular_type
  source_regular = ground (arith, h.source)

  target_free : file_exist w dst ≡ false
  unfolding file_exist file_type
  target_free = ground (arith, h.free)

  source_reads : read_file w src ≡ ok c
  unfolding read_file resolve
  source_reads = ground (arith, h.source, h.readable)

  opened : open_file src w ≡ (ok c, w)
  unfolding open_file explained
  opened =
      ap (λ (r : Result Bytes). (explained (codes "can't open file " ++ src) r, w)) source_reads

  in_folder : folder_exist w (path_dir dst) ≡ true
  unfolding folder_exist file_type
  in_folder = ground (arith, h.folder)

  has_folder : ensure_folder (path_dir dst) w ≡ (ok tt, w)
  unfolding ensure_folder
  has_folder = rw in_folder refl

  target_opens : opens w dst ≡ true
  unfolding opens resolve
  target_opens = ground (arith, h.free, h.writable)

  created : create_with dst c w ≡ (ok tt, write_file w dst (take (w.room dst) c))
  unfolding create_with
  created = rw target_opens refl

  copy_file-written : copy_file src dst w ≡ (ok tt, write_file w dst (take (w.room dst) c))
  unfolding copy_file
  copy_file-written =
      >>=-ok (reject_if (not (file_exist w src)) _ _) _ w tt w (accepted _ _ _ source_exists)
      ∙ (>>=-ok (reject_if (not (is_regular_type (file_type w src))) _ _) _ w tt w
            (accepted _ _ _ source_regular)
          ∙ (>>=-ok (reject_if (file_exist w dst) _ _) _ w tt w (accepted _ _ _ target_free)
              ∙ (>>=-ok (open_file src) (λ s. ensure_folder (path_dir dst) >> create_with dst s) w c
                    w opened
                  ∙ (>>=-ok (ensure_folder (path_dir dst)) (λ done. create_with dst c) w tt w
                        has_folder
                      ∙ created))))

  -- CopyFile of a file that can be read, to a path that can be written and read, where nothing stands,
  -- in a folder: it succeeds, the target then reads as what there was room for of the file, all of it
  -- if there was room for all, the file reads as before, and no other path changes.
  pub copy_file_copies :
      ((copy_file src dst w).0 ≡ ok tt)
      × (read_file (copy_file src dst w).1 dst ≡ ok (take (w.room dst) c))
      × (length c ≤ w.room dst → read_file (copy_file src dst w).1 dst ≡ ok c)
      × (read_file (copy_file src dst w).1 src ≡ ok c)
      × ((p : Bytes) → p ≢ dst → (copy_file src dst w).1.node p ≡ w.node p)
  unfolding read_file write_file put resolve
  copy_file_copies = rw copy_file-written (
    refl,
    ground (arith, h.free, h.rereadable, eqb_refl dst),
    λ l. ground (arith, h.free, h.rereadable, eqb_refl dst, take_whole (w.room dst) c l),
    ground (arith, h.source, h.free, h.readable, eqb_iff dst src),
    λ p n. ground (arith, h.free, eqb_iff dst p, n),
  )
