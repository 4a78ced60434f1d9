-- ===== src/Singularity.antt =====
-- singularity/singularity.go: ExtractSquashfs, LoadSquashfs and Unsquashfs.
use lpmx.Base.{
  ℕ, Bool, ◌&&◌, ◌==◌, Option, none, some, List, [], ◌∷◌, ◌++◌, length, take, drop, if◌then◌else◌,
}
use lpmx.Base.Text.{Bytes, codes, eqb, has_prefix}
use lpmx.Base.Paths.{below}
use lpmx.Base.Result.{Kind, Error, Result, ok, err, panic, err_new}
use lpmx.Base.World.{
  Node, symlink, World, Go, pure, fail, crash, ◌>>=◌, ◌>>◌, read_file, opens, write_file,
}
use lpmx.Utils.Files.{file_exist, folder_exist}
use lpmx.Utils.Folders.{explain, remove_all, remove_file}
use lpmx.Utils.Moving.{Machine, rename, sha256file, get_file_length}
use lpmx.Utils.Pack.{Packer}
use lpmx.Paeudo.{Exec, command}
use lpmx.Container.Generate.Links.{make_missing}
use lpmx.Docker.Layers.{Loaded, none_loaded, loaded_too}

-- A descriptor of an image: whether it is used, whether it is of a data partition, and where the
-- partition lies.
pub record Descriptor : Type 0 where
  pub used : Bool
  pub is_partition : Bool
  pub fileoff : ℕ
  pub filelen : ℕ

-- sif.LoadContainer, as the descriptors that it finds, and UnloadContainer on a nil image.
pub record Sif : Type 0 where
  pub load_container : Bytes → World → Result (List Descriptor)
  pub unload_nil : Go (Unit {0})

-- type SingularityObject, the fields that are read.
pub record SingularityObject : Type 0 where
  pub fileoff : ℕ
  pub filelen : ℕ

-- getDescriptorInfo
unfoldable pub get_descriptor_info : List Descriptor → List SingularityObject
get_descriptor_info [] = []
get_descriptor_info (v ∷ descr_arr) =
    let sigs = get_descriptor_info descr_arr in
    if v.used && v.is_partition
    then record { fileoff = v.fileoff; filelen = v.filelen } ∷ sigs
    else sigs

-- io.CopyN of `n` bytes: what it copies, and how it ends.
unfoldable pub copied_n : ℕ → Bytes → Bytes
copied_n n c = take n c

unfoldable pub copied_all : Bytes → ℕ → Bytes → Result (Unit {0})
unfolding err_new copied_n
copied_all path n c =
    if length (copied_n n c) == n
    then ok tt
    else err (err_new (Kind.foreign (codes "EOF")) (codes "could not write data to file: " ++ path))

unfoldable pub copy_part : Bytes → SingularityObject → Bytes → Go (Unit {0})
unfolding copied_n copied_all write_file
copy_part path s c w = (
  copied_all path s.filelen (drop s.fileoff c),
  write_file w path (copied_n s.filelen (drop s.fileoff c)),
)

-- `sings != nil` always holds, since the list is made empty and not nil; sings[0] panics on an image
-- that has no partition.
unfoldable pub copy_first : Bytes → Bytes → List SingularityObject → Go (Unit {0})
unfolding explain read_file copy_part
copy_first sif path [] = crash
copy_first sif path (s ∷ sings) = do
  c ← explain (codes "could not set offset of file: " ++ path) (λ w. (read_file w sif, w))
  copy_part path s c

unfoldable pub create_empty_file : Bytes → Go (Unit {0})
unfolding opens write_file err_new
create_empty_file path w =
    if opens w path
    then (ok tt, write_file w path [])
    else (err (err_new (Kind.foreign (codes "open")) (codes "could not create file: " ++ path)), w)

module _ (sif : Sif) where
  -- loadSif with the deferred unloadSif, which is called on nil after an error.
  unfoldable pub on_sif : Bytes → Bytes → Result (List Descriptor) → Go (Unit {0})
  unfolding copy_first get_descriptor_info err_new
  on_sif file path (ok descriptors) = copy_first file path (get_descriptor_info descriptors)
  on_sif file path (err e) = do
    sif.unload_nil
    fail (err_new e.kind (codes "could not load image: " ++ file))
  on_sif file path panic = crash

  -- ExtractSquashfs
  unfoldable pub extract_squashfs : Bytes → Bytes → Go (Unit {0})
  unfolding file_exist create_empty_file on_sif
  extract_squashfs file path w =
      if file_exist w path
      then (ok tt, w)
      else (do create_empty_file path; λ v. on_sif file path (sif.load_container file v) v) w

-- LoadSquashfs
unfoldable pub load_squashfs : Machine → Bytes → Bytes → Go Loaded
unfolding file_exist sha256file rename get_file_length loaded_too none_loaded err_new
load_squashfs m squashfsfile imagedir w =
    if file_exist w squashfsfile
    then (do
      sha256 ← sha256file m squashfsfile
      rename squashfsfile (below imagedir sha256)
      file_length ← get_file_length m (below imagedir sha256)
      pure (loaded_too none_loaded (below imagedir sha256) file_length))
        w
    else (err (err_new Kind.n_exist (codes "could not find file: " ++ squashfsfile)), w)

-- The callback of the walk in Unsquashfs.
unfoldable pub drop_link : Bytes → Option Node → Go (Unit {0})
unfolding remove_file
drop_link path (some (symlink t)) =
    if has_prefix t (codes ".singularity.d") then remove_file path else pure tt
drop_link path n = pure tt

unfoldable pub drop_links : Bytes → List (Bytes × Option Error) → Go (Unit {0})
unfolding drop_link
drop_links destfolder [] = pure tt
drop_links destfolder ((path, some e) ∷ visits) = fail e
drop_links destfolder ((path, none) ∷ visits) = do
  λ w. (if eqb path destfolder then pure tt else drop_link path (w.node path)) w
  drop_links destfolder visits

-- What Unsquashfs does behind the walk, whose error it returns last.
unfoldable pub drop_singularity : Bytes → Bytes → Result (Unit {0}) → Go (Unit {0})
unfolding folder_exist remove_all err_new
drop_singularity squashfspath destfolder r = do
  λ w.
      (if folder_exist w (below destfolder (codes ".singularity.d"))
          then remove_all (below destfolder (codes ".singularity.d"))
          else pure tt)
        w
  elim r [
    | ok u ↦ pure tt
    | err e ↦ fail (
        err_new e.kind
          (codes "could not unsquash file " ++ squashfspath ++ codes " to folder: " ++ destfolder))
    | panic ↦ crash
  ]

-- Unsquashfs
unfoldable pub unsquashfs : Exec → Packer → Bytes → Bytes → Go (Unit {0})
unfolding file_exist make_missing command drop_links drop_singularity err_new
unsquashfs run k squashfspath destfolder w =
    if file_exist w squashfspath
    then (do
      make_missing destfolder
      out ←
          command run (codes "unsquashfs")
            (codes "-f" ∷ codes "-d" ∷ destfolder ∷ squashfspath ∷ [])
      λ v.
          (let (r, v') = drop_links destfolder (k.visits v destfolder) v in
            drop_singularity squashfspath destfolder r v'))
        w
    else (err (err_new Kind.n_exist (squashfspath ++ codes " does not exist")), w)
