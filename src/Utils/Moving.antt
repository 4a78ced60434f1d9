-- ===== src/Utils/Moving.antt =====
-- Rename, CreateTempDir, Sha256file, GetFileSize and GetFileLength of utils/utils.go.
use lpmx.Base.{ℕ, zero, suc, Bool, true, false, Option, none, some, [], ◌++◌, length, if◌then◌else◌}
use lpmx.Base.Text.{Bytes, codes}
use lpmx.Base.Paths.{below, path_dir}
use lpmx.Base.Result.{Kind, Error, Result, ok, err, panic, err_new}
use lpmx.Base.World.{
  Node, file, World, Go, pure, fail, ◌>>=◌, ◌>>◌, read_file, resolve, os_mkdir_all, os_rename,
}
use lpmx.Utils.Files.{NodeType, type_regular, type_dir, file_type, file_exist, folder_exist}
use lpmx.Utils.Folders.{explain, explained, ensure_folder}

-- What the functions rely on: the text of a file's checksum, the size that os.Stat tells of a node
-- that is no regular file, the texts that RandomString gives call after call from a machine on, and
-- how many of them CreateTempDir looks at in the model.
pub record Machine : Type 0 where
  pub sha256 : Bytes → Bytes
  pub other_size : Node → ℕ
  pub random : World → ℕ → Bytes
  pub rounds : ℕ

-- Is there a folder to make for the new path?
unfoldable pub needs_parent : Result NodeType → Bool
needs_parent (ok type_dir) = true
needs_parent (ok type_regular) = true
needs_parent (ok _) = false
needs_parent (err e) = false
needs_parent panic = false

-- Rename
unfoldable pub rename : Bytes → Bytes → Go (Unit {0})
unfolding file_type needs_parent ensure_folder path_dir explain os_rename
rename old_path new_path = do
  λ w.
      (if needs_parent (file_type w old_path) then ensure_folder (path_dir new_path) else pure tt) w
  explain (codes "could not rename from: " ++ old_path ++ codes ", to: " ++ new_path)
      (os_rename old_path new_path)

unfoldable pub size_of : (Node → ℕ) → Option Node → Result ℕ
unfolding err_new
size_of other_size none = err (record { kind = Kind.foreign (codes "stat"); msg = [] })
size_of other_size (some (file c)) = ok (length c)
size_of other_size (some n) = ok (other_size n)

-- The text of the library's error is not modelled.
unfoldable pub unsized : Bytes → Result ℕ → Result ℕ
unfolding err_new
unsized p (ok n) = ok n
unsized p (err e) = err (err_new Kind.file_stat (codes "os.stat " ++ p ++ codes " error"))
unsized p panic = panic

-- The folder that the loop of CreateTempDir makes, or that it makes none in its rounds.
unfoldable pub first_free : (ℕ → Bytes) → Bytes → ℕ → World → Option Bytes
unfolding folder_exist
first_free names dir zero w = none
first_free names dir (suc n) w =
    let rest = first_free (λ i. names (suc i)) dir n w in
    if folder_exist w (below dir (names 0)) then rest else some (below dir (names 0))

out_of_names : Error
unfolding err_new
out_of_names = err_new (Kind.foreign (codes "random")) []

unfoldable pub make_temp : Option Bytes → Go Bytes
unfolding explain os_mkdir_all out_of_names
make_temp none = fail out_of_names
make_temp (some id) = do explain (id ++ codes " could not be created") (os_mkdir_all id); pure id

module _ (m : Machine) where
  -- GetFileSize of a path
  unfoldable pub get_file_size : Bytes → Go ℕ
  unfolding size_of unsized resolve
  get_file_size p w = (unsized p (size_of m.other_size (w.node (resolve w p))), w)

  -- GetFileLength
  unfoldable pub get_file_length : Bytes → Go ℕ
  unfolding file_exist size_of explained err_new resolve
  get_file_length p w =
      if file_exist w p
      then (
        explained (codes "GetFileLength encounters error")
            (size_of m.other_size (w.node (resolve w p))),
        w,
      )
      else (err (err_new Kind.n_exist (p ++ codes " does not exist")), w)

  -- Sha256file
  unfoldable pub sha256file : Bytes → Go Bytes
  unfolding explain read_file
  sha256file p = do
    c ← explain (codes "could not open file " ++ p) (λ w. (read_file w p, w))
    pure (m.sha256 c)

  -- CreateTempDir
  unfoldable pub create_temp_dir : Bytes → Go Bytes
  unfolding folder_exist explain os_mkdir_all first_free make_temp
  create_temp_dir dir = do
    λ w.
        (if folder_exist w dir
            then pure tt
            else explain (dir ++ codes " could not be created") (os_mkdir_all dir))
          w
    λ w. make_temp (first_free (m.random w) dir m.rounds w) w
