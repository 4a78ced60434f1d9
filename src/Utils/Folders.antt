-- ===== src/Utils/Folders.antt =====
-- MakeDir, RemoveAll, RemoveFile and CopyFile of utils/utils.go.
use lpmx.Base.{take, Bool, true, false, not, ◌++◌, if◌then◌else◌}
use lpmx.Base.Text.{Bytes, codes}
use lpmx.Base.Paths.{path_dir}
use lpmx.Base.Result.{Kind, Result, ok, err, panic, err_new}
use lpmx.Base.World.{
  Go, ◌>>=◌, ◌>>◌, read_file, opens, write_file, os_mkdir_all, os_remove_all, os_remove,
}
use lpmx.Utils.Files.{NodeType, type_regular, file_type, file_exist, folder_exist}

-- The error of a call of package os, with the message of the function that called it.
unfoldable pub explained {ℓ} : {A : Type ℓ} → Bytes → Result A → Result A
unfolding err_new
explained m (ok a) = ok a
explained m (err e) = err (err_new e.kind m)
explained m panic = panic

unfoldable pub explain {ℓ} : {A : Type ℓ} → Bytes → Go A → Go A
unfolding explained
explain m call w = let (r, w') = call w in (explained m r, w')

-- MakeDir
unfoldable pub make_dir : Bytes → Go (Unit {0})
unfolding explain os_mkdir_all
make_dir dir = explain (codes "creating " ++ dir ++ codes " folder error") (os_mkdir_all dir)

-- RemoveAll
unfoldable pub remove_all : Bytes → Go (Unit {0})
unfolding explain os_remove_all
remove_all dir = explain (codes "removing " ++ dir ++ codes " folder error") (os_remove_all dir)

-- RemoveFile
unfoldable pub remove_file : Bytes → Go (Unit {0})
unfolding explain os_remove
remove_file path = explain (codes "removing " ++ path ++ codes " file error") (os_remove path)

-- `if !FolderExist(dir) { err := os.MkdirAll(dir, …) }`
unfoldable pub ensure_folder : Bytes → Go (Unit {0})
unfolding explain os_mkdir_all folder_exist
ensure_folder dir w =
    if folder_exist w dir
    then (ok tt, w)
    else explain (codes "could not mkdir " ++ dir) (os_mkdir_all dir) w

-- `if b { return cerr }`
unfoldable pub reject_if : Bool → Kind → Bytes → Go (Unit {0})
unfolding err_new
reject_if b k m w = (if b then err (err_new k m) else ok tt, w)

unfoldable pub is_regular_type : Result NodeType → Bool
is_regular_type (ok type_regular) = true
is_regular_type (ok _) = false
is_regular_type (err e) = false
is_regular_type panic = false

-- os.Create, io.Copy of a file that is open with content c, and Chmod: io.Copy stops where there is
-- no more room, and its error is not looked at, since the test reads another variable.
unfoldable pub create_with : Bytes → Bytes → Go (Unit {0})
unfolding opens write_file err_new
create_with dst c w =
    if opens w dst
    then (ok tt, write_file w dst (take (w.room dst) c))
    else (err (err_new (Kind.foreign (codes "create")) (codes "can't open file " ++ dst)), w)

unfoldable pub open_file : Bytes → Go Bytes
unfolding explained read_file
open_file src w = (explained (codes "can't open file " ++ src) (read_file w src), w)

-- CopyFile
unfoldable pub copy_file : Bytes → Bytes → Go (Unit {0})
unfolding file_exist file_type reject_if is_regular_type open_file ensure_folder create_with
copy_file src dst w =
    (do
      reject_if (not (file_exist w src)) Kind.n_exist
          (codes "source file " ++ src ++ codes " doesn't exist")
      reject_if (not (is_regular_type (file_type w src))) Kind.type_error
          (codes "source file " ++ src ++ codes " is not regular type file")
      reject_if (file_exist w dst) Kind.exist
          (codes "target file " ++ dst ++ codes " exist, can't override")
      c ← open_file src
      ensure_folder (path_dir dst)
      create_with dst c)
      w
