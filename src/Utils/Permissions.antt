-- ===== src/Utils/Permissions.antt =====
-- The permissions of files and the processes of utils/utils.go: ChangeFilePermssion,
-- CheckFilePermission, FilePermission, GetFilePermission, GetProcessIdByName and CheckProcessByPid.
use lpmx.Base.{ℕ, Bool, true, false, ◌&&◌, ◌==◌, [], ◌++◌, if◌then◌else◌}
use lpmx.Base.Text.{Bytes, codes, eqb}
use lpmx.Base.Result.{Kind, Result, ok, err, panic, err_new}
use lpmx.Base.World.{World, Go, pure, ◌>>=◌}
use lpmx.Paeudo.{Combined, command_bash}

-- permbits.Stat, permbits.Chmod, and the bits of the user.
pub record Permbits : Type 0 where
  pub stat : Bytes → World → Result ℕ
  pub chmod : Bytes → ℕ → Go (Unit {0})
  pub user_read : ℕ → Bool
  pub user_write : ℕ → Bool
  pub user_execute : ℕ → Bool

-- PERM_WRITE … PERM_READ_WRITE_EXE, and any other number.
pub data PermType : Type 0 where
  perm_write perm_read perm_exe perm_write_read perm_read_exe perm_write_exe perm_read_write_exe :
      PermType
  perm_other : PermType

-- The interface{} that FilePermission takes: a path, the bits of an os.FileInfo, or another value.
pub data FileArg : Type 0 where
  by_path : Bytes → FileArg
  by_info : ℕ → FileArg
  by_other : FileArg

-- The text of the library's error is not modelled.
unfoldable pub stat_failed : Bytes → Result ℕ → Result ℕ
unfolding err_new
stat_failed file (ok n) = ok n
stat_failed file (err e) = err (err_new Kind.file_stat (codes "os.stat " ++ file ++ codes " error"))
stat_failed file panic = panic

unfoldable pub chmod_failed : Bytes → Result (Unit {0}) → Result Bool
unfolding err_new
chmod_failed file (ok u) = ok true
chmod_failed file (err e) =
    err (err_new Kind.file_stat (codes "os.chmod " ++ file ++ codes " error"))
chmod_failed file panic = panic

unfoldable pub checked_bits : Bytes → Result ℕ → Result ℕ
unfolding err_new
checked_bits file (ok n) = ok n
checked_bits file (err e) =
    err (err_new Kind.file_stat (codes "os.chmod " ++ file ++ codes " error"))
checked_bits file panic = panic

module _ (b : Permbits) where
  -- ChangeFilePermssion
  unfoldable pub change_file_permssion : Bytes → ℕ → Go Bool
  unfolding chmod_failed
  change_file_permssion file perm w = let (r, w') = b.chmod file perm w in (chmod_failed file r, w')

  -- GetFilePermission
  unfoldable pub get_file_permission : FileArg → Go ℕ
  unfolding stat_failed err_new
  get_file_permission (by_path file) w = (stat_failed file (b.stat file w), w)
  get_file_permission (by_info n) w = (ok n, w)
  get_file_permission by_other w =
      (err (err_new Kind.mismatch (codes "file type is not in (string, os.FileInfo)")), w)

  -- CheckFilePermission
  unfoldable pub check_file_permission : Bytes → ℕ → Bool → Go Bool
  unfolding checked_bits change_file_permssion
  check_file_permission file perm force = do
    permissions ← λ w. (checked_bits file (b.stat file w), w)
    if permissions == perm
        then pure true
        else if force
        then change_file_permssion file perm
        else pure false

  -- The `switch` on permType.
  unfoldable pub permits : PermType → ℕ → Result Bool
  unfolding err_new
  permits perm_write n = ok (b.user_write n)
  permits perm_read n = ok (b.user_read n)
  permits perm_exe n = ok (b.user_execute n)
  permits perm_write_read n = ok (b.user_write n && b.user_read n)
  permits perm_read_exe n = ok (b.user_read n && b.user_execute n)
  permits perm_write_exe n = ok (b.user_write n && b.user_execute n)
  permits perm_read_write_exe n = ok (b.user_read n && b.user_write n && b.user_execute n)
  permits perm_other n = err (err_new Kind.n_exist (codes "permTyoe doesn't exist"))

  -- FilePermission
  unfoldable pub file_permission : FileArg → PermType → Go Bool
  unfolding get_file_permission permits
  file_permission file perm_type = do n ← get_file_permission file; λ w. (permits perm_type n, w)

-- GetProcessIdByName: whether there is output, and the output.
unfoldable pub get_process_id_by_name : Combined → Bytes → Go (Bool × Bytes)
unfolding command_bash
get_process_id_by_name run name = do
  out_uid ← command_bash run (codes "cat /proc/self/loginuid")
  out ← command_bash run (codes "pgrep -U " ++ out_uid ++ codes " " ++ name)
  pure (if eqb out [] then (false, out) else (true, out))

-- CheckProcessByPid
unfoldable pub check_process_by_pid : Combined → Bytes → Go Bool
unfolding command_bash
check_process_by_pid run pid = do
  out ← command_bash run (codes "ps -p " ++ pid ++ codes " --no-headers")
  pure (if eqb out [] then false else true)
