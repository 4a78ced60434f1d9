-- ===== src/Container/Destroy.antt =====
-- Destroy of container/container.go: a container leaves the registry and the disk.
use lpmx.Base.{Bool, true, Option, none, some, [], ◌++◌, if◌then◌else◌}
use lpmx.Base.Text.{Bytes, codes}
use lpmx.Base.Numbers.{ℤ, negsuc, itoa}
use lpmx.Base.Paths.{path_dir, below}
use lpmx.Base.Dict.{lookup, remove}
use lpmx.Base.Result.{Kind, Error, Result, ok, err, panic, err_new}
use lpmx.Base.World.{World, Go, pure, fail, crash, ◌>>=◌, ◌>>◌, ignoring}
use lpmx.Utils.Folders.{remove_all}
use lpmx.Pid.{Processes, pid_is_active, pid_value, by_file, eq_int}
use lpmx.Container.Config.{Host, get_config_dir}
use lpmx.Container.Sys.{Entry, fields, scalar, Sys, Codec, unmarshal_obj}
use lpmx.Container.Maps.{sys_dir, as_text}
use lpmx.Container.Append.{save}

-- The two calls that find the pid: -1 if none of them does.
unfoldable pub pid_or : Result Bool → Result ℤ → ℤ
pid_or (ok true) (ok n) = n
pid_or _ _ = negsuc 0

unfoldable pub running_pid : Processes → Bytes → World → ℤ
unfolding pid_or pid_is_active pid_value
running_pid ps file w = pid_or (pid_is_active ps (by_file file) w).0 (pid_value file w).0

unfoldable pub pid_file : Bytes → Bytes
pid_file root = root ++ codes "/container.pid"

pub still_running : Bytes → ℤ → Error
unfolding err_new itoa
still_running id n = err_new Kind.exist (
    codes "conatiner with id: "
    ++ id
    ++ codes " is running with pid: "
    ++ itoa n
    ++ codes ", can't destroy")

unfoldable pub unknown : Bytes → Error
unfolding err_new
unknown id = err_new Kind.n_exist (codes "conatiner with id: " ++ id ++ codes " doesn't exist")

unfoldable pub without_entry : Sys → Bytes → Sys
without_entry sys id = record sys { containers = remove id sys.containers }

-- The body for a container whose root folder is found: what remains of sys.
unfoldable pub destroy_at : Processes → Bytes → Bytes → Sys → Bytes → Go Sys
unfolding running_pid pid_file ignoring remove_all without_entry still_running
destroy_at ps currdir id sys root w =
    let pid = running_pid ps (pid_file root) w in
    if eq_int pid (negsuc 0)
    then (do
      ignoring (remove_all root)
      ignoring (remove_all (below (currdir ++ codes "/sync") id))
      pure (without_entry sys id))
        w
    else (err (still_running id pid), w)

unfoldable pub destroy_entry : Processes → Bytes → Bytes → Sys → Option Entry → Go Sys
unfolding destroy_at as_text path_dir unknown
destroy_entry ps currdir id sys (some (fields m)) = do
  rootdir ← as_text (lookup (codes "RootPath") m)
  destroy_at ps currdir id sys (path_dir rootdir)
destroy_entry ps currdir id sys (some (scalar s)) = pure sys
destroy_entry ps currdir id sys none = fail (unknown id)

-- The deferred function, which runs also after an error and in a panic: sys goes to its file.
unfoldable pub finish : Codec Sys → Sys → Result Sys → Go (Unit {0})
unfolding ignoring save
finish c sys (ok sys') = ignoring (save c sys')
finish c sys (err e) = do ignoring (save c sys); fail e
finish c sys panic = do ignoring (save c sys); crash

-- What sys is when unmarshalObj failed.
abbrev pub zero_sys : Sys
zero_sys = record { root_dir = []; containers = []; log_path = [] }

unfoldable pub destroy_loaded : Processes → Codec Sys → Bytes → Bytes → Result Sys → Go (Unit {0})
unfolding destroy_entry finish
destroy_loaded ps c currdir id (ok sys) w =
    let (r, w') = destroy_entry ps currdir id sys (lookup id sys.containers) w in finish c sys r w'
destroy_loaded ps c currdir id (err e) w = finish c zero_sys (err e) w
destroy_loaded ps c currdir id panic w = finish c zero_sys panic w

-- Destroy
unfoldable pub destroy : Host → Processes → Codec Sys → Bytes → Go (Unit {0})
unfolding get_config_dir unmarshal_obj destroy_loaded
destroy h ps c id = do
  currdir ← get_config_dir h
  λ w. let (r, w') = unmarshal_obj c (sys_dir currdir) w in destroy_loaded ps c currdir id r w'
