-- ===== src/Container/Expose.antt =====
-- Expose of container/container.go: a script that runs a program in a container.
use lpmx.Base.{Bool, ◌&&◌, ◌||◌, Option, none, some, [], ◌∷◌, ◌++◌, if◌then◌else◌}
use lpmx.Base.Text.{Bytes, codes, eqb, has_prefix}
use lpmx.Base.Paths.{below, path_dir, clean}
use lpmx.Base.Dict.{lookup}
use lpmx.Base.Result.{Kind, Error, Result, ok, err, panic, err_new}
use lpmx.Base.World.{Go, pure, fail, crash, ◌>>=◌, ◌>>◌, opens, overwrite, resolve, ignoring}
use lpmx.Utils.Files.{file_exist, folder_exist, read_from_file, write_to_file}
use lpmx.Utils.Folders.{make_dir, remove_file}
use lpmx.Container.Config.{Host, get_config_dir}
use lpmx.Container.Sys.{Entry, fields, scalar, Sys, Codec, unmarshal_obj, struct_unmarshal, info_of}
use lpmx.Container.Append.{Container}
use lpmx.Container.Destroy.{unknown}
use lpmx.Container.Maps.{sys_dir, as_text}

-- strings.Contains(s, t)
unfoldable pub contains_str : Bytes → Bytes → Bool
unfolding has_prefix
contains_str [] t = eqb t []
contains_str (c ∷ s) t = has_prefix (c ∷ s) t || contains_str s t

-- con.ExposeExe with the path
unfoldable pub exposing : Bytes → Bytes → Bytes
unfolding contains_str
exposing [] ipath = ipath
exposing (c ∷ exe) ipath =
    if contains_str (c ∷ exe) ipath then c ∷ exe else (c ∷ exe) ++ b':' ∷ ipath

-- The text of the script, where `prog` is os.Args[0].
unfoldable pub script : Bytes → Bytes → Bytes → Bytes → Bytes
unfolding clean
script currdir prog id ipath =
    codes "#!/bin/bash"
    ++ 10 ∷ clean (below currdir prog)
    ++ codes " resume "
    ++ id
    ++ codes " -- "
    ++ ipath
    ++ codes " "
    ++ b'"' ∷ codes "$@"
    ++ b'"' ∷ 10 ∷ []

-- os.OpenFile(bdir, os.O_RDWR|os.O_CREATE, 0755) and the writing of the script
unfoldable pub write_script : Bytes → Bytes → Go (Unit {0})
unfolding opens overwrite err_new
write_script bdir code w =
    if opens w bdir && w.readable (resolve w bdir) then (ok tt, overwrite w bdir code) else (
      err (err_new (Kind.foreign (codes "open")) (codes "can not create exposed file " ++ bdir)),
      w,
    )

-- fmt.Fprintf takes the script for a format without arguments: `formatted` is what it writes.
module _ (h : Host) (formatted : Bytes → Bytes) (prog : Bytes) (c : Codec Sys)
    (cc : Codec Container) where
  unfoldable pub expose_con : Bytes → Bytes → Bytes → Bytes → Container → Go (Unit {0})
  unfolding exposing script write_script folder_exist make_dir file_exist ignoring remove_file
      write_to_file
  expose_con currdir id ipath name con = do
    λ w.
        (if folder_exist w (currdir ++ codes "/bin")
            then pure tt
            else make_dir (currdir ++ codes "/bin"))
          w
    λ w.
        (if file_exist w (below (currdir ++ codes "/bin") name)
            then ignoring (remove_file (below (currdir ++ codes "/bin") name))
            else pure tt)
          w
    write_script (below (currdir ++ codes "/bin") name) (formatted (script currdir prog id ipath))
    ignoring (
        write_to_file (cc.marshal (record con { expose_exe = exposing con.expose_exe ipath }))
          (info_of con.config_path))

  unfoldable pub expose_read : Bytes → Bytes → Bytes → Bytes → Result Bytes → Go (Unit {0})
  unfolding struct_unmarshal expose_con
  expose_read currdir id ipath name (ok data') = do
    con ← λ w. (struct_unmarshal cc data', w)
    expose_con currdir id ipath name con
  expose_read currdir id ipath name (err e) = pure tt
  expose_read currdir id ipath name panic = crash

  no_info : Bytes → Error
  unfolding err_new
  no_info root = err_new Kind.n_exist (root ++ codes "/.info doesn't exist")

  unfoldable pub expose_entry : Bytes → Bytes → Bytes → Bytes → Option Entry → Go (Unit {0})
  unfolding as_text path_dir file_exist read_from_file expose_read no_info unknown
  expose_entry currdir id ipath name (some (fields m)) = do
    root ← as_text (lookup (codes "RootPath") m)
    λ w.
        (if file_exist w (info_of (path_dir root ++ codes "/.lpmx"))
            then expose_read currdir id ipath name
                (read_from_file (info_of (path_dir root ++ codes "/.lpmx")) w).0
            else fail (no_info root))
          w
  expose_entry currdir id ipath name (some (scalar s)) = pure tt
  expose_entry currdir id ipath name none = fail (unknown id)

  -- Expose
  unfoldable pub expose : Bytes → Bytes → Bytes → Go (Unit {0})
  unfolding get_config_dir unmarshal_obj expose_entry
  expose id ipath name = do
    currdir ← get_config_dir h
    sys ← unmarshal_obj c (sys_dir currdir)
    expose_entry currdir id ipath name (lookup id sys.containers)
