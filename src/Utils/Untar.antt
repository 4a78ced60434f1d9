-- ===== src/Utils/Untar.antt =====
-- UntarLayer and Untar of utils/utils.go: the files of an archive are put below a folder, and the
-- whiteout files of a layer remove what is there.
use lpmx.Base.{false, ◌==◌, Bool, ◌&&◌, Option, none, some, [], ◌∷◌, ◌++◌, map, if◌then◌else◌}
use lpmx.Base.Text.{Bytes, codes, eqb, has_prefix}
use lpmx.Base.Strings.{to_lower, has_suffix, without_prefix, without_suffix}
use lpmx.Base.Paths.{clean, below, path_base, path_dir, path_ext, path_join}
use lpmx.Base.Result.{Kind, Error, Result, ok, err, panic, err_new}
use lpmx.Base.World.{
  World, Go, pure, fail, ◌>>=◌, ◌>>◌, read_file, opens, write_file, overwrite, resolve,
  os_mkdir_all, os_remove_all, os_symlink, ignoring,
}
use lpmx.Utils.Files.{file_exist}
use lpmx.Utils.Folders.{explain}
use lpmx.Pid.{exists}

-- The types of an entry that the functions look at; an entry of another type is passed over.
pub data TypeFlag : Type 0 where
  type_dir type_reg type_symlink type_link type_other : TypeFlag

-- An entry of an archive: its header, the bytes that can be read of it, and how the reading fails.
pub record Header : Type 0 where
  pub name : Bytes
  pub linkname : Bytes
  pub typeflag : TypeFlag
  pub content : Bytes
  pub failure : Option Kind

-- What tr.Next returns, call after call.
pub data Stream : Type 0 where
  eof : Stream
  broken : Error → Stream
  entry : Header → Stream → Stream

-- tar.NewReader, and gzip.NewReader with what can be read of it.
pub record Archives : Type 0 where
  pub tar : Bytes → Stream
  pub gzip : Bytes → Result Bytes

-- os.OpenFile with os.O_RDWR, by what is then written, and io.Copy.
unfoldable pub extract :
    (World → Bytes → Bytes → World) → Bytes → Bytes → Option Kind → Go (Unit {0})
unfolding opens err_new
extract write target content failure w =
    if opens w target && w.readable (resolve w target)
    then (
      elim failure [
        | none ↦ ok tt
        | some k ↦ err (err_new k (codes "untar copying file content error"))
      ],
      write w target content,
    )
    else (
      err (
          err_new (Kind.foreign (codes "open"))
            (codes "untar create file " ++ target ++ codes " error")),
      w,
    )

unfoldable pub extract_dir : Bytes → Go (Unit {0})
unfolding exists explain os_mkdir_all
extract_dir target w =
    if exists w target
    then (ok tt, w)
    else explain (codes "untar making dir error") (os_mkdir_all target) w

unfoldable pub is_whiteout : Bytes → Bool
unfolding path_base
is_whiteout target = has_prefix (path_base target) (codes ".wh")

-- file_to_delete
unfoldable pub hidden_by : Bytes → Bytes
unfolding path_dir path_base without_prefix
hidden_by target = below (path_dir target) (without_prefix (codes ".wh.") (path_base target))

-- Does a path end in an element that is a dot?
unfoldable pub ends_in_dot : Bytes → Bool
ends_in_dot [] = false
ends_in_dot (c ∷ []) = c == b'.'
ends_in_dot (c ∷ d ∷ []) = c == b'/' && d == b'.'
ends_in_dot (c ∷ d ∷ e ∷ s) = ends_in_dot (d ∷ e ∷ s)

-- os.RemoveAll of a path that may have a slash, a dot or two dots at its end: it refuses the dot, and
-- takes the others for the folder that they name.
unfoldable pub remove_named : Bytes → Go (Unit {0})
unfolding ends_in_dot os_remove_all clean
remove_named p w =
    if ends_in_dot p
    then (err (record { kind = Kind.foreign (codes "RemoveAll"); msg = [] }), w)
    else os_remove_all (clean p) w

-- What a whiteout hides goes, and the whiteout itself. Behind the prefix there may be no name, or two
-- dots, and then the folder of the whiteout goes, or the one above.
unfoldable pub white_out : Bytes → Go (Unit {0})
unfolding ignoring os_remove_all remove_named hidden_by
white_out target = do ignoring (remove_named (hidden_by target)); ignoring (os_remove_all target)

-- A link, symbolic or hard, of a layer.
unfoldable pub layer_link : Bytes → Bytes → Bytes → Go (Unit {0})
unfolding is_whiteout path_join white_out ignoring os_remove_all os_symlink
layer_link folder target linkname =
    if is_whiteout target
    then (do
      if is_whiteout (path_join folder linkname)
          then white_out (path_join folder linkname)
          else pure tt
      ignoring (os_remove_all target))
    else ignoring (os_symlink linkname target)

-- The `switch` of UntarLayer
unfoldable pub untar_layer_entry : Bytes → Header → Go (Unit {0})
unfolding path_join extract_dir is_whiteout white_out extract write_file layer_link
untar_layer_entry folder header = elim header.typeflag [
  | type_dir ↦ extract_dir (path_join folder header.name)
  | type_reg ↦
      if is_whiteout (path_join folder header.name)
      then white_out (path_join folder header.name)
      else extract write_file (path_join folder header.name) header.content header.failure
  | type_symlink ↦ layer_link folder (path_join folder header.name) header.linkname
  | type_link ↦ layer_link folder (path_join folder header.name) header.linkname
  | type_other ↦ pure tt
]

-- The file bin/arch is copied, and not linked.
unfoldable pub copy_arch : Bytes → Bytes → Bytes → Go (Unit {0})
unfolding opens overwrite explain read_file err_new
copy_arch folder target linkname = do
  extract overwrite target [] none
  c ←
      explain (codes "untar read source file " ++ folder ++ linkname ++ codes " error")
        (λ w. (read_file w (folder ++ linkname), w))
  λ w. (ok tt, overwrite w target c)

-- The `switch` of Untar, which opens a file without os.O_TRUNC.
unfoldable pub untar_entry : Bytes → Header → Go (Unit {0})
unfolding path_join extract_dir extract overwrite copy_arch ignoring os_symlink
untar_entry folder header = elim header.typeflag [
  | type_dir ↦ extract_dir (path_join folder header.name)
  | type_reg ↦ extract overwrite (path_join folder header.name) header.content header.failure
  | type_symlink ↦ ignoring (os_symlink header.linkname (path_join folder header.name))
  | type_link ↦
      if eqb header.linkname (codes "bin/arch")
      then copy_arch folder (path_join folder header.name) header.linkname
      else ignoring (os_symlink header.linkname (path_join folder header.name))
  | type_other ↦ pure tt
]

-- The loop over the entries.
unfoldable pub untar_entries : (Header → Go (Unit {0})) → Stream → Go (Unit {0})
unfolding err_new
untar_entries f eof = pure tt
untar_entries f (broken e) = fail (err_new e.kind (codes "reading tar header errors"))
untar_entries f (entry header s) = do f header; untar_entries f s

-- The folder with a slash at its end, from the first entry on.
unfoldable pub slashed : Bytes → Bytes
unfolding has_suffix
slashed folder = if has_suffix folder b'/' then folder else folder ++ b'/' ∷ []

-- The reader for the archive, by the name of the file.
unfoldable pub open_archive : Archives → Bytes → Bytes → Go Stream
unfolding path_ext to_lower without_suffix explain err_new
open_archive a file c =
    if eqb (map to_lower (path_ext file)) (codes ".tar")
    then pure (a.tar c)
    else if eqb (map to_lower (path_ext file)) (codes ".gz")
        && eqb (path_ext (without_suffix (codes ".gz") (map to_lower file))) (codes ".tar")
    then (do
      s ← explain (codes "gzip open file " ++ file ++ codes " failure") (λ w. (a.gzip c, w))
      pure (a.tar s))
    else fail (err_new Kind.mismatch (file ++ codes " file is neither tar.gz file nor tar file"))

unfoldable pub or_not_open : Bytes → Result Bytes → Result Bytes
unfolding err_new
or_not_open file (ok c) = ok c
or_not_open file (err e) =
    err (err_new Kind.file_io (codes "open file " ++ file ++ codes " failure"))
or_not_open file panic = panic

unfoldable pub untar_with :
    (Bytes → Header → Go (Unit {0})) → Archives → Bytes → Bytes → Go (Unit {0})
unfolding file_exist or_not_open read_file open_archive untar_entries slashed err_new
untar_with f a file folder w =
    if file_exist w file
    then (do
      c ← λ w'. (or_not_open file (read_file w' file), w')
      s ← open_archive a file c
      untar_entries (f (slashed folder)) s)
        w
    else (err (err_new Kind.n_exist (codes "file " ++ file ++ codes " does not exist")), w)

-- UntarLayer
unfoldable pub untar_layer : Archives → Bytes → Bytes → Go (Unit {0})
unfolding untar_with untar_layer_entry
untar_layer = untar_with untar_layer_entry

-- Untar
unfoldable pub untar : Archives → Bytes → Bytes → Go (Unit {0})
unfolding untar_with untar_entry
untar = untar_with untar_entry
