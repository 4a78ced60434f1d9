-- ===== src/Utils/Files.antt =====
-- The file tests and the whole-file reads and writes of utils/utils.go.
use lpmx.Base.{◌≡◌, Bool, true, false, none, some, ◌++◌, arith}
use lpmx.Base.Text.{Bytes, codes, eqb_iff, eqb_refl}
use lpmx.Base.Result.{Kind, Error, Result, ok, err, panic, err_new}
use lpmx.Base.World.{
  World, Node, file, dir, pipe, socket, device, symlink, Go, read_file, write_file, opens, put,
  resolve,
}

-- TYPE_REGULAR … TYPE_OTHER
pub data NodeType : Type 0 where
  type_regular type_dir type_symlink type_pipe type_socket type_other : NodeType

stat_error : Bytes → Error
unfolding err_new
stat_error p = err_new Kind.file_stat (codes "os.stat " ++ p ++ codes " error")

-- The `switch` on the mode of the node.
type_of : Node → NodeType
type_of (file c) = type_regular
type_of dir = type_dir
type_of (symlink t) = type_symlink
type_of pipe = type_pipe
type_of socket = type_socket
type_of device = type_other

-- FileType: os.Lstat does not follow a link.
unfoldable pub file_type : World → Bytes → Result NodeType
unfolding type_of stat_error
file_type w p = elim (w.node p) [ none ↦ err (stat_error p) | some n ↦ ok (type_of n) ]

is_file : NodeType → Bool
is_file type_dir = false
is_file type_pipe = false
is_file _ = true

is_regular : NodeType → Bool
is_regular type_regular = true
is_regular _ = false

is_dir : NodeType → Bool
is_dir type_dir = true
is_dir _ = false

-- `err == nil &&` a test of the type.
type_is : (NodeType → Bool) → Result NodeType → Bool
type_is f (ok t) = f t
type_is f (err e) = false
type_is f panic = false

-- FileExist
unfoldable pub file_exist : World → Bytes → Bool
unfolding file_type type_is is_file
file_exist w p = type_is is_file (file_type w p)

-- RegularFileExist
unfoldable pub regular_file_exist : World → Bytes → Bool
unfolding file_type type_is is_regular
regular_file_exist w p = type_is is_regular (file_type w p)

-- FolderExist
unfoldable pub folder_exist : World → Bytes → Bool
unfolding file_type type_is is_dir
folder_exist w p = type_is is_dir (file_type w p)

-- ReadFromFile: the error of the library is replaced.
unfoldable pub or_file_io : Bytes → Result Bytes → Result Bytes
or_file_io p (ok c) = ok c
or_file_io p _ = err (err_new Kind.file_io (codes "reading file " ++ p ++ codes " error"))

unfoldable pub read_from_file : Bytes → Go Bytes
unfolding or_file_io read_file
read_from_file p w = (or_file_io p (read_file w p), w)

-- WriteToFile
unfoldable pub write_to_file : Bytes → Bytes → Go (Unit {0})
unfolding opens write_file
write_to_file c p w = elim (opens w p) [
  | true ↦ (ok tt, write_file w p c)
  | false ↦ (err (err_new Kind.file_io (codes "writing file " ++ p ++ codes " error")), w)
]

-- A path that was written exists.
pub file_exist-write_file :
    (w : World) (p c : Bytes) → opens w p ≡ true → file_exist (write_file w p c) p ≡ true
unfolding file_exist write_file opens put resolve
file_exist-write_file w p c h = ground (arith, eqb_refl p, eqb_iff (resolve w p) p)

-- What can be read exists.
pub file_exist-read_file :
    (w : World) (p : Bytes) {c : Bytes} → read_file w p ≡ ok c → file_exist w p ≡ true
unfolding file_exist read_file resolve
file_exist-read_file w p h = ground arith
