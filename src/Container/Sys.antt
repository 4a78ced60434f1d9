-- ===== src/Container/Sys.antt =====
-- The registry of containers: type Sys and unmarshalObj of container/container.go, with
-- StructUnmarshal of msgpack/msgpack.go.
use lpmx.Base.{◌≡◌, true, false, Option, none, some, ◌++◌, arith, ◌≢◌}
use lpmx.Base.Text.{Bytes, codes, eqb_iff}
use lpmx.Base.Dict.{Dict}
use lpmx.Base.Result.{Kind, Result, ok, err, err_new}
use lpmx.Base.World.{World, Go, fail, ◌>>=◌, write_file, put, resolve, read_file}
use lpmx.Utils.Files.{file_exist, read_from_file, file_type}

-- An interface{} value that is no map: a string, or another value as its encoding.
pub data Scalar : Type 0 where
  text other : Bytes → Scalar

-- An entry of Sys.Containers: a map[string]interface{}, or another value.
pub data Entry : Type 0 where
  fields : Dict Scalar → Entry
  scalar : Scalar → Entry

-- type Sys struct; Init makes the map, so it is not nil.
pub record Sys : Type 0 where
  pub root_dir : Bytes
  pub containers : Dict Entry
  pub log_path : Bytes

-- msgpack.Marshal and msgpack.Unmarshal at one type. The second may fail, but not on what the first made.
pub record Codec (A : Type 0) : Type 0 where
  pub marshal : A → Bytes
  pub unmarshal : Bytes → Option A
  pub unmarshal-marshal : (a : A) → unmarshal (marshal a) ≡ some a

-- StructUnmarshal
unfoldable pub struct_unmarshal : {A : Type 0} → Codec A → Bytes → Result A
unfolding err_new
struct_unmarshal c s = elim (c.unmarshal s) [
  | some a ↦ ok a
  | none ↦ err (
      err_new (Kind.foreign (codes "msgpack"))
        (codes "unmarshaling to struct Container encounters error"))
]

-- fmt.Sprintf("%s/.info", rootdir)
abbrev pub info_of : Bytes → Bytes
info_of rootdir = rootdir ++ codes "/.info"

-- unmarshalObj, at the type that the interface{} has
unfoldable pub unmarshal_obj : {A : Type 0} → Codec A → Bytes → Go A
unfolding struct_unmarshal
unmarshal_obj c rootdir w = elim (file_exist w (info_of rootdir)) [
  | true ↦ (do s ← read_from_file (info_of rootdir); λ w'. (struct_unmarshal c s, w')) w
  | false ↦ fail (err_new Kind.n_exist (rootdir ++ codes "/.info doesn't exist")) w
]

-- A call that writes `p` does not touch `q`, nor what `q` leads to.
pub record IsApart (w : World) (p q : Bytes) : Type 0 where
  pub path : resolve w p ≢ q
  pub target : resolve w p ≢ resolve w q

module _ (w : World) (p q text : Bytes) (a : IsApart w p q) where
  node-apart : (write_file w p text).node q ≡ w.node q
  unfolding write_file put
  node-apart = ground (arith, eqb_iff (resolve w p) q, a.path)

  pub resolve-apart : resolve (write_file w p text) q ≡ resolve w q
  unfolding resolve
  resolve-apart = ground (arith, node-apart)

  pub read_file-apart : read_file (write_file w p text) q ≡ read_file w q
  unfolding read_file write_file put
  read_file-apart = ground (arith, resolve-apart, eqb_iff (resolve w p) (resolve w q), a.target)

  pub file_exist-apart : file_exist (write_file w p text) q ≡ file_exist w q
  unfolding file_exist file_type
  file_exist-apart = ground (arith, node-apart)

-- A value that is stored is loaded.
pub unmarshal_obj-marshal :
    {A : Type 0} (c : Codec A) (dir : Bytes) (a : A) (w : World)
    → file_exist w (info_of dir) ≡ true
    → read_file w (info_of dir) ≡ ok (c.marshal a)
    → (unmarshal_obj c dir w).0 ≡ ok a
unfolding unmarshal_obj read_from_file struct_unmarshal
unmarshal_obj-marshal c dir a w e r = ground (arith, e, r, c.unmarshal-marshal a)
