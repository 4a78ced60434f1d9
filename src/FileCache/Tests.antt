-- ===== src/FileCache/Tests.antt =====
-- A cache file with two items.
use lpmx.Base.{◌≤◌, ◌≡◌, refl, true, some, [], if◌then◌else◌, arith, inl}
use lpmx.Base.Text.{Bytes, codes, eqb, split}
use lpmx.Base.Result.{ok}
use lpmx.Base.World.{World, file, resolve, read_file, opens}
use lpmx.FileCache.Items.{is_key}
use lpmx.FileCache.Laws.{has_key, occurs}
use lpmx.FileCache.Store.{FileCacheInst, f_get_str_value, f_set_value, f_delete_by_key}
use lpmx.FileCache.Access.{Holds, IsPlain, get-set}
use lpmx.FileCache.Remove.{get-delete}

abbrev contents : Bytes
contents = codes "a=1:b=2"

abbrev world : World
world = record {
  node = λ p. some (file contents);
  readable = λ p. true;
  writable = λ p. true;
  removable = λ p. true;
  room = λ p. 1000;
}

abbrev cache : FileCacheInst
cache = record { file_path = codes "f" }

world-Holds : Holds world (codes "f") contents
unfolding read_file resolve opens
world-Holds = record { reads = refl; can_read = refl; can_write = refl }

a-IsPlain : IsPlain (codes "a")
unfolding codes
a-IsPlain = record { no_colon = ground arith; no_equals = ground arith }

get-set_example :
    ((f_set_value cache (codes "a") (codes "a") world).0 ≡ ok tt)
    × ((f_get_str_value cache (codes "b") (f_set_value cache (codes "a") (codes "a") world).1).0 ≡ (
        if eqb (codes "a") (codes "b")
        then ok (codes "a")
        else (f_get_str_value cache (codes "b") world).0))
get-set_example =
    get-set cache (codes "a") (codes "a") (codes "b") world (inl (contents, world-Holds)) a-IsPlain
      a-IsPlain

one_b : occurs (codes "b") (split b':' contents) ≤ 1
unfolding occurs has_key is_key eqb split codes
one_b = omega arith

get-delete_example :
    ((f_delete_by_key cache (codes "a") world).0 ≡ ok tt)
    × ((f_get_str_value cache (codes "b") (f_delete_by_key cache (codes "a") world).1).0 ≡ (
        if eqb (codes "a") (codes "b") then ok [] else (f_get_str_value cache (codes "b") world).0))
get-delete_example =
    get-delete cache (codes "a") (codes "b") contents world world-Holds (unfold codes in cc) one_b
