-- ===== src/Base/Paths.antt =====
-- The lexical functions of packages path and path/filepath, which agree on Unix.
use Prim.Native.Nat.{ℕ}
use lpmx.Base.Tests.{◌==◌, if◌then◌else◌, Bool-cases}
use mathlib.Core.Path.{◌≡◌, refl}
use mathlib.Core.Logic.{inl, inr}
use lpmx.Base.Text.{Bytes, codes, eqb, split, join, has_prefix}
use mathlib.Core.Bool.{Bool, true, false, ◌||◌}
use mathlib.Core.List.{List, [], ◌∷◌, ◌++◌, reverse}

-- fmt.Sprintf("%s/%s", dir, name)
abbrev pub below : Bytes → Bytes → Bytes
below dir name = dir ++ b'/' ∷ name

unfoldable pub is_abs : Bytes → Bool
is_abs s = has_prefix s (b'/' ∷ [])

-- Clean, on the elements behind those that are done, which are in reverse.
unfoldable pub clean_elements : Bool → List Bytes → List Bytes → List Bytes
clean_elements rooted done [] = reverse done
clean_elements rooted [] (x ∷ xs) =
    clean_elements rooted
      (if eqb x [] || eqb x (codes ".")
        then []
        else if eqb x (codes "..")
        then (if rooted then [] else x ∷ [])
        else x ∷ [])
      xs
clean_elements rooted (d ∷ done) (x ∷ xs) =
    clean_elements rooted
      (if eqb x [] || eqb x (codes ".")
        then d ∷ done
        else if eqb x (codes "..")
        then (if eqb d (codes "..") then x ∷ d ∷ done else done)
        else x ∷ d ∷ done)
      xs

or_dot : Bytes → Bytes
or_dot [] = codes "."
or_dot (c ∷ s) = c ∷ s

-- Clean
unfoldable pub clean : Bytes → Bytes
unfolding clean_elements is_abs or_dot
clean s =
    if is_abs s
    then b'/' ∷ join b'/' (clean_elements true [] (split b'/' s))
    else or_dot (join b'/' (clean_elements false [] (split b'/' s)))

or_dot-ne-nil : (s : Bytes) → eqb (or_dot s) [] ≡ false
unfolding or_dot eqb codes
or_dot-ne-nil [] = refl
or_dot-ne-nil (c ∷ s) = refl

pub clean-ne-nil : (s : Bytes) → eqb (clean s) [] ≡ false
unfolding clean eqb
clean-ne-nil s = elim (Bool-cases (is_abs s)) [
  | inl e ↦ rw e refl
  | inr e ↦ rw e (or_dot-ne-nil (join b'/' (clean_elements false [] (split b'/' s))))
]

-- s[:i] for the last slash at i - 1.
up_to : ℕ → Bytes → Bytes
up_to c [] = if c == b'/' then c ∷ [] else []
up_to c (d ∷ t) = c ∷ d ∷ t

unfoldable pub up_to_slash : Bytes → Bytes
unfolding up_to
up_to_slash [] = []
up_to_slash (c ∷ s) = up_to c (up_to_slash s)

-- Dir
unfoldable pub path_dir : Bytes → Bytes
unfolding clean up_to_slash
path_dir s = clean (up_to_slash s)

unfoldable pub drop_slashes : Bytes → Bytes
drop_slashes [] = []
drop_slashes (c ∷ s) = if c == b'/' then drop_slashes s else c ∷ s

-- The text up to the first slash.
unfoldable pub before_slash : Bytes → Bytes
before_slash [] = []
before_slash (c ∷ s) = if c == b'/' then [] else c ∷ before_slash s

base_name : Bytes → Bytes → Bytes
base_name [] s = codes "."
base_name (c ∷ t) [] = b'/' ∷ []
base_name (c ∷ t) (d ∷ s) = reverse (before_slash (d ∷ s))

-- Base
unfoldable pub path_base : Bytes → Bytes
unfolding drop_slashes before_slash base_name
path_base s = base_name s (drop_slashes (reverse s))

-- Join of two elements
unfoldable pub path_join : Bytes → Bytes → Bytes
unfolding clean
path_join a b = if eqb a [] then (if eqb b [] then [] else clean b) else clean (below a b)

ext_from : Bytes → Bytes → Bytes
ext_from ext [] = []
ext_from ext (c ∷ s) = if c == b'.' then c ∷ ext else if c == b'/' then [] else ext_from (c ∷ ext) s

-- Ext
unfoldable pub path_ext : Bytes → Bytes
unfolding ext_from
path_ext s = ext_from [] (reverse s)
