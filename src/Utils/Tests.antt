-- ===== src/Utils/Tests.antt =====
-- A folder in a layer, a copy, a folder for temporary files, and a packed link.
use lpmx.Base.{
  take, length, ℕ, ◌+◌, ◌<◌, ◌≤◌, arith, ◌≡◌, ◌≢◌, refl, true, false, none, some, [], ◌∷◌,
  if◌then◌else◌,
}
use lpmx.Base.Text.{Bytes, codes, split, cons_head, eqb, has_prefix, join}
use lpmx.Base.Paths.{below, path_dir, clean, clean_elements, is_abs, up_to_slash, path_join}
use lpmx.Base.Strings.{without_prefix}
use lpmx.Base.Result.{ok}
use lpmx.Base.World.{World, dir, file, symlink, put, read_file}
use lpmx.Utils.Folders.{copy_file}
use lpmx.Utils.Untar.{Header, type_reg, untar_entry, untar_entries}
use lpmx.Utils.Copies.{IsCopyable, copy_file_copies}
use lpmx.Utils.Guess.{
  guess_path_container, guess_paths_container, head_of, guess_path_container-guess_paths_container,
}
use lpmx.Utils.Files.{file_type, folder_exist}
use lpmx.Utils.Moving.{Machine, create_temp_dir}
use lpmx.Utils.Temp.{create_temp_dir_ends}
use lpmx.Utils.Pack.{layer_entry}
use lpmx.Utils.Linked.{stream, untar_entries-layer_entry}

-- A folder in the second layer.
abbrev layered : World
layered = record {
  node = λ p. if eqb p (codes "/b/m/lib") then some dir else none;
  readable = λ p. true;
  writable = λ p. true;
  removable = λ p. true;
  room = λ p. 1000;
}

guess_path_container-guess_paths_container_example :
    guess_path_container layered (codes "/b") (codes "l" ∷ codes "m" ∷ []) (codes "lib") false
    ≡ head_of (
        guess_paths_container layered (codes "/b") (codes "l" ∷ codes "m" ∷ []) (codes "lib") false)
guess_path_container-guess_paths_container_example =
    guess_path_container-guess_paths_container layered (codes "/b") (codes "l" ∷ codes "m" ∷ [])
      (codes "lib") false

-- A file, and a folder for its copy.
abbrev stocked : World
stocked = record {
  node = λ p.
      if eqb p (codes "/a/f")
      then some (file (codes "text"))
      else if eqb p (codes "/b")
      then some dir
      else none;
  readable = λ p. true;
  writable = λ p. true;
  removable = λ p. true;
  room = λ p. 1000;
}

copyable : IsCopyable stocked (codes "/a/f") (codes "/b/g") (codes "text")
unfolding path_dir clean clean_elements is_abs up_to_slash has_prefix split cons_head join eqb codes
copyable = record {
  source = refl;
  readable = refl;
  free = refl;
  folder = refl;
  writable = refl;
  rereadable = refl;
}

copy_file_copies_example :
    ((copy_file (codes "/a/f") (codes "/b/g") stocked).0 ≡ ok tt)
    × (read_file (copy_file (codes "/a/f") (codes "/b/g") stocked).1 (codes "/b/g")
        ≡ ok (take (stocked.room (codes "/b/g")) (codes "text")))
    × (length (codes "text") ≤ stocked.room (codes "/b/g")
        → read_file (copy_file (codes "/a/f") (codes "/b/g") stocked).1 (codes "/b/g")
          ≡ ok (codes "text"))
    × (read_file (copy_file (codes "/a/f") (codes "/b/g") stocked).1 (codes "/a/f")
        ≡ ok (codes "text"))
    × ((p : Bytes)
        → p ≢ codes "/b/g"
        → (copy_file (codes "/a/f") (codes "/b/g") stocked).1.node p ≡ stocked.node p)
copy_file_copies_example =
    copy_file_copies stocked (codes "/a/f") (codes "/b/g") (codes "text") copyable

-- A layer that hides a file of the layers below.
abbrev whiteout : Header
whiteout = record {
  name = codes "d/.wh.f";
  linkname = [];
  typeflag = type_reg;
  content = [];
  failure = none;
}

-- Two folders, of which the second has the first name that CreateTempDir tries.
abbrev crowded : World
crowded = record {
  node = λ p.
      if eqb p (codes "/t") then some dir else if eqb p (codes "/t/r0") then some dir else none;
  readable = λ p. true;
  writable = λ p. true;
  removable = λ p. true;
  room = λ p. 1000;
}

abbrev machine : Machine
machine = record {
  sha256 = λ c. c;
  other_size = λ n. 0;
  random = λ w i. b'r' ∷ (b'0' + i) ∷ [];
  rounds = 3;
}

create_temp_dir_ends_example :
    (j : ℕ) × (j ≤ 1)
    × ((k : ℕ)
        → k < j
        → folder_exist crowded (below (codes "/t") (machine.random crowded k)) ≡ true)
    × (folder_exist crowded (below (codes "/t") (machine.random crowded j)) ≡ false)
    × (create_temp_dir machine (codes "/t") crowded ≡ (
      ok (below (codes "/t") (machine.random crowded j)),
      put crowded (below (codes "/t") (machine.random crowded j)) (some dir),
    ))
unfolding folder_exist file_type codes eqb
create_temp_dir_ends_example =
    create_temp_dir_ends machine (codes "/t") crowded 1 refl (omega arith) refl
      (λ j f. (ground (arith, f), refl))

untar_entries-layer_entry_example :
    untar_entries
      (untar_entry (codes "/t/"))
      (stream
        (layer_entry crowded (codes "/s") (codes "/s/l") (symlink (codes "target")) ([], ok tt)).0)
      crowded
    ≡ (ok tt, put crowded (path_join (codes "/t/") (codes "/l")) (some (symlink (codes "target"))))
unfolding path_join clean clean_elements is_abs split cons_head join eqb codes has_prefix
    without_prefix
untar_entries-layer_entry_example =
    untar_entries-layer_entry crowded crowded (codes "/s") (codes "/s/l") (codes "/t/")
      (codes "target") refl refl
