-- ===== src/Container/Refresh.antt =====
-- refreshElf of container/container.go: a change of a binary that the settings ask for.
use lpmx.Base.{
  ◌≡◌, refl, sym, ap, ◌∙◌, Bool, true, false, List, [], ◌∷◌, ◌++◌, append_assoc, if◌then◌else◌,
}
use mathlib.Core.List.{reverse, reverse_aux}
use lpmx.Base.Text.{Bytes, codes, eqb, join}
use lpmx.Base.Strings.{trim_suffix, trim_suffix-append}
use lpmx.Base.Result.{Kind, Result, ok, err, panic, err_new}
use lpmx.Base.World.{World, Go, pure, fail, continue, ◌>>=◌}
use lpmx.Paeudo.{Exec}
use lpmx.Elf.Commands.{
  params, Param, set_rpath, elf_patch, elf_r_path, elf_remove_r_path, elf_add_needed,
  elf_remove_needed,
}

-- `if val, err := f(); val || err != nil { return err }`, and the rest of the function.
unfoldable pub return_if : Bool → Go (Unit {0}) → Go (Unit {0})
return_if true rest = pure tt
return_if false rest = rest

unfoldable pub unless : Go Bool → Go (Unit {0}) → Go (Unit {0})
unfolding return_if
unless f rest = do val ← f; return_if val rest

-- The loop of add_rpath.
unfoldable pub rpath_from : Bytes → List Bytes → Bytes
rpath_from rpath [] = rpath
rpath_from rpath (path ∷ value) = rpath_from (path ++ b':' ∷ rpath) value

unfoldable pub rpath_of : List Bytes → Bytes
unfolding rpath_from trim_suffix
rpath_of value = trim_suffix b':' (rpath_from [] value)

rpath_from-join :
    (path : Bytes) (done value : List Bytes)
    → rpath_from (join b':' (path ∷ done) ++ b':' ∷ []) value
      ≡ join b':' (reverse_aux value (path ∷ done)) ++ b':' ∷ []
unfolding rpath_from join
rpath_from-join path done [] = refl
rpath_from-join path done (q ∷ value) =
    ap (λ (s : Bytes). rpath_from s value)
      (sym (append_assoc q (b':' ∷ join b':' (path ∷ done)) (b':' ∷ [])))
    ∙ rpath_from-join q (path ∷ done) value

-- The rpath is the paths, the last one first.
pub rpath_of-reverse : (value : List Bytes) → rpath_of value ≡ join b':' (reverse value)
unfolding rpath_of rpath_from join trim_suffix
rpath_of-reverse [] = refl
rpath_of-reverse (path ∷ value) =
    ap (trim_suffix b':') (rpath_from-join path [] value)
    ∙ trim_suffix-append b':' (join b':' (reverse_aux value (path ∷ [])))

module _ (run : Exec) (patcher : Bytes) where
  -- The loop of remove_rpath.
  unfoldable pub remove_rpaths : List Bytes → Bytes → Go (Unit {0})
  unfolding unless elf_remove_r_path
  remove_rpaths [] prog = pure tt
  remove_rpaths (path ∷ value) prog =
      unless (elf_remove_r_path run patcher path prog) (remove_rpaths value prog)

  -- refreshElf, of a container with the ElfPatcherPath `patcher`
  unfoldable pub refresh_elf : Bytes → List Bytes → Bytes → Go (Unit {0})
  unfolding unless rpath_of elf_r_path elf_add_needed elf_remove_needed remove_rpaths err_new
  refresh_elf key value prog =
      if eqb key (codes "add_rpath")
      then unless (elf_r_path run patcher (rpath_of value) prog) (pure tt)
      else if eqb key (codes "remove_rpath")
      then remove_rpaths value prog
      else if eqb key (codes "add_needed")
      then unless (elf_add_needed run patcher value prog) (pure tt)
      else if eqb key (codes "remove_needed")
      then unless (elf_remove_needed run patcher value prog) (pure tt)
      else fail (err_new Kind.n_exist (codes "key: " ++ key ++ codes " doesn't exist"))

  -- One run of patchelf.
  abbrev patched_once : List Bytes → Go (Unit {0})
  patched_once arg = elf_patch run patcher arg >>= λ out. pure tt

module _ (run : Exec) (patcher : Bytes) where
  unless_patched :
      (arg : List Bytes) (rest : Go (Unit {0})) (w : World)
      → unless (elf_patch run patcher arg >>= λ out. pure true) rest w
        ≡ patched_once run patcher arg w
  unfolding unless return_if
  unless_patched arg rest w =
      by_case (elf_patch run patcher arg w).0 (elf_patch run patcher arg w).1
    where
      by_case :
          (r : Result Bytes) (v : World)
          → (let x = continue r (λ out. pure true) v in
              continue x.0 (λ val. return_if val rest) x.1)
            ≡ continue r (λ out. pure tt) v
      by_case (ok s) v = refl
      by_case (err e) v = refl
      by_case panic v = refl

  -- refreshElf with `add_rpath` is one run of patchelf, which sets the rpath to the paths joined by
  -- colons, the last one first. It returns nothing if that run succeeds, and its error if it fails.
  refresh_elf-add_rpath :
      (value : List Bytes) (prog : Bytes) (w : World)
      → refresh_elf run patcher (codes "add_rpath") value prog w
        ≡ patched_once run patcher (params set_rpath ∷ join b':' (reverse value) ∷ prog ∷ []) w
  unfolding refresh_elf eqb codes elf_r_path
  refresh_elf-add_rpath value prog w =
      rw (rpath_of-reverse value)
        (unless_patched (params set_rpath ∷ join b':' (reverse value) ∷ prog ∷ []) (pure tt) w)

  -- refreshElf with `remove_rpath` and at least one path is one run of patchelf, for the first path:
  -- the other paths are dropped, whether the run succeeds or fails.
  refresh_elf-remove_rpath :
      (path : Bytes) (value : List Bytes) (prog : Bytes) (w : World)
      → refresh_elf run patcher (codes "remove_rpath") (path ∷ value) prog w
        ≡ patched_once run patcher (params Param.remove_rpath ∷ path ∷ prog ∷ []) w
  unfolding refresh_elf eqb codes remove_rpaths elf_remove_r_path
  refresh_elf-remove_rpath path value prog w =
      unless_patched (params Param.remove_rpath ∷ path ∷ prog ∷ [])
        (remove_rpaths run patcher value prog) w
