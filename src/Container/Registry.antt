-- ===== src/Container/Registry.antt =====
-- The registry of containers as a file: what stays of it when it is stored and when folders go.
use lpmx.Base.{
  ◌≡◌, refl, ap, sym, ◌∙◌, true, false, List, [], ◌∷◌, arith, All, inl, inr, Bool-cases,
}
use mathlib.Core.Path.{subst}
use lpmx.Base.Text.{Bytes, eqb, split}
use lpmx.Base.Paths.{below}
use lpmx.Base.Result.{Result, ok, err, panic, ◌>>=◌}
use lpmx.Base.World.{
  World, write_file, resolve, resolve-write_file, opens, opens-write_file, put, read_file,
  read_file-write_file, is_within, clear, os_remove_all,
}
use lpmx.Utils.Files.{
  file_exist, file_type, regular_file_exist, write_to_file, read_from_file, file_exist-write_file,
}
use lpmx.Utils.Folders.{remove_all, explain}
use lpmx.Container.Config.{
  Host, get_config_dir, get_curr_dir, config_of, locate, IsElsewhere, get_config_dir-write_file,
}
use lpmx.Container.Sys.{Sys, Codec, unmarshal_obj, struct_unmarshal, info_of}
use lpmx.Container.Maps.{sys_dir}
use lpmx.Container.Append.{save}

-- The registry below `dir` is `sys`, says itself where it is, and can be written.
pub record IsRegistry (h : Host) (c : Codec Sys) (dir : Bytes) (sys : Sys) (w : World)
    : Type 0 where
  pub found : (get_config_dir h w).0 ≡ ok dir
  pub loaded : (unmarshal_obj c (sys_dir dir) w).0 ≡ ok sys
  pub placed : sys.root_dir ≡ sys_dir dir
  pub can_write : opens w (info_of (sys_dir dir)) ≡ true
  pub can_read : w.readable (resolve w (info_of (sys_dir dir))) ≡ true
  pub elsewhere : IsElsewhere h (resolve w (info_of (sys_dir dir)))

pub write_ok :
    (s p : Bytes) (w : World) → opens w p ≡ true → write_to_file s p w ≡ (ok tt, write_file w p s)
unfolding write_to_file
write_ok s p w o = rw (o, write_to_file) refl

module _ (h : Host) (c : Codec Sys) (dir : Bytes) (sys : Sys) (w : World)
    (g : IsRegistry h c dir sys w) where
  -- The machine when `sys'` is stored.
  unfoldable pub stored : Sys → World
  unfolding write_file
  stored sys' = write_file w (info_of (sys_dir dir)) (c.marshal sys')

  pub save-stored :
      (sys' : Sys) → sys'.root_dir ≡ sys.root_dir → save c sys' w ≡ (ok tt, stored sys')
  unfolding save stored
  save-stored sys' e =
      ap (λ (p : Bytes). write_to_file (c.marshal sys') (info_of p) w) (e ∙ g.placed)
      ∙ write_ok (c.marshal sys') (info_of (sys_dir dir)) w g.can_write

  loaded-stored : (sys' : Sys) → (unmarshal_obj c (sys_dir dir) (stored sys')).0 ≡ ok sys'
  unfolding unmarshal_obj read_from_file struct_unmarshal stored
  loaded-stored sys' = ground (
    arith,
    file_exist-write_file w (info_of (sys_dir dir)) (c.marshal sys') g.can_write,
    read_file-write_file w (info_of (sys_dir dir)) (c.marshal sys') g.can_read,
    c.unmarshal-marshal sys',
  )

  pub stored-IsRegistry :
      (sys' : Sys) → sys'.root_dir ≡ sys.root_dir → IsRegistry h c dir sys' (stored sys')
  unfolding stored
  stored-IsRegistry sys' e =
      let p = info_of (sys_dir dir) in
      record {
        found = get_config_dir-write_file h w p (c.marshal sys') g.elsewhere ∙ g.found;
        loaded = loaded-stored sys';
        placed = e ∙ g.placed;
        can_write = opens-write_file w p (c.marshal sys') g.can_write;
        can_read =
            rw (resolve-write_file w p (c.marshal sys')) (unfold write_file put in g.can_read);
        elsewhere =
            subst (λ q. IsElsewhere h q) (sym (resolve-write_file w p (c.marshal sys')))
              g.elsewhere;
      }

-- Neither the registry nor the program is below `root`.
pub record IsOutside (h : Host) (dir root : Bytes) (w : World) : Type 0 where
  pub info : is_within root (info_of (sys_dir dir)) ≡ false
  pub target : is_within root (resolve w (info_of (sys_dir dir))) ≡ false
  pub program :
      (cwd : Bytes)
      → h.cwd ≡ ok cwd
      → All (λ d. is_within root (below d h.filename) ≡ false) (cwd ∷ split b':' h.path)

node-clear :
    (w : World) (root q : Bytes) → is_within root q ≡ false → (clear w root).node q ≡ w.node q
unfolding clear
node-clear w root q e = rw e refl

module _ (w : World) (root q : Bytes) (a : is_within root q ≡ false)
    (b : is_within root (resolve w q) ≡ false) where
  resolve-clear : resolve (clear w root) q ≡ resolve w q
  unfolding resolve
  resolve-clear = ground (arith, node-clear w root q a)

  read_file-clear : read_file (clear w root) q ≡ read_file w q
  unfolding read_file clear
  read_file-clear = ground (arith, resolve-clear, b)

  opens-clear : opens (clear w root) q ≡ opens w q
  unfolding opens clear
  opens-clear = ground (arith, resolve-clear, b)

  file_exist-clear : file_exist (clear w root) q ≡ file_exist w q
  unfolding file_exist file_type
  file_exist-clear = ground (arith, node-clear w root q a)

locate-clear :
    (filename : Bytes) (dirs : List Bytes) (w : World) (root : Bytes)
    → All (λ d. is_within root (below d filename) ≡ false) dirs
    → locate filename dirs (clear w root) ≡ locate filename dirs w
unfolding locate regular_file_exist file_type
locate-clear filename [] w root h = refl
locate-clear filename (d ∷ dirs) w root (n, h) =
    ground (arith, node-clear w root (below d filename) n, locate-clear filename dirs w root h)

get_config_dir-clear :
    (h : Host) (w : World) (root : Bytes)
    → ((cwd : Bytes)
        → h.cwd ≡ ok cwd
        → All (λ d. is_within root (below d h.filename) ≡ false) (cwd ∷ split b':' h.path))
    → (get_config_dir h (clear w root)).0 ≡ (get_config_dir h w).0
unfolding get_config_dir get_curr_dir
get_config_dir-clear h w root e = by_case h.cwd refl
  where
    by_case :
        (r : Result Bytes)
        → h.cwd ≡ r
        → (r
            >>= (λ cwd. locate h.filename (cwd ∷ split b':' h.path) (clear w root))
            >>= config_of h)
          ≡ (r >>= (λ cwd. locate h.filename (cwd ∷ split b':' h.path) w) >>= config_of h)
    by_case (ok cwd) f =
        ap (λ (r : Result Bytes). r >>= config_of h)
          (locate-clear h.filename (cwd ∷ split b':' h.path) w root (e cwd f))
    by_case (err x) f = refl
    by_case panic f = refl

module _ (h : Host) (c : Codec Sys) (dir : Bytes) (sys : Sys) (root : Bytes) (w : World) where
  loaded-clear :
      IsOutside h dir root w
      → (unmarshal_obj c (sys_dir dir) (clear w root)).0 ≡ (unmarshal_obj c (sys_dir dir) w).0
  unfolding unmarshal_obj read_from_file
  loaded-clear o =
      let p = info_of (sys_dir dir) in
      ground
        (arith, file_exist-clear w root p o.info o.target, read_file-clear w root p o.info o.target)

  clear-IsRegistry :
      IsOutside h dir root w → IsRegistry h c dir sys w → IsRegistry h c dir sys (clear w root)
  clear-IsRegistry o g =
      let p = info_of (sys_dir dir) in
      record {
        found = get_config_dir-clear h w root o.program ∙ g.found;
        loaded = loaded-clear o ∙ g.loaded;
        placed = g.placed;
        can_write = opens-clear w root p o.info o.target ∙ g.can_write;
        can_read = rw (resolve-clear w root p o.info o.target) (unfold clear in g.can_read);
        elsewhere =
            subst (λ q. IsElsewhere h q) (sym (resolve-clear w root p o.info o.target)) g.elsewhere;
      }

  -- The machine that RemoveAll leaves.
  pub removed-IsRegistry :
      IsOutside h dir root w
      → IsRegistry h c dir sys w
      → IsRegistry h c dir sys (remove_all root w).1
  unfolding remove_all explain os_remove_all
  removed-IsRegistry o g = elim (Bool-cases (eqb root [])) [
    | inl e ↦ rw (e, os_remove_all) g
    | inr e ↦ elim (Bool-cases (w.removable root)) [
      | inl f ↦ rw (e, f, os_remove_all) (clear-IsRegistry o g)
      | inr f ↦ rw (e, f, os_remove_all) g
    ]
  ]

  resolve-removed :
      IsOutside h dir root w
      → resolve (remove_all root w).1 (info_of (sys_dir dir)) ≡ resolve w (info_of (sys_dir dir))
  unfolding remove_all explain os_remove_all
  resolve-removed o = elim (Bool-cases (eqb root [])) [
    | inl e ↦ rw (e, os_remove_all) refl
    | inr e ↦ elim (Bool-cases (w.removable root)) [
      | inl f ↦
          rw (e, f, os_remove_all) (resolve-clear w root (info_of (sys_dir dir)) o.info o.target)
      | inr f ↦ rw (e, f, os_remove_all) refl
    ]
  ]

  pub removed-IsOutside :
      (root' : Bytes)
      → IsOutside h dir root w
      → IsOutside h dir root' w
      → IsOutside h dir root' (remove_all root w).1
  removed-IsOutside root' o o' = record {
    info = o'.info;
    target = rw (resolve-removed o) o'.target;
    program = o'.program;
  }
