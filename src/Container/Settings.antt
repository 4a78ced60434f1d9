-- ===== src/Container/Settings.antt =====
-- What Set of container/container.go stores for a container is what getMap and getExec read.
use lpmx.Base.{◌≡◌, refl, ap, sym, ◌∙◌, false, some, [], ◌++◌, map, arith, inl, inr, if◌then◌else◌}
use mathlib.Core.Path.{ap₂, subst}
use lpmx.Base.Text.{Bytes, codes, eqb, eqb_refl}
use lpmx.Base.Strings.{to_lower, trim_space}
use lpmx.Base.Dict.{Dict, lookup}
use lpmx.Base.Result.{Result, ok}
use lpmx.Base.World.{World, Go, pure, ◌>>◌, >>=-ok, write_file, resolve, resolve-write_file}
use lpmx.Utils.Files.{read_from_file}
use lpmx.FileCache.Store.{FileCacheInst, f_init_server, f_get_str_value, f_set_value}
use lpmx.FileCache.Access.{IsReady, IsPlain, get-set, set_of_text, set_of_free}
use lpmx.Container.Config.{Host, get_config_dir, IsElsewhere, get_config_dir-write_file}
use lpmx.Container.Sys.{
  Scalar, text, fields, Sys, Codec, unmarshal_obj, info_of, IsApart, read_file-apart,
  file_exist-apart, resolve-apart,
}
use lpmx.Container.Maps.{
  add_map, remove_map, add_exec, remove_exec, sys_dir, mapmap, execmap, as_text, change, load,
  at_file, set_map, get_map, set_exec, get_exec, set, set_entry, switch,
}

adds_map : eqb add_map remove_map ≡ false
unfolding eqb add_map remove_map codes
adds_map = refl

adds_exec : eqb add_exec remove_exec ≡ false
unfolding eqb add_exec remove_exec codes
adds_exec = refl

switch_map :
    (h : Host) (c : Codec Sys) (id name value : Bytes)
    → switch h c id add_map name value ≡ set_map h c id add_map name value
unfolding switch eqb add_map remove_map add_exec remove_exec codes
switch_map h c id name value = refl

switch_exec :
    (h : Host) (c : Codec Sys) (id name value : Bytes)
    → switch h c id add_exec name value ≡ set_exec h c id add_exec name value
unfolding switch eqb add_map remove_map add_exec remove_exec codes
switch_exec h c id name value = refl

-- A file that is read leaves the machine.
pub unmarshal_obj_loaded :
    {A : Type 0} (c : Codec A) (cfg : Bytes) (r : Result A) (w : World)
    → (unmarshal_obj c cfg w).0 ≡ r
    → unmarshal_obj c cfg w ≡ (r, w)
unfolding unmarshal_obj read_from_file
unmarshal_obj_loaded {A = A} c cfg r w e =
    let same : (unmarshal_obj c cfg w).1 ≡ w = ground arith in
    ap₂ (λ (q : Result A) (v : World). (q, v)) e same

module _ (h : Host) (c : Codec Sys) (id cfg : Bytes) where
  -- The registry below `dir` lists the container, whose settings are below `cfg`.
  pub record IsListed (dir : Bytes) (w : World) : Type 0 where
    pub sys : Sys
    pub found : (get_config_dir h w).0 ≡ ok dir
    pub loaded : (unmarshal_obj c (sys_dir dir) w).0 ≡ ok sys
    pub entry : Dict Scalar
    pub listed : lookup id sys.containers ≡ some (fields entry)
    pub config : lookup (codes "ConfigPath") entry ≡ some (text cfg)

  unmarshal_obj-state : (dir : Bytes) (w : World) → (unmarshal_obj c dir w).1 ≡ w
  unfolding unmarshal_obj read_from_file
  unmarshal_obj-state dir w = ground arith

  unmarshal_obj-apart :
      (dir p s : Bytes) (w : World)
      → IsApart w p (info_of dir)
      → (unmarshal_obj c dir (write_file w p s)).0 ≡ (unmarshal_obj c dir w).0
  unfolding unmarshal_obj read_from_file
  unmarshal_obj-apart dir p s w a =
      ground (arith, file_exist-apart w p (info_of dir) s a, read_file-apart w p (info_of dir) s a)

  IsListed-write_file :
      (dir p s : Bytes) (w : World)
      → IsApart w p (info_of (sys_dir dir))
      → IsElsewhere h (resolve w p)
      → IsListed dir w
      → IsListed dir (write_file w p s)
  IsListed-write_file dir p s w a e l = record {
    sys = l.sys;
    found = get_config_dir-write_file h w p s e ∙ l.found;
    loaded = unmarshal_obj-apart (sys_dir dir) p s w a ∙ l.loaded;
    entry = l.entry;
    listed = l.listed;
    config = l.config;
  }

  pub unmarshal_obj_ok :
      (dir : Bytes) (w : World) (r : Result Sys)
      → (unmarshal_obj c dir w).0 ≡ r
      → unmarshal_obj c dir w ≡ (r, w)
  unmarshal_obj_ok dir w r e =
      ap₂ (λ (q : Result Sys) (v : World). (q, v)) e (unmarshal_obj-state dir w)

  pub get_config_dir_ok :
      (w : World) (r : Result Bytes) → (get_config_dir h w).0 ≡ r → get_config_dir h w ≡ (r, w)
  unfolding get_config_dir
  get_config_dir_ok w r e = ap (λ (q : Result Bytes). (q, w)) e

  load_ok : (dir : Bytes) (w : World) (l : IsListed dir w) → load h c w ≡ (ok l.sys, w)
  unfolding load
  load_ok dir w l =
      >>=-ok (get_config_dir h) (λ d. unmarshal_obj c (sys_dir d)) w dir w
        (get_config_dir_ok w (ok dir) l.found)
      ∙ unmarshal_obj_ok (sys_dir dir) w (ok l.sys) l.loaded

  -- The cache file of the container.
  abbrev pub cache : Bytes → FileCacheInst
  cache suffix = record { file_path = cfg ++ suffix }

  get_map_ok :
      (dir k : Bytes) (w : World)
      → IsListed dir w
      → get_map h c id k w ≡ f_get_str_value (cache mapmap) k w
  unfolding get_map f_init_server at_file as_text
  get_map_ok dir k w l = rw (load_ok dir w l, l.listed, l.config) refl

  get_exec_ok :
      (dir k : Bytes) (w : World)
      → IsListed dir w
      → get_exec h c id k w ≡ f_get_str_value (cache execmap) k w
  unfolding get_exec f_init_server at_file as_text
  get_exec_ok dir k w l = rw (load_ok dir w l, l.listed, l.config) refl

  change_adds :
      (fc : FileCacheInst) (adds removes name value : Bytes)
      → eqb adds removes ≡ false
      → change adds removes fc adds name value ≡ (f_set_value fc name value >> pure tt)
  unfolding change
  change_adds fc adds removes name value n = rw (eqb_refl adds, n) refl

  set_map_ok :
      (dir name value : Bytes) (w : World)
      → IsListed dir w
      → set_map h c id add_map name value w ≡ (f_set_value (cache mapmap) name value >> pure tt) w
  unfolding set_map f_init_server at_file as_text
  set_map_ok dir name value w l =
      rw (load_ok dir w l, l.listed, l.config)
        (ap (λ (m : Go (Unit {0})). m w)
          (change_adds (cache mapmap) add_map remove_map name value adds_map))

  set_exec_ok :
      (dir name value : Bytes) (w : World)
      → IsListed dir w
      → set_exec h c id add_exec name value w
        ≡ (f_set_value (cache execmap) name value >> pure tt) w
  unfolding set_exec f_init_server at_file as_text
  set_exec_ok dir name value w l =
      rw (load_ok dir w l, l.listed, l.config)
        (ap (λ (m : Go (Unit {0})). m w)
          (change_adds (cache execmap) add_exec remove_exec name value adds_exec))

  -- Neither the registry nor the program stands where the cache file does, which can be worked with.
  pub record IsUsable (dir : Bytes) (w : World) (p : Bytes) : Type 0 where
    pub ready : IsReady w p
    pub apart : IsApart w p (info_of (sys_dir dir))
    pub elsewhere : IsElsewhere h (resolve w p)

  IsApart-write_file : (p q s : Bytes) (w : World) → IsApart w p q → IsApart (write_file w p s) p q
  IsApart-write_file p q s w a = record {
    path = rw (resolve-write_file w p s) a.path;
    target = rw (resolve-write_file w p s, resolve-apart w p q s a) a.target;
  }

  -- FSetValue returns, and the container is still listed.
  set_keeps :
      (dir p name value : Bytes) (w : World)
      → IsUsable dir w p
      → IsListed dir w
      → (w' : World) × (f_set_value (record { file_path = p }) name value w ≡ (ok tt, w'))
        × IsListed dir w'
  set_keeps dir p name value w u l = by_case u.ready
    where
      fc : FileCacheInst
      fc = record { file_path = p }

      by_case :
          IsReady w p → (w' : World) × (f_set_value fc name value w ≡ (ok tt, w')) × IsListed dir w'
      by_case (inl (s, holds)) = (
        _,
        set_of_text fc name value s w holds,
        IsListed-write_file dir p _ w u.apart u.elsewhere l,
      )
      by_case (inr free) = (
        _,
        set_of_free fc name value w free,
        IsListed-write_file dir p _ (write_file w p [])
            (IsApart-write_file p (info_of (sys_dir dir)) [] w u.apart)
            (subst (λ q. IsElsewhere h q) (sym (resolve-write_file w p [])) u.elsewhere)
            (IsListed-write_file dir p [] w u.apart u.elsewhere l),
      )

  add_returns :
      (suffix dir name value : Bytes) (w w' : World)
      → f_set_value (cache suffix) name value w ≡ (ok tt, w')
      → (f_set_value (cache suffix) name value >> pure (tt {0})) w ≡ (ok (tt {0}), w')
  add_returns suffix dir name value w w' e =
      >>=-ok (f_set_value (cache suffix) name value) (λ _. pure (tt {0})) w tt w' e

  set_to_map :
      (dir tp name value : Bytes) (w : World)
      → IsListed dir w
      → map to_lower (trim_space tp) ≡ add_map
      → set h c id tp name value w ≡ set_map h c id add_map name value w
  unfolding set set_entry
  set_to_map dir tp name value w l t =
      >>=-ok (load h c) (λ s. set_entry h c id (lookup id s.containers) tp name value) w l.sys w
        (load_ok dir w l)
      ∙ rw (l.listed, t) (ap (λ (m : Go (Unit {0})). m w) (switch_map h c id name value))

  set_to_exec :
      (dir tp name value : Bytes) (w : World)
      → IsListed dir w
      → map to_lower (trim_space tp) ≡ add_exec
      → set h c id tp name value w ≡ set_exec h c id add_exec name value w
  unfolding set set_entry
  set_to_exec dir tp name value w l t =
      >>=-ok (load h c) (λ s. set_entry h c id (lookup id s.containers) tp name value) w l.sys w
        (load_ok dir w l)
      ∙ rw (l.listed, t) (ap (λ (m : Go (Unit {0})). m w) (switch_exec h c id name value))

  -- Set of `add_map`, in any case and with spaces around it, returns if the container is listed and
  -- its file of maps can be worked with, apart from the registry and the program. With a plain name
  -- and a plain value, getMap then returns the value for the name, and for any other name what it
  -- returned before.
  pub get_map-set :
      (dir tp name value k : Bytes) (w : World)
      → IsListed dir w
      → map to_lower (trim_space tp) ≡ add_map
      → IsUsable dir w (cfg ++ mapmap)
      → IsPlain name
      → IsPlain value
      → ((set h c id tp name value w).0 ≡ ok tt)
        × ((get_map h c id k (set h c id tp name value w).1).0
            ≡ (if eqb name k then ok value else (get_map h c id k w).0))
  get_map-set dir tp name value k w l t u pn pv =
      let (w', e, l') = set_keeps dir (cfg ++ mapmap) name value w u l in
      let done =
        set_to_map dir tp name value w l t
        ∙ (set_map_ok dir name value w l ∙ add_returns mapmap dir name value w w' e) in
      let law = get-set (cache mapmap) name value k w u.ready pn pv in
      rw (done, get_map_ok dir k w' l', get_map_ok dir k w l) (refl, (rw e at law.1))

  -- Set of `add_exec`, in any case and with spaces around it, returns if the container is listed and
  -- its file of executables can be worked with, apart from the registry and the program. With a plain
  -- name and a plain value, getExec then returns the value for the name, and for any other name what
  -- it returned before.
  get_exec-set :
      (dir tp name value k : Bytes) (w : World)
      → IsListed dir w
      → map to_lower (trim_space tp) ≡ add_exec
      → IsUsable dir w (cfg ++ execmap)
      → IsPlain name
      → IsPlain value
      → ((set h c id tp name value w).0 ≡ ok tt)
        × ((get_exec h c id k (set h c id tp name value w).1).0
            ≡ (if eqb name k then ok value else (get_exec h c id k w).0))
  get_exec-set dir tp name value k w l t u pn pv =
      let (w', e, l') = set_keeps dir (cfg ++ execmap) name value w u l in
      let done =
        set_to_exec dir tp name value w l t
        ∙ (set_exec_ok dir name value w l ∙ add_returns execmap dir name value w w' e) in
      let law = get-set (cache execmap) name value k w u.ready pn pv in
      rw (done, get_exec_ok dir k w' l', get_exec_ok dir k w l) (refl, (rw e at law.1))
