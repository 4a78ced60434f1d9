-- ===== src/Container/Given.antt =====
-- What genEnv of container/container.go returns: the variables that its caller gives.
use lpmx.Base.{
  ◌≡◌, refl, ap, ◌∙◌, true, false, Option, none, some, List, [], ◌∷◌, ◌++◌, All, arith,
  if◌then◌else◌, Bool-cases, inl, inr, ◌==◌, ◌≢◌, ℕ,
}
use lpmx.Base.Text.{
  Bytes, codes, eqb, eqb_iff, has_prefix, contains, split, cons_head, split-ne-nil,
}
use lpmx.Base.Dict.{Dict, lookup, insert, lookup-insert, IsMap}
use lpmx.Base.Paths.{below}
use lpmx.Base.Result.{Result, ok, panic}
use lpmx.Base.World.{World, pure, >>=-ok, os_remove, opens, write_file, ignoring, ignoring_ok}
use lpmx.Utils.Files.{file_exist}
use lpmx.Utils.Folders.{remove_file, explain, explained}
use lpmx.Container.Config.{Host, get_config_dir}
use lpmx.Container.Append.{Container}
use lpmx.Container.Maps.{sys_dir}
use lpmx.Container.Environ.{
  Environ, own_env, machine_env, add_library_path, export_env, elf_loader, exclude_paths,
  insert_pair, import_env, write_env, engine_env, with_given, gen_env, exclude_root, env_text,
}

-- A key of the first map, or else of the second.
abbrev pub or_else {ℓ} : {A : Type ℓ} → Option A → Option A → Option A
or_else (some a) d = some a
or_else none d = d

-- The variables that are given, but `engine`, take the place of those that were there.
lookup-with_given :
    (k : Bytes) (env envmap : Dict Bytes)
    → IsMap envmap
    → lookup k (with_given env envmap)
      ≡ (if eqb k (codes "engine") then lookup k env else or_else (lookup k envmap) (lookup k env))
unfolding with_given lookup
lookup-with_given k env [] m = ground arith
lookup-with_given k env ((j, v) ∷ envmap) (n, m) =
    let ih =
      lookup-with_given k (if eqb j (codes "engine") then env else insert j v env) envmap m in
    let li = lookup-insert j k v env in
    ih ∙ elim (Bool-cases (eqb j (codes "engine"))) [
      | inl e ↦ ground (arith, eqb_iff j k, eqb_iff j (codes "engine"), n)
      | inr e ↦ rw (e, li) (ground (arith, eqb_iff j k, eqb_iff j (codes "engine"), n))
    ]

headed : (ps : List Bytes) → ps ≢ [] → (p : Bytes) × (rest : List Bytes) × (ps ≡ p ∷ rest)
headed [] n = absurd (n refl)
headed (p ∷ rest) n = (p, rest, refl)

-- A text with the separator has two pieces at least.
split_pieces :
    (sep : ℕ) (s : Bytes)
    → contains sep s ≡ true
    → (k : Bytes) × (v : Bytes) × (rest : List Bytes) × (split sep s ≡ k ∷ v ∷ rest)
unfolding contains split cons_head
split_pieces sep [] h = absurd (ground arith)
split_pieces sep (c ∷ s) h = elim (Bool-cases (c == sep)) [
  | inl e ↦
      let (v, rest, f) = headed (split sep s) (split-ne-nil sep s) in
      rw e ([], v, rest, ap (λ ps. [] ∷ ps) f)
  | inr e ↦
      let (k, v, rest, f) = split_pieces sep s (ground arith) in
      rw e (c ∷ k, v, rest, ap (cons_head c) f)
]

import_env-returns :
    (prefix : Bytes) (strs : List Bytes) (env : Dict Bytes) (w : World)
    → All (λ str. contains b'=' str ≡ true) strs
    → (env' : Dict Bytes) × (import_env prefix strs env w ≡ (ok env', w))
unfolding import_env insert_pair
import_env-returns prefix [] env w a = (env, refl)
import_env-returns prefix (str ∷ strs) env w (h, a) = elim (Bool-cases (has_prefix str prefix)) [
  | inl e ↦
      let (k, v, rest, f) = split_pieces b'=' str h in
      rw (e, f) (import_env-returns prefix strs (insert k v env) w a)
  | inr e ↦ rw e (import_env-returns prefix strs env w a)
]

engine_env-returns :
    (o : Environ) (engine : Bytes) (v : Option Bytes) (env : Dict Bytes) (w : World)
    → All (λ str. contains b'=' str ≡ true) o.environ
    → (env' : Dict Bytes) × (engine_env o engine v env w ≡ (ok env', w))
unfolding engine_env
engine_env-returns o engine none env w a = (env, refl)
engine_env-returns o [] (some v) env w a = (env, refl)
engine_env-returns o (c ∷ engine) (some v) env w a =
    let (env', e) =
      import_env-returns (c ∷ engine) o.environ
        (insert (codes "FAKECHROOT_ENGINE_TYPE") (c ∷ engine)
          (insert (codes "FAKECHROOT_ENGINE") (codes "TRUE") env))
        w a in
    (exclude_root (o.lookup_env ((c ∷ engine) ++ codes "_ROOT")) env', rw e refl)

remove_file-ne-panic : (p : Bytes) (w : World) → (remove_file p w).0 ≢ panic
unfolding remove_file explain explained os_remove
remove_file-ne-panic p w = ground arith

absent_first :
    (env_path : Bytes) (w : World)
    → (w' : World) × ((if file_exist w env_path then ignoring (remove_file env_path) else pure tt) w
        ≡ (ok tt, w'))
absent_first env_path w = elim (Bool-cases (file_exist w env_path)) [
  | inl e ↦ (
    (remove_file env_path w).1,
    rw e (ignoring_ok (remove_file env_path) w (remove_file-ne-panic env_path w)),
  )
  | inr e ↦ (w, rw e refl)
]

write_env-returns :
    (env_path : Bytes) (strs : List Bytes) (w : World)
    → (w' : World) × (write_env env_path strs w ≡ (ok tt, w'))
unfolding write_env
write_env-returns env_path strs w =
    let (w1, e) = absent_first env_path w in
    (
      (if opens w1 env_path then write_file w1 env_path (env_text strs) else w1),
      >>=-ok (λ v. (if file_exist v env_path then ignoring (remove_file env_path) else pure tt) v) _
          w tt w1 e,
    )

-- The settings name no variables, loader or paths.
pub record IsBare (con : Container) : Type 0 where
  pub no_env : lookup (codes "export_env") con.setting_conf ≡ none
  pub no_loader : lookup (codes "fakechroot_elfloader") con.setting_conf ≡ none
  pub no_paths : lookup (codes "fakechroot_exclude_ex_path") con.setting_conf ≡ none

-- genEnv returns if the configuration is found, the settings name no variables, loader or paths,
-- and every variable of the host has an equals sign. Every variable of its map argument, but
-- `engine`, then has the value that is given, whatever the host and the container say.
pub gen_env-given :
    (h : Host) (o : Environ) (con : Container) (envmap : Dict Bytes) (dir : Bytes) (w : World)
    → get_config_dir h w ≡ (ok dir, w)
    → IsBare con
    → All (λ str. contains b'=' str ≡ true) o.environ
    → IsMap envmap
    → (env : Dict Bytes) × ((gen_env h o con envmap w).0 ≡ ok env)
      × ((k v : Bytes)
          → lookup k envmap ≡ some v
          → eqb k (codes "engine") ≡ false
          → lookup k env ≡ some v)
unfolding gen_env export_env elf_loader exclude_paths
gen_env-given h o con envmap dir w g b a m =
    let env0 = machine_env con dir o.executable (own_env con) in
    let env = add_library_path (sys_dir dir) env0 in
    let (env3, e3) = import_env-returns (codes "FAKECHROOT_") o.environ env w a in
    let (w', ew) = write_env-returns (below con.config_path (codes ".env")) o.environ w in
    let (env4, e4) = engine_env-returns o con.engine (lookup (codes "engine") envmap) env3 w' a in
    let done =
      >>=-ok (get_config_dir h) _ w dir w g
      ∙ (>>=-ok (export_env con (lookup (codes "export_env") con.setting_conf) env0) _ w env0 w
            (ap (λ x. export_env con x env0 w) b.no_env)
          ∙ (>>=-ok (elf_loader con (lookup (codes "fakechroot_elfloader") con.setting_conf) env) _
                w env w (ap (λ x. elf_loader con x env w) b.no_loader)
              ∙ (>>=-ok
                    (exclude_paths (lookup (codes "fakechroot_exclude_ex_path") con.setting_conf)
                      env)
                    _ w env w (ap (λ x. exclude_paths x env w) b.no_paths)
                  ∙ (>>=-ok (import_env (codes "FAKECHROOT_") o.environ env) _ w env3 w e3
                      ∙ (>>=-ok (write_env (below con.config_path (codes ".env")) o.environ) _ w tt
                            w' ew
                          ∙ >>=-ok (engine_env o con.engine (lookup (codes "engine") envmap) env3)
                              (λ env5. pure (with_given env5 envmap)) w' env4 w' e4))))) in
    (
      with_given env4 envmap,
      ap (λ (x : Result (Dict Bytes) × World). x.0) done,
      λ k v f n. lookup-with_given k env4 envmap m ∙ rw (n, f) refl,
    )
