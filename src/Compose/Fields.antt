-- ===== src/Compose/Fields.antt =====
-- How container/container.go takes the items of a validated app apart: nothing of it panics.
use lpmx.Base.{
  ℕ, ◌≡◌, ◌≢◌, refl, true, some, List, [], ◌∷◌, ◌++◌, map, ◌==◌, arith, All, All-append, ap, ◌∙◌,
  Bool-cases, inl, inr, fun_ext,
}
use lpmx.Base.Text.{
  Bytes, codes, contains, split, join, split-join, split-ne-nil, cons_head, split_pair, Lacks,
}
use lpmx.Base.Dict.{Dict, lookup, insert}
use lpmx.Base.Result.{ok}
use lpmx.Base.World.{World, Go, pure, ◌>>=◌}
use lpmx.FileCache.Items.{second, entry}
use lpmx.Compose.Validate.{AppLevel}
use lpmx.Compose.Checks.{Each, IsApp}
use lpmx.Compose.Run.{
  Engine, replace_colons, convert_map_value, first, two_parts, lift, fill_env, expose_all, attempt,
  download_if_missing, auto_download, run_compose_app,
}

some_piece : (ps : List Bytes) → ps ≢ [] → (p : Bytes) × (rest : List Bytes) × (ps ≡ p ∷ rest)
some_piece [] h = absurd (h refl)
some_piece (p ∷ ps) h = (p, ps, refl)

-- A text that holds the separator has a first and a second part.
contains-split :
    (sep : ℕ) (s : Bytes)
    → contains sep s ≡ true
    → (a : Bytes) × (b : Bytes) × (rest : List Bytes) × (split sep s ≡ a ∷ b ∷ rest)
unfolding contains split cons_head
contains-split sep [] h = ground arith
contains-split sep (c ∷ s) h = elim (Bool-cases (c == sep)) [
  | inl e ↦
      let (b, rest, f) = some_piece (split sep s) (split-ne-nil sep s) in
      ([], b, rest, rw (e, f) refl)
  | inr e ↦
      let (a, b, rest, f) = contains-split sep s (ground arith) in (c ∷ a, b, rest, rw (e, f) refl)
]

-- The pairs are the first two parts of the items.
abbrev pub AreParts : ℕ → List Bytes → List (Bytes × Bytes) → Type 0
AreParts sep [] [] = Unit {0}
AreParts sep [] (p ∷ ps) = ⊥
AreParts sep (x ∷ xs) [] = ⊥
AreParts sep (x ∷ xs) (p ∷ ps) =
    ((rest : List Bytes) × (split sep x ≡ p.0 ∷ p.1 ∷ rest)) × AreParts sep xs ps

parts_found :
    (sep : ℕ) (xs : List Bytes) → Each sep xs → (ps : List (Bytes × Bytes)) × AreParts sep xs ps
parts_found sep [] h = ([], tt)
parts_found sep (x ∷ xs) (p, h) =
    let (a, b, rest, f) = contains-split sep x p in
    let (ps, k) = parts_found sep xs h in ((a, b) ∷ ps, ((rest, f), k))

two_parts-split :
    (sep : ℕ) (s a b : Bytes) (rest : List Bytes)
    → split sep s ≡ a ∷ b ∷ rest
    → two_parts sep s ≡ pure (a, b)
unfolding two_parts lift first second
two_parts-split sep s a b rest f = rw f refl

-- The variables in order, so that the last value of a name counts.
abbrev pub variables : List (Bytes × Bytes) → Dict Bytes → Dict Bytes
variables [] m = m
variables (p ∷ ps) m = variables ps (insert p.0 p.1 m)

fill_env-variables :
    (es : List Bytes) (ps : List (Bytes × Bytes)) (m : Dict Bytes)
    → AreParts b'=' es ps
    → fill_env es m ≡ pure (variables ps m)
unfolding fill_env
fill_env-variables [] [] m k = refl
fill_env-variables [] (p ∷ ps) m k = elim k [ ]
fill_env-variables (e ∷ es) [] m k = elim k [ ]
fill_env-variables (e ∷ es) (p ∷ ps) m ((rest, f), k) =
    rw (two_parts-split b'=' e p.0 p.1 rest f) (fill_env-variables es ps (insert p.0 p.1 m) k)

module _ (g : Engine) where
  -- Expose of one pair after the other, up to the first failure.
  abbrev pub expose_pairs : Bytes → List (Bytes × Bytes) → Go (Unit {0})
  expose_pairs id [] = pure tt
  expose_pairs id (p ∷ ps) = g.expose id p.0 p.1 >>= λ done. expose_pairs id ps

  expose_all_pairs :
      (id : Bytes) (xs : List Bytes) (ps : List (Bytes × Bytes))
      → AreParts b':' xs ps
      → expose_all g id xs ≡ expose_pairs id ps
  unfolding expose_all
  expose_all_pairs id [] [] k = refl
  expose_all_pairs id [] (p ∷ ps) k = elim k [ ]
  expose_all_pairs id (x ∷ xs) [] k = elim k [ ]
  expose_all_pairs id (x ∷ xs) (p ∷ ps) ((rest, f), k) =
      rw (two_parts-split b':' x p.0 p.1 rest f) (
        ap (λ (rest : Go (Unit {0})). g.expose id p.0 p.1 >>= λ done. rest)
          (expose_all_pairs id xs ps k))

  -- runComposeApp on an app whose fields are written as the format wants them, for any functions
  -- that it calls: every item of env and of expose has a first and a second part, and with these
  -- it is autoDownload, then CommonComposeRun under the name from there with the variables in
  -- order, the last value of a name counting, then Expose of every pair in the new container up
  -- to the first failure. No item is indexed past its end.
  pub run_compose_app_lem :
      (e : AppLevel)
      → IsApp e
      → (envs : List (Bytes × Bytes)) × (exposes : List (Bytes × Bytes)) × AreParts b'=' e.env envs
        × AreParts b':' e.expose exposes
        × (run_compose_app g e
            ≡ auto_download g e >>= λ name.
                g.common_compose_run name e.name
                  (convert_map_value e.share)
                  (convert_map_value e.inject)
                  []
                  e.command
                  (variables envs [])
                >>= λ id. expose_pairs id exposes)
  unfolding run_compose_app
  run_compose_app_lem e a =
      let (envs, k) = parts_found b'=' e.env a.envs in
      let (exposes, k') = parts_found b':' e.expose a.exposes in
      (
        envs,
        exposes,
        k,
        k',
        rw (fill_env-variables e.env envs [] k) (
            ap
              (λ (last : Bytes → Go (Unit {0})). auto_download g e >>= λ name.
                g.common_compose_run name e.name (convert_map_value e.share)
                  (convert_map_value e.inject) [] e.command (variables envs [])
                >>= last)
              (fun_ext (λ id. expose_all_pairs id e.expose exposes k'))),
      )

-- If the image is in the list already, autoDownload returns the empty text as the name to run: it
-- does nothing but read the list.
auto_download_installed :
    (g : Engine) (e : AppLevel) (d i : Bytes) (images : Dict Bytes) (w w1 w2 : World)
    → g.get_config_dir w ≡ (ok d, w1)
    → g.load_images (d ++ codes "/.lpmxdata") w1 ≡ (ok images, w2)
    → lookup e.image images ≡ some i
    → auto_download g e w ≡ (ok [], w2)
unfolding auto_download attempt download_if_missing
auto_download_installed g e d i images w w1 w2 f h k = rw (f, h, k, download_if_missing) refl

-- A host path and its place, neither with a separator of the two formats.
record IsShare (kv : Bytes × Bytes) : Type 0 where
  pub key_colon : Lacks b':' kv.0
  pub key_equals : Lacks b'=' kv.0
  pub value_colon : Lacks b':' kv.1
  pub value_equals : Lacks b'=' kv.1

abbrev print_share : Bytes × Bytes → Bytes
print_share kv = kv.0 ++ b':' ∷ kv.1

abbrev parts_of : Bytes × Bytes → List Bytes
parts_of kv = kv.0 ∷ kv.1 ∷ []

replace_plain : (s : Bytes) → Lacks b':' s → replace_colons s ≡ s
unfolding replace_colons
replace_plain [] h = refl
replace_plain (c ∷ s) (p, h) = ground (arith, replace_plain s h)

replace_share :
    (k x : Bytes) → Lacks b':' k → Lacks b':' x → replace_colons (k ++ b':' ∷ x) ≡ k ++ b'=' ∷ x
unfolding replace_colons
replace_share [] x h l = ground (arith, replace_plain x l)
replace_share (c ∷ k) x (p, h) l = ground (arith, replace_share k x h l)

shares_replaced :
    (ps : List (Bytes × Bytes))
    → All IsShare ps
    → map replace_colons (map print_share ps) ≡ map (λ kv. entry kv.0 kv.1) ps
unfolding entry
shares_replaced [] h = refl
shares_replaced (p ∷ ps) (s, h) =
    rw (replace_share p.0 p.1 s.key_colon s.value_colon, shares_replaced ps h) refl

equals-ne-colon : ◌≢◌ {A = ℕ} b'=' b':'
equals-ne-colon = omega arith

entry-Lacks : (p : Bytes × Bytes) → IsShare p → Lacks b':' (entry p.0 p.1)
unfolding entry
entry-Lacks p s =
    All-append (λ c. c ≢ b':') p.0 (b'=' ∷ p.1) s.key_colon (equals-ne-colon, s.value_colon)

entries_lack :
    (ps : List (Bytes × Bytes)) → All IsShare ps → All (Lacks b':') (map (λ kv. entry kv.0 kv.1) ps)
entries_lack [] h = tt
entries_lack (p ∷ ps) (s, h) = (entry-Lacks p s, entries_lack ps h)

split_entries :
    (ps : List (Bytes × Bytes))
    → All IsShare ps
    → map (split b'=') (map (λ kv. entry kv.0 kv.1) ps) ≡ map parts_of ps
unfolding entry
split_entries [] h = refl
split_entries (p ∷ ps) (s, h) =
    rw (split_pair b'=' p.0 p.1 s.key_equals s.value_equals, split_entries ps h) refl

convert_split :
    (ps : List (Bytes × Bytes))
    → ps ≢ []
    → All IsShare ps
    → split b':' (convert_map_value (map print_share ps)) ≡ map (λ kv. entry kv.0 kv.1) ps
unfolding convert_map_value
convert_split [] n h = absurd (n refl)
convert_split (p ∷ ps) n h =
    ap (λ (xs : List Bytes). split b':' (join b':' xs)) (shares_replaced (p ∷ ps) h)
    ∙ split-join b':' (map (λ kv. entry kv.0 kv.1) (p ∷ ps)) (cc) (entries_lack (p ∷ ps) h)

-- What convertMapValue makes of a list of `host:place` items, none of whose parts holds a colon or
-- an equals sign, reads back as the same parts: split by colons and each piece by equals signs.
split-convert_map_value :
    (ps : List (Bytes × Bytes))
    → ps ≢ []
    → All IsShare ps
    → map (split b'=') (split b':' (convert_map_value (map print_share ps))) ≡ map parts_of ps
split-convert_map_value ps n h = rw (convert_split ps n h) (split_entries ps h)
