-- ===== src/Compose/Checks.antt =====
-- Which files Validate of compose/type.go accepts.
use lpmx.Base.{
  ℕ, ◌+◌, ◌≤◌, ◌≡◌, ◌≢◌, refl, ◌⊎◌, ◌↔◌, inl, inr, true, not, List, [], ◌∷◌, ◌++◌, arith, All,
  Bool-cases, ◌<◌,
}
use lpmx.Base.Text.{Bytes, eqb_iff, contains, codes}
use lpmx.Base.Strings.{trim_left, trim_space}
use lpmx.Base.Result.{Kind, ok, ◌>>=◌}
use lpmx.Compose.Vendor.{Vendor, count}
use lpmx.Compose.Validate.{
  AppLevel, TopLevel, Apps, Counts, Plan, type_docker, type_singularity, guard, bump, each,
  check_fields, collect, count_items, plan, check_version, plan_from, validate,
}
use lpmx.Compose.Order.{
  names_of, collect_rest, collect_has, validate-Ran, as_number, >>=-eq-ok, guard-eq-ok,
  validate_order,
}
use lpmx.Compose.Rank.{all_depends, count_depends-all}

abbrev pub Each : ℕ → List Bytes → Type 0
Each sep = All (λ x. contains sep x ≡ true)

-- An app whose fields are written as the format wants them.
pub record IsApp (e : AppLevel) : Type 0 where
  pub named : e.name ≢ []
  pub imaged : e.image ≢ []
  pub typed : (e.image_type ≡ type_docker) ⊎ (e.image_type ≡ type_singularity)
  pub exposes : Each b':' e.expose
  pub ports : Each b':' e.port
  pub shares : Each b':' e.share
  pub injects : Each b':' e.inject
  pub envs : Each b'=' e.env

-- A file that Validate should accept.
pub record IsValid (top : TopLevel) : Type 0 where
  pub versioned : trim_space top.version ≡ b'1' ∷ []
  pub apps_valid : All IsApp top.apps
  pub distinct : (k : Bytes) → count k (names_of top.apps) ≤ 1
  pub defined : All (λ d. 0 < count d (names_of top.apps)) (all_depends top.apps)

types-ne-nil : (type_docker ≢ []) × (type_singularity ≢ [])
unfolding type_docker type_singularity codes
types-ne-nil = (cc, cc)

trim_space_empty : (s : Bytes) → s ≡ [] → trim_space s ≡ []
unfolding trim_space trim_left
trim_space_empty s e = rw e refl

module _ (v : Vendor) where
  open v use {has, NameSet, add, new_set}

  each_sound : (xs : List Bytes) (sep : ℕ) (m : Bytes) → each v xs sep m ≡ ok tt → Each sep xs
  unfolding each guard
  each_sound [] sep m h = tt
  each_sound (x ∷ xs) sep m h = elim (Bool-cases (contains sep x)) [
    | inl e ↦ (e, each_sound xs sep m (ground (arith, v.contains_text_lem x sep)))
    | inr e ↦ ground (arith, v.contains_text_lem x sep)
  ]

  each_complete : (xs : List Bytes) (sep : ℕ) (m : Bytes) → Each sep xs → each v xs sep m ≡ ok tt
  unfolding each guard
  each_complete [] sep m h = refl
  each_complete (x ∷ xs) sep m (p, h) = rw (v.contains_text_lem x sep, p) (each_complete xs sep m h)

  check_fields_complete : (e : AppLevel) → IsApp e → check_fields v e ≡ ok tt
  unfolding check_fields guard
  check_fields_complete e a = ground (
    arith,
    v.is_empty_lem e.name,
    v.is_empty_lem e.image,
    v.is_empty_lem e.image_type,
    eqb_iff e.name [],
    eqb_iff e.image [],
    eqb_iff e.image_type [],
    eqb_iff e.image_type type_docker,
    eqb_iff e.image_type type_singularity,
    types-ne-nil,
    each_complete e.expose b':' (codes "expose should contain ':'") a.exposes,
    each_complete e.port b':' (codes "port should contain ':'") a.ports,
    each_complete e.share b':' (codes "share should contain ':'") a.shares,
    each_complete e.inject b':' (codes "inject should contain ':'") a.injects,
    each_complete e.env b'=' (codes "env should contain '=") a.envs,
  )

  check_fields_sound : (e : AppLevel) → check_fields v e ≡ ok tt → IsApp e
  unfolding check_fields guard
  check_fields_sound e h = record {
    named = ground (arith, v.is_empty_lem e.name, eqb_iff e.name []);
    imaged = ground (arith, v.is_empty_lem e.image, eqb_iff e.image []);
    typed = ground (arith, eqb_iff e.image_type type_docker, eqb_iff e.image_type type_singularity);
    exposes = each_sound e.expose b':' (codes "expose should contain ':'") (ground arith);
    ports = each_sound e.port b':' (codes "port should contain ':'") (ground arith);
    shares = each_sound e.share b':' (codes "share should contain ':'") (ground arith);
    injects = each_sound e.inject b':' (codes "inject should contain ':'") (ground arith);
    envs = each_sound e.env b'=' (codes "env should contain '=") (ground arith);
  }

  collect_sound :
      (names : NameSet) (m : Apps) (es : List AppLevel) (r : NameSet × Apps)
      → collect v names m es ≡ ok r
      → All IsApp es
  unfolding collect
  collect_sound names m [] r h = tt
  collect_sound names m (e ∷ es) r h =
      let (u, f, h1) = >>=-eq-ok (check_fields v e) (λ _. collect_rest v names m e es) h in
      let (u', g, h2) =
        >>=-eq-ok (guard (not (has names e.name)) Kind.exist _)
          (λ _. collect v (add names e.name) (m ++ (e.name, e) ∷ []) es) h1 in
      (check_fields_sound e f, collect_sound (add names e.name) (m ++ (e.name, e) ∷ []) es r h2)

  collect_complete :
      (names : NameSet) (m : Apps) (es : List AppLevel)
      → All IsApp es
      → ((k : Bytes) → as_number (has names k) + count k (names_of es) ≤ 1)
      → (r : NameSet × Apps) × (collect v names m es ≡ ok r)
  unfolding collect names_of count guard
  collect_complete names m [] a d = ((names, m), refl)
  collect_complete names m (e ∷ es) (p, a) d =
      let (r, h) =
        collect_complete (add names e.name) (m ++ (e.name, e) ∷ []) es a
          (λ k. ground (arith, d k, v.has-add names e.name k)) in
      (r, ground (arith, check_fields_complete e p, d e.name, eqb_iff e.name e.name, h))

  count_items_sound :
      (names : NameSet) (m : Counts) (ds : List Bytes) (m' : Counts)
      → count_items v names m ds ≡ ok m'
      → All (λ d. has names d ≡ true) ds
  unfolding count_items
  count_items_sound names m [] m' h = tt
  count_items_sound names m (d ∷ ds) m' h =
      let (u, g, h1) =
        >>=-eq-ok (guard (has names d) Kind.mismatch _) (λ _. count_items v names (bump d m) ds)
          h in
      (guard-eq-ok (has names d) Kind.mismatch _ g, count_items_sound names (bump d m) ds m' h1)

  count_items_complete :
      (names : NameSet) (m : Counts) (ds : List Bytes)
      → All (λ d. has names d ≡ true) ds
      → (m' : Counts) × (count_items v names m ds ≡ ok m')
  unfolding count_items guard
  count_items_complete names m [] a = (m, refl)
  count_items_complete names m (d ∷ ds) (p, a) =
      let (m', h) = count_items_complete names (bump d m) ds a in (m', rw p h)

  version_sound :
      (top : TopLevel) → check_version v top ≡ ok tt → trim_space top.version ≡ b'1' ∷ []
  unfolding check_version guard
  version_sound top h = ground (arith, eqb_iff (trim_space top.version) (b'1' ∷ []))

  version_complete :
      (top : TopLevel) → trim_space top.version ≡ b'1' ∷ [] → check_version v top ≡ ok tt
  unfolding check_version guard
  version_complete top h = ground (
    arith,
    v.is_empty_lem top.version,
    eqb_iff top.version [],
    eqb_iff (trim_space top.version) (b'1' ∷ []),
    trim_space_empty top.version,
  )

  -- What the set holds behind the first loop.
  has_names :
      (top : TopLevel) (names : NameSet) (m : Apps) (k : Bytes)
      → collect v new_set [] top.apps ≡ ok (names, m)
      → as_number (has names k) ≡ count k (names_of top.apps)
  has_names top names m k h =
      ground (arith, collect_has v k new_set [] top.apps names m h, v.has-new_set k)

  All-has :
      (names : NameSet) (ns ds : List Bytes)
      → ((k : Bytes) → as_number (has names k) ≡ count k ns)
      → All (λ d. has names d ≡ true) ds ↔ All (λ d. 0 < count d ns) ds
  All-has names ns [] e = (λ h. h, λ h. h)
  All-has names ns (d ∷ ds) e =
      let (f, g) = All-has names ns ds e in
      (λ h. (ground (arith, e d, h.0), f h.1), λ h. (ground (arith, e d, h.0), g h.1))

  validate_sound : (top : TopLevel) (p : Plan) → validate v top ≡ ok p → IsValid top
  unfolding validate
  validate_sound top p h =
      let r = validate-Ran v top p h in
      let (u, g, _) =
        >>=-eq-ok (check_version v top) (λ _. collect v new_set [] top.apps >>= plan_from v top)
          h in
      let counted : count_items v r.names [] (all_depends top.apps) ≡ ok r.counts =
        cc (count_depends-all v r.names [] top.apps, r.counted) in
      record {
        versioned = version_sound top g;
        apps_valid = collect_sound new_set [] top.apps (r.names, r.apps_map) r.collected;
        distinct = λ k. (validate_order v top p h k).1;
        defined =
            (All-has r.names (names_of top.apps) (all_depends top.apps)
                (λ k. has_names top r.names r.apps_map k r.collected)).0
              (count_items_sound r.names [] (all_depends top.apps) r.counts counted);
      }

  validate_complete : (top : TopLevel) → IsValid top → (p : Plan) × (validate v top ≡ ok p)
  unfolding validate plan_from
  validate_complete top a =
      let ((names, m), c) =
        collect_complete new_set [] top.apps a.apps_valid
          (λ k. ground (arith, a.distinct k, v.has-new_set k)) in
      let defined =
        (All-has names (names_of top.apps) (all_depends top.apps)
            (λ k. has_names top names m k c)).1
          a.defined in
      let (cs, d) = count_items_complete names [] (all_depends top.apps) defined in
      (
        plan v names m cs,
        ground
            (arith, version_complete top a.versioned, c, count_depends-all v names [] top.apps, d),
      )

  -- Validate accepts exactly the files that are written as the format wants them: the version is 1,
  -- every app has its mandatory fields, a known type and separators in its items, no two apps share
  -- a name, and every dependency is the name of an app.
  pub validate_iff : (top : TopLevel) → ((p : Plan) × (validate v top ≡ ok p)) ↔ IsValid top
  validate_iff top = (λ ph. validate_sound top ph.0 ph.1, validate_complete top)
