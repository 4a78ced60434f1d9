-- ===== src/Compose/Steps.antt =====
-- Compose of container/container.go runs the apps of a valid file in the order of the plan.
use lpmx.Base.{
  ◌≤◌, ◌<◌, ◌≡◌, refl, ◌⊎◌, inl, inr, some, List, [], ◌∷◌, ◌++◌, arith, All, All-append, not, ap,
  ◌∙◌, fun_ext, append-nil, Bool-cases, append_assoc,
}
use lpmx.Base.Text.{Bytes, eqb, eqb_iff, eqb_refl}
use mathlib.Core.Path.{ap₂}
use lpmx.Base.Dict.{lookup}
use lpmx.Base.Result.{Kind, ok}
use lpmx.Base.World.{Go, pure, ◌>>◌}
use lpmx.Compose.Vendor.{Vendor, count}
use lpmx.Compose.Validate.{
  AppLevel, TopLevel, Apps, Counts, Plan, guard, check_fields, collect, plan, validate,
}
use lpmx.Compose.Order.{
  names_of, collect_rest, >>=-eq-ok, validate-Ran, validate_order, count-append,
}
use lpmx.Compose.Run.{run_names, run_plan, compose}

-- The apps run one after the other, up to the first that fails.
unfoldable pub run_apps : (AppLevel → Go (Unit {0})) → List AppLevel → Go (Unit {0})
run_apps run [] = pure tt
run_apps run (e ∷ es) = do run e; run_apps run es

-- The app is one of the list.
abbrev pub IsOneOf : AppLevel → List AppLevel → Type 0
IsOneOf e [] = ⊥
IsOneOf e (x ∷ xs) = (e ≡ x) ⊎ IsOneOf e xs

-- The list holds an app for each name, in the order of the names.
pub record Schedule (ks : List Bytes) (all es : List AppLevel) : Type 0 where
  pub named : names_of es ≡ ks
  pub known : All (λ e. IsOneOf e all) es

entries : List AppLevel → Apps
entries [] = []
entries (e ∷ es) = (e.name, e) ∷ entries es

collect-entries :
    (v : Vendor) (names : v.NameSet) (m : Apps) (es : List AppLevel) (names' : v.NameSet)
    (m' : Apps)
    → collect v names m es ≡ ok (names', m')
    → m' ≡ m ++ entries es
unfolding collect entries
collect-entries v names m [] names' m' h = rw append-nil (cc h)
collect-entries v names m (e ∷ es) names' m' h =
    let (u, f, h1) = >>=-eq-ok (check_fields v e) (λ _. collect_rest v names m e es) h in
    let (u', g, h2) =
      >>=-eq-ok (guard (not (v.has names e.name)) Kind.exist _)
        (λ _. collect v (v.add names e.name) (m ++ (e.name, e) ∷ []) es) h1 in
    collect-entries v (v.add names e.name) (m ++ (e.name, e) ∷ []) es names' m' h2
    ∙ append_assoc m ((e.name, e) ∷ []) (entries es)

lookup-entries :
    (k : Bytes) (es : List AppLevel)
    → 0 < count k (names_of es)
    → (e : AppLevel) × (lookup k (entries es) ≡ some e) × (e.name ≡ k) × IsOneOf e es
unfolding entries lookup names_of count
lookup-entries k [] h = absurd (omega arith)
lookup-entries k (x ∷ xs) h = elim (Bool-cases (eqb x.name k)) [
  | inl e ↦ (x, rw e refl, (eqb_iff x.name k).0 e, inl refl)
  | inr e ↦ let (y, f, n, o) = lookup-entries k xs (rw e at h) in (y, rw e f, n, inr o)
]

cons_path : {a b : Bytes} {xs ys : List Bytes} → a ≡ b → xs ≡ ys → a ∷ xs ≡ b ∷ ys
cons_path p q = cc

-- All names are names of apps.
schedule :
    (run : AppLevel → Go (Unit {0})) (all : List AppLevel) (ks : List Bytes)
    → All (λ k. 0 < count k (names_of all)) ks
    → (es : List AppLevel) × Schedule ks all es × (run_names run (entries all) ks ≡ run_apps run es)
unfolding run_names run_apps names_of
schedule run all [] h = ([], record { named = refl; known = tt }, refl)
schedule run all (k ∷ ks) (p, h) =
    let (es, s, r) = schedule run all ks h in
    let (e, f, n, o) = lookup-entries k all p in
    (
      e ∷ es,
      record { named = cons_path n s.named; known = (o, s.known) },
      rw (f, run_names) (ap (λ (m : Go (Unit {0})). run e >> m) r),
    )

>>-assoc : (m k l : Go (Unit {0})) → ((m >> k) >> l) ≡ (m >> (k >> l))
>>-assoc m k l = fun_ext (λ w. ground arith)

pure->> : (m : Go (Unit {0})) → (pure tt >> m) ≡ m
pure->> m = refl

run_apps-append :
    (run : AppLevel → Go (Unit {0})) (es fs : List AppLevel)
    → (run_apps run es >> run_apps run fs) ≡ run_apps run (es ++ fs)
unfolding run_apps
run_apps-append run [] fs = pure->> (run_apps run fs)
run_apps-append run (e ∷ es) fs =
    >>-assoc (run e) (run_apps run es) (run_apps run fs)
    ∙ ap (λ (m : Go (Unit {0})). run e >> m) (run_apps-append run es fs)

names_of-append : (es fs : List AppLevel) → names_of (es ++ fs) ≡ names_of es ++ names_of fs
unfolding names_of
names_of-append [] fs = refl
names_of-append (e ∷ es) fs = ap (λ (ns : List Bytes). e.name ∷ ns) (names_of-append es fs)

-- A list whose items are counted in another has only items of that one.
count-All :
    (ks ns : List Bytes) → ((k : Bytes) → count k ks ≤ count k ns) → All (λ k. 0 < count k ns) ks
unfolding count
count-All [] ns h = tt
count-All (k ∷ ks) ns h =
    (ground (arith, h k, eqb_refl k), count-All ks ns (λ j. ground (arith, h j)))

apps_map-plan :
    (v : Vendor) (names : v.NameSet) (m : Apps) (cs : Counts) → (plan v names m cs).apps_map ≡ m
unfolding plan
apps_map-plan v names m [] = refl
apps_map-plan v names m (c ∷ cs) = refl

apps_map-entries :
    (v : Vendor) (top : TopLevel) (p : Plan) → validate v top ≡ ok p → p.apps_map ≡ entries top.apps
apps_map-entries v top p h =
    let r = validate-Ran v top p h in
    ap (λ (q : Plan). q.apps_map) r.planned
    ∙ (apps_map-plan v r.names r.apps_map r.counts
        ∙ collect-entries v v.new_set [] top.apps r.names r.apps_map r.collected)

run_plan_ok :
    (run : AppLevel → Go (Unit {0})) (p : Plan)
    → run_plan run (ok p)
      ≡ (run_names run p.apps_map p.depends >> run_names run p.apps_map p.remains)
unfolding run_plan
run_plan_ok run p = refl

two_loops :
    (run : AppLevel → Go (Unit {0})) (p : Plan) (m : Apps) (es fs : List AppLevel)
    → p.apps_map ≡ m
    → run_names run m p.depends ≡ run_apps run es
    → run_names run m p.remains ≡ run_apps run fs
    → run_plan run (ok p) ≡ run_apps run (es ++ fs)
two_loops run p m es fs e f g =
    run_plan_ok run p
    ∙ (rw e (ap₂ (λ (a b : Go (Unit {0})). a >> b) f g) ∙ run_apps-append run es fs)

-- On a file that Validate accepts, Compose runs apps of the file one after the other, up to the
-- first that fails: those that others depend on and then the rest, by name the two lists of the
-- plan, which hold the name of each app once.
pub compose-run_apps :
    (v : Vendor) (run : AppLevel → Go (Unit {0})) (top : TopLevel) (p : Plan)
    → validate v top ≡ ok p
    → (es : List AppLevel) × Schedule (p.depends ++ p.remains) top.apps es
      × (compose v run top ≡ run_apps run es)
unfolding compose
compose-run_apps v run top p h =
    let r = validate-Ran v top p h in
    let known = λ (k : Bytes). validate_order v top p h k in
    let (es, s, f) = schedule run top.apps p.depends (
      count-All p.depends (names_of top.apps)
        (λ k. omega (arith, known k, count-append k p.depends p.remains))) in
    let (fs, t, g) = schedule run top.apps p.remains (
      count-All p.remains (names_of top.apps)
        (λ k. omega (arith, known k, count-append k p.depends p.remains))) in
    (
      es ++ fs,
      record {
        named = names_of-append es fs ∙ ap₂ (λ (a b : List Bytes). a ++ b) s.named t.named;
        known = All-append (λ e. IsOneOf e top.apps) es fs s.known t.known;
      },
      ap (run_plan run) h
          ∙ two_loops run p (entries top.apps) es fs (apps_map-entries v top p h) f g,
    )
