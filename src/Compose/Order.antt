-- ===== src/Compose/Order.antt =====
-- The order in which Validate of compose/type.go lists the names of the apps.
use lpmx.Base.{
  ℕ, ◌+◌, ◌%◌, ◌≤◌, ◌≡◌, refl, Bool, true, false, not, List, [], ◌∷◌, ◌++◌, map, ◌==◌,
  if◌then◌else◌, arith,
}
use lpmx.Base.Text.{Bytes, eqb, eqb_iff, eqb_refl, codes}
use lpmx.Base.Result.{Kind, Result, ok, err, panic, ◌>>=◌}
use lpmx.Compose.Vendor.{Vendor, count}
use lpmx.Compose.Validate.{
  AppLevel, TopLevel, Counts, Apps, Plan, guard, bump, rank, place, sort_slice, check_fields,
  collect, count_items, count_depends, add_all, plan, check_version, plan_from, validate,
}

pub >>=-eq-ok {ℓ κ} :
    {R : Type ℓ} {S : Type κ} (r : Result R) (k : R → Result S) {y : S}
    → (r >>= k) ≡ ok y
    → (x : R) × (r ≡ ok x) × (k x ≡ ok y)
>>=-eq-ok panic k e = cc
>>=-eq-ok (err x) k e = cc
>>=-eq-ok (ok x) k e = (x, refl, e)

pub guard-eq-ok : (b : Bool) (k : Kind) (m : Bytes) → guard b k m ≡ ok tt → b ≡ true
unfolding guard
guard-eq-ok true k m h = refl
guard-eq-ok false k m h = ground arith

-- The names that the file declares, in its order.
unfoldable pub names_of : List AppLevel → List Bytes
names_of [] = []
names_of (e ∷ es) = e.name ∷ names_of es

abbrev pub keys_of : Counts → List Bytes
keys_of m = map (λ kn. kn.0) m

-- What the first loop does behind the checks of an app.
abbrev pub collect_rest :
    (v : Vendor) → v.NameSet → Apps → AppLevel → List AppLevel → Result (v.NameSet × Apps)
collect_rest v names m e es =
    guard (not (v.has names e.name)) Kind.exist
      (e.name ++ codes " is already defined in yaml, should not have duplicated name")
    >>= λ _. collect v (v.add names e.name) (m ++ (e.name, e) ∷ []) es

-- How many dependency items name `k`.
unfoldable pub dependents : Bytes → List AppLevel → ℕ
dependents k [] = 0
dependents k (e ∷ es) = count k e.depends_on + dependents k es

pub count-append : (k : Bytes) (xs ys : List Bytes) → count k (xs ++ ys) ≡ count k xs + count k ys
unfolding count
count-append k [] ys = omega arith
count-append k (x ∷ xs) ys = ground (arith, count-append k xs ys)

count-place :
    (m : Counts) (k x : Bytes) (xs : List Bytes) → count k (place m x xs) ≡ count k (x ∷ xs)
unfolding place count
count-place m k x [] = refl
count-place m k x (y ∷ xs) = ground (arith, count-place m k x xs)

pub count-sort_slice :
    (m : Counts) (k : Bytes) (xs : List Bytes) → count k (sort_slice m xs) ≡ count k xs
unfolding sort_slice count
count-sort_slice m k [] = refl
count-sort_slice m k (x ∷ xs) =
    ground (arith, count-place m k x (sort_slice m xs), count-sort_slice m k xs)

-- Bumping a key adds it if it is new.
pub count-bump :
    (k d : Bytes) (m : Counts)
    → count k (keys_of (bump d m)) ≡ (
        if eqb d k
        then (if count k (keys_of m) == 0 then 1 else count k (keys_of m))
        else count k (keys_of m))
unfolding bump count
count-bump k d [] = refl
count-bump k d ((j, n) ∷ m) =
    ground (arith, count-bump k d m, eqb_iff j d, eqb_iff j k, eqb_iff d k)

-- The rank of a bumped key is one more, in eight bits.
pub rank-bump :
    (k d : Bytes) (m : Counts)
    → rank (bump d m) k ≡ (if eqb d k then (rank m k + 1) % 256 else rank m k)
unfolding bump rank
rank-bump k d [] = ground arith
rank-bump k d ((j, n) ∷ m) =
    ground (arith, rank-bump k d m, eqb_iff j d, eqb_iff j k, eqb_iff d k, eqb_refl d)

abbrev pub as_number : Bool → ℕ
as_number b = if b then 1 else 0

module _ (v : Vendor) where
  open v use {has, NameSet, add, new_set}

  -- Each name is put once into the set, and was not there before.
  pub collect_has :
      (k : Bytes) (names : NameSet) (m : Apps) (es : List AppLevel) (names' : NameSet) (m' : Apps)
      → collect v names m es ≡ ok (names', m')
      → as_number (has names' k) ≡ as_number (has names k) + count k (names_of es)
  unfolding collect names_of count
  collect_has k names m [] names' m' h = ground arith
  collect_has k names m (e ∷ es) names' m' h =
      let (u, _, h1) = >>=-eq-ok (check_fields v e) _ h in
      let (u', g, h2) = >>=-eq-ok (guard (not (has names e.name)) Kind.exist _) _ h1 in
      ground (
        arith,
        collect_has k (add names e.name) (m ++ (e.name, e) ∷ []) es names' m' h2,
        guard-eq-ok (not (has names e.name)) Kind.exist _ g,
        v.has-add names e.name k,
        eqb_iff e.name k,
      )

  -- Every counted name is in the set, and counted under one key.
  abbrev AreKeys : NameSet → Counts → Type 0
  AreKeys names m = (k : Bytes) → count k (keys_of m) ≤ as_number (has names k)

  count_items_keys :
      (names : NameSet) (m : Counts) (ds : List Bytes) (m' : Counts)
      → AreKeys names m
      → count_items v names m ds ≡ ok m'
      → AreKeys names m'
  unfolding count_items
  count_items_keys names m [] m' a h = λ k. ground (arith, a k)
  count_items_keys names m (d ∷ ds) m' a h =
      let (u, g, h1) = >>=-eq-ok (guard (has names d) Kind.mismatch _) _ h in
      count_items_keys names (bump d m) ds m'
        (λ k.
          ground (
            arith,
            a k,
            count-bump k d m,
            guard-eq-ok (has names d) Kind.mismatch _ g,
            eqb_iff d k,
          ))
        h1

  count_depends_keys :
      (names : NameSet) (m : Counts) (es : List AppLevel) (m' : Counts)
      → AreKeys names m
      → count_depends v names m es ≡ ok m'
      → AreKeys names m'
  unfolding count_depends
  count_depends_keys names m [] m' a h = λ k. ground (arith, a k)
  count_depends_keys names m (e ∷ es) m' a h =
      let (m1, g, h1) = >>=-eq-ok (count_items v names m e.depends_on) _ h in
      count_depends_keys names m1 es m' (count_items_keys names m e.depends_on m1 a g) h1

  pub has-add_all :
      (k : Bytes) (s : NameSet) (ks : List Bytes)
      → has (add_all v s ks) k ≡ (if count k ks == 0 then has s k else true)
  unfolding add_all count
  has-add_all k s [] = refl
  has-add_all k s (j ∷ ks) = ground (arith, has-add_all k (add s j) ks, v.has-add s j k)

  -- The two lists of a plan together hold each name of the set once.
  count-plan :
      (k : Bytes) (names : NameSet) (m : Apps) (cs : Counts)
      → AreKeys names cs
      → count k ((plan v names m cs).depends ++ (plan v names m cs).remains)
        ≡ as_number (has names k)
  unfolding plan
  count-plan k names m [] a = v.count-to_slice names k
  count-plan k names m (c ∷ cs) a =
      let keys = v.shuffle (keys_of (c ∷ cs)) in
      let others = v.difference names (add_all v new_set keys) in
      rw
        (
          count-append k (sort_slice (c ∷ cs) keys) (v.to_slice others),
          count-sort_slice (c ∷ cs) k keys,
        )
        (ground (
          arith,
          v.count-shuffle (keys_of (c ∷ cs)) k,
          v.count-to_slice others k,
          v.has-difference names (add_all v new_set keys) k,
          has-add_all k new_set keys,
          v.has-new_set k,
          a k,
        ))

  -- What a successful validation went through.
  pub record Ran (top : TopLevel) (p : Plan) : Type 0 where
    pub names : NameSet
    pub apps_map : Apps
    pub counts : Counts
    pub collected : collect v new_set [] top.apps ≡ ok (names, apps_map)
    pub counted : count_depends v names [] top.apps ≡ ok counts
    pub planned : p ≡ plan v names apps_map counts

  plan_from-Ran :
      (top : TopLevel) (p : Plan) (names : NameSet) (m : Apps)
      → collect v new_set [] top.apps ≡ ok (names, m)
      → plan_from v top (names, m) ≡ ok p
      → Ran top p
  unfolding plan_from
  plan_from-Ran top p names m c h =
      let (cs, d, h3) =
        >>=-eq-ok (count_depends v names [] top.apps) (λ counts. ok (plan v names m counts)) h in
      record {
        names = names;
        apps_map = m;
        counts = cs;
        collected = c;
        counted = d;
        planned = cc h3;
      }

  pub validate-Ran : (top : TopLevel) (p : Plan) → validate v top ≡ ok p → Ran top p
  unfolding validate
  validate-Ran top p h =
      let (u, _, h1) =
        >>=-eq-ok (check_version v top) (λ _. collect v new_set [] top.apps >>= plan_from v top)
          h in
      let ((names, m), c, h2) = >>=-eq-ok (collect v new_set [] top.apps) (plan_from v top) h1 in
      plan_from-Ran top p names m c h2

  -- If Validate accepts a file, the two lists that it returns together hold exactly the names of
  -- the apps, each once, whatever the order in which Go visits maps and sets.
  pub validate_order :
      (top : TopLevel) (p : Plan)
      → validate v top ≡ ok p
      → (k : Bytes)
      → (count k (p.depends ++ p.remains) ≡ count k (names_of top.apps))
        × (count k (names_of top.apps) ≤ 1)
  validate_order top p h k =
      let r = validate-Ran top p h in
      let a =
        count_depends_keys r.names [] top.apps r.counts (λ j. unfold count in omega arith)
          r.counted in
      ground (
        arith,
        r.planned,
        count-plan k r.names r.apps_map r.counts a,
        collect_has k new_set [] top.apps r.names r.apps_map r.collected,
        v.has-new_set k,
      )
