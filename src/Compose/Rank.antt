-- ===== src/Compose/Rank.antt =====
-- The priority by which Validate of compose/type.go orders the names that others depend on.
use lpmx.Base.{
  ℕ, ◌+◌, ◌%◌, ◌≤◌, ◌<◌, ◌≡◌, ◌≢◌, refl, List, [], ◌∷◌, ◌++◌, ltb, ◌==◌, if◌then◌else◌, arith,
  Bool-cases, inl, inr, All,
}
use lpmx.Base.Text.{Bytes, eqb_iff, eqb_refl}
use lpmx.Base.Result.{Kind, Result, ok, err, panic, ◌>>=◌}
use lpmx.Compose.Vendor.{Vendor, count}
use lpmx.Compose.Validate.{
  AppLevel, TopLevel, Counts, Apps, Plan, guard, bump, rank, place, sort_slice, count_items,
  count_depends, plan, validate,
}
use lpmx.Compose.Order.{
  >>=-eq-ok, dependents, keys_of, count-append, count-bump, rank-bump, validate-Ran,
  count-sort_slice,
}

-- Each item's value is at least that of every later one.
abbrev pub Descends : (Bytes → ℕ) → List Bytes → Type 0
Descends f [] = Unit
Descends f (x ∷ xs) = All (λ y. f y ≤ f x) xs × Descends f xs

All-mono :
    (f : Bytes → ℕ) (a b : ℕ) (xs : List Bytes)
    → a ≤ b
    → All (λ y. f y ≤ a) xs
    → All (λ y. f y ≤ b) xs
All-mono f a b [] h k = tt
All-mono f a b (x ∷ xs) h k = (omega arith, All-mono f a b xs h k.1)

place-All :
    (m : Counts) (n : ℕ) (x : Bytes) (xs : List Bytes)
    → rank m x ≤ n
    → All (λ y. rank m y ≤ n) xs
    → All (λ y. rank m y ≤ n) (place m x xs)
unfolding place
place-All m n x [] h k = (h, tt)
place-All m n x (y ∷ xs) h (p, k) = elim (Bool-cases (ltb (rank m x) (rank m y))) [
  | inl e ↦ rw e (p, place-All m n x xs h k)
  | inr e ↦ rw e (h, (p, k))
]

place-Descends :
    (m : Counts) (x : Bytes) (xs : List Bytes)
    → Descends (rank m) xs
    → Descends (rank m) (place m x xs)
unfolding place
place-Descends m x [] h = (tt, tt)
place-Descends m x (y ∷ xs) (p, h) = elim (Bool-cases (ltb (rank m x) (rank m y))) [
  | inl e ↦ rw e (place-All m (rank m y) x xs (ground arith) p, place-Descends m x xs h)
  | inr e ↦
      rw e ((ground arith, All-mono (rank m) (rank m y) (rank m x) xs (ground arith) p), (p, h))
]

sort_slice-Descends : (m : Counts) (xs : List Bytes) → Descends (rank m) (sort_slice m xs)
unfolding sort_slice
sort_slice-Descends m [] = tt
sort_slice-Descends m (x ∷ xs) = place-Descends m x (sort_slice m xs) (sort_slice-Descends m xs)

Descends-eq :
    (f g : Bytes → ℕ) (xs : List Bytes)
    → ((x y : Bytes) → f y ≤ f x → g y ≤ g x)
    → Descends f xs
    → Descends g xs
Descends-eq f g [] e h = tt
Descends-eq f g (x ∷ xs) e (p, h) = (each xs p, Descends-eq f g xs e h)
  where
    each : (ys : List Bytes) → All (λ y. f y ≤ f x) ys → All (λ y. g y ≤ g x) ys
    each [] p = tt
    each (y ∷ ys) (p, q) = (e x y p, each ys q)

rank-lt : (m : Counts) (k : Bytes) → rank m k < 256
unfolding rank
rank-lt [] k = omega arith
rank-lt ((j, n) ∷ m) k = ground (arith, rank-lt m k)

-- The dependency items of the file, in its order.
unfoldable pub all_depends : List AppLevel → List Bytes
all_depends [] = []
all_depends (e ∷ es) = e.depends_on ++ all_depends es

count-all_depends : (k : Bytes) (es : List AppLevel) → count k (all_depends es) ≡ dependents k es
unfolding all_depends dependents
count-all_depends k [] = unfold count in refl
count-all_depends k (e ∷ es) =
    ground (arith, count-append k e.depends_on (all_depends es), count-all_depends k es)

module _ (v : Vendor) where
  open v use {has, NameSet, new_set}

  count_items-append :
      (names : NameSet) (m : Counts) (ds ds' : List Bytes)
      → count_items v names m (ds ++ ds')
        ≡ (count_items v names m ds >>= λ m'. count_items v names m' ds')
  unfolding count_items guard
  count_items-append names m [] ds' = refl
  count_items-append names m (d ∷ ds) ds' = elim (Bool-cases (has names d)) [
    | inl e ↦ rw (e, guard) (count_items-append names (bump d m) ds ds')
    | inr e ↦ rw (e, guard) refl
  ]

  pub count_depends-all :
      (names : NameSet) (m : Counts) (es : List AppLevel)
      → count_depends v names m es ≡ count_items v names m (all_depends es)
  unfolding count_depends all_depends
  count_depends-all names m [] = unfold count_items in refl
  count_depends-all names m (e ∷ es) =
      rw count_items-append
        (by_case (count_items v names m e.depends_on) (λ m'. count_depends-all names m' es))
    where
      by_case :
          (r : Result Counts)
          → ((m' : Counts) → count_depends v names m' es ≡ count_items v names m' (all_depends es))
          → (r >>= λ m'. count_depends v names m' es)
            ≡ (r >>= λ m'. count_items v names m' (all_depends es))
      by_case (ok m') h = h m'
      by_case (err e) h = refl
      by_case panic h = refl

  count_items-rank :
      (k : Bytes) (names : NameSet) (m : Counts) (ds : List Bytes) (m' : Counts)
      → count_items v names m ds ≡ ok m'
      → rank m' k ≡ (rank m k + count k ds) % 256
  unfolding count_items count
  count_items-rank k names m [] m' h = ground (arith, rank-lt m k)
  count_items-rank k names m (d ∷ ds) m' h =
      let (u, g, h1) =
        >>=-eq-ok (guard (has names d) Kind.mismatch _) (λ _. count_items v names (bump d m) ds)
          h in
      ground (arith, count_items-rank k names (bump d m) ds m' h1, rank-bump k d m)

  count_items_keys :
      (k : Bytes) (names : NameSet) (m : Counts) (ds : List Bytes) (m' : Counts)
      → count_items v names m ds ≡ ok m'
      → count k (keys_of m') ≡ (
          if count k ds == 0
          then count k (keys_of m)
          else (if count k (keys_of m) == 0 then 1 else count k (keys_of m)))
  unfolding count_items count
  count_items_keys k names m [] m' h = ground arith
  count_items_keys k names m (d ∷ ds) m' h =
      let (u, g, h1) =
        >>=-eq-ok (guard (has names d) Kind.mismatch _) (λ _. count_items v names (bump d m) ds)
          h in
      ground (arith, count_items_keys k names (bump d m) ds m' h1, count-bump k d m)

  plan_priority :
      (names : NameSet) (m : Apps) (cs : Counts) (f : Bytes → ℕ)
      → ((k : Bytes) → rank cs k ≡ 128 + f k)
      → ((k : Bytes) → count k (keys_of cs) ≡ (if f k == 0 then 0 else 1))
      → Descends f (plan v names m cs).depends
        × ((k : Bytes) → count k (plan v names m cs).depends ≡ (if f k == 0 then 0 else 1))
  unfolding plan
  plan_priority names m [] f e g = (tt, g)
  plan_priority names m (c ∷ cs) f e g =
      let keys = v.shuffle (keys_of (c ∷ cs)) in
      (
        Descends-eq (rank (c ∷ cs)) f (sort_slice (c ∷ cs) keys) (λ x y h. omega (arith, e x, e y))
            (sort_slice-Descends (c ∷ cs) keys),
        λ k. cc (count-sort_slice (c ∷ cs) k keys, v.count-shuffle (keys_of (c ∷ cs)) k, g k),
      )

  -- If Validate accepts a file in which no app has 128 dependents or more, the names that others
  -- depend on are listed by falling number of dependents, and every name with a dependent is among them.
  pub validate_priority :
      (top : TopLevel) (p : Plan)
      → validate v top ≡ ok p
      → ((k : Bytes) → dependents k top.apps < 128)
      → Descends (λ k. dependents k top.apps) p.depends
        × ((k : Bytes) → count k p.depends ≡ (if dependents k top.apps == 0 then 0 else 1))
  validate_priority top p h few =
      let r = validate-Ran v top p h in
      let e = count_depends-all r.names [] top.apps in
      let run = count_items v r.names [] (all_depends top.apps) in
      let counted : run ≡ ok r.counts = cc (e, r.counted) in
      rw r.planned (
        plan_priority r.names r.apps_map r.counts (λ k. dependents k top.apps)
          (λ k.
            unfold rank in
            omega (
              arith,
              few k,
              count-all_depends k top.apps,
              count_items-rank k r.names [] (all_depends top.apps) r.counts counted,
            ))
          (λ k.
            unfold count in
            ground (
              arith,
              count-all_depends k top.apps,
              count_items_keys k r.names [] (all_depends top.apps) r.counts counted,
            )))

  two_counts :
      (names : NameSet) (b c : Bytes) (cs : Counts)
      → b ≢ c
      → count_items v names [] (b ∷ c ∷ []) ≡ ok cs
      → cs ≡ (b, 1) ∷ (c, 1) ∷ []
  unfolding count_items guard bump
  two_counts names b c cs n h = ground (arith, eqb_iff b c)

  two_planned :
      (names : NameSet) (m : Apps) (b c : Bytes)
      → b ≢ c
      → v.shuffle (b ∷ c ∷ []) ≡ b ∷ c ∷ []
      → (plan v names m ((b, 1) ∷ (c, 1) ∷ [])).depends ≡ b ∷ c ∷ []
  unfolding plan sort_slice place rank
  two_planned names m b c n s = rw s (ground (arith, eqb_iff b c, eqb_refl b, eqb_refl c))

  -- Dependencies of dependencies do not count: if the only dependency items of an accepted file
  -- name `b` and then `c`, and Go visits the map in the order of insertion, `b` is listed before `c`,
  -- also in the file where it is `b` itself that depends on `c`.
  pub order_ignores_chains :
      (top : TopLevel) (p : Plan) (b c : Bytes)
      → validate v top ≡ ok p
      → all_depends top.apps ≡ b ∷ c ∷ []
      → b ≢ c
      → v.shuffle (b ∷ c ∷ []) ≡ b ∷ c ∷ []
      → p.depends ≡ b ∷ c ∷ []
  order_ignores_chains top p b c h d n s =
      let r = validate-Ran v top p h in
      let counted : count_items v r.names [] (b ∷ c ∷ []) ≡ ok r.counts =
        cc (count_depends-all r.names [] top.apps, r.counted, d) in
      cc (
        r.planned,
        two_counts r.names b c r.counts n counted,
        two_planned r.names r.apps_map b c n s,
      )
