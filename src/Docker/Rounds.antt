-- ===== src/Docker/Rounds.antt =====
-- A round of the loop of DownloadLayers of docker/docker.go.
use lpmx.Base.{
  ◌≡◌, refl, sym, ap, ◌∙◌, Bool, true, false, ◌&&◌, ◌||◌, inl, inr, Bool-cases, Option-cases, none,
  some, List, [], ◌∷◌, ◌++◌, map, ◌⊎◌, arith, length, if◌then◌else◌,
}
use mathlib.Core.Path.{subst}
use lpmx.Base.Text.{Bytes, eqb, eqb_iff, eqb_refl}
use lpmx.Base.Dict.{lookup, lookup-insert}
use lpmx.Base.Result.{Result, ok, err, panic}
use lpmx.Base.World.{World, file, Go, write_file, put, opens, resolve, resolve-write_file}
use lpmx.Utils.Files.{file_exist, file_type, file_exist-write_file}
use lpmx.Utils.Folders.{explain, explained}
use lpmx.Utils.Moving.{Machine, get_file_size, size_of, unsized}
use lpmx.Docker.Layers.{
  Layer, Blob, Loaded, loaded_too, loaded_once, has_size, fill_file, layer_file,
}

-- Does `q` stand in the list?
abbrev pub has : Bytes → List Bytes → Bool
has q [] = false
has q (p ∷ ps) = eqb p q || has q ps

-- A list with `p` at its end, if it is new.
abbrev pub add_new : List Bytes → Bytes → List Bytes
add_new ps p = if has p ps then ps else ps ++ p ∷ []

-- The list and the new ones of further paths, each once and where it comes first.
abbrev pub adds : List Bytes → List Bytes → List Bytes
adds ps [] = ps
adds ps (q ∷ qs) = adds (add_new ps q) qs

-- The files of the layers of a manifest.
abbrev pub layer_files : Bytes → List Layer → List Bytes
layer_files folder = map (λ layer. layer_file folder layer.digest)

has-append : (q p : Bytes) (ps : List Bytes) → has q (ps ++ p ∷ []) ≡ (has q ps || eqb p q)
has-append q p [] = ground arith
has-append q p (x ∷ ps) = ground (arith, has-append q p ps)

has-add_new : (q p : Bytes) (ps : List Bytes) → has q ps ≡ true → has q (add_new ps p) ≡ true
has-add_new q p ps h = ground (arith, has-append q p ps, h)

pub has_added : (p : Bytes) (ps : List Bytes) → has p (add_new ps p) ≡ true
has_added p ps = ground (arith, has-append p p ps, eqb_refl p)

pub has-adds : (q : Bytes) (ps qs : List Bytes) → has q ps ≡ true → has q (adds ps qs) ≡ true
has-adds q ps [] h = h
has-adds q ps (x ∷ qs) h = has-adds q (add_new ps x) qs (has-add_new q x ps h)

has_before :
    (q p : Bytes) (ps : List Bytes)
    → eqb p q ≡ false
    → has q (ps ++ p ∷ []) ≡ true
    → has q ps ≡ true
has_before q p ps e h = ground (arith, has-append q p ps, e, h)

file_type_same : (v v' : World) (q : Bytes) → v'.node q ≡ v.node q → file_type v' q ≡ file_type v q
unfolding file_type
file_type_same v v' q n = ground (arith, n)

file_exist_same :
    (v v' : World) (q : Bytes) → v'.node q ≡ v.node q → file_exist v' q ≡ file_exist v q
unfolding file_exist
file_exist_same v v' q n = rw (file_type_same v v' q n) refl

explained-eq-ok :
    {A : Type 0} (text : Bytes) (r : Result A) (a : A) → explained text r ≡ ok a → r ≡ ok a
unfolding explained
explained-eq-ok text (ok a') a e = e
explained-eq-ok text (err x) a e = absurd (cc)
explained-eq-ok text panic a e = absurd (cc)

pub explain-eq-ok :
    {A : Type 0} (text : Bytes) (call : Go A) (a : A) (w w' : World)
    → explain text call w ≡ (ok a, w')
    → (call w).0 ≡ ok a
unfolding explain
explain-eq-ok {A = A} text call a w w' e =
    explained-eq-ok text (call w).0 a (ap (λ (r : Result A × World). r.0) e)

module _ (m : Machine) (contents : Bytes → Bytes) where
  -- Is there a file at `p` as long as its contents are?
  abbrev pub there : World → Bytes → Bool
  there v p = file_exist v p && has_size (length (contents p)) (get_file_size m p v).0

  pub there_split :
      (v : World) (p : Bytes)
      → there v p ≡ true
      → (file_exist v p ≡ true) × ((get_file_size m p v).0 ≡ ok (length (contents p)))
  unfolding has_size get_file_size
  there_split v p h = ground (arith, h)

  written_there :
      (v : World) (p : Bytes)
      → opens v p ≡ true
      → resolve v p ≡ p
      → there (write_file v p (contents p)) p ≡ true
  unfolding has_size get_file_size size_of unsized write_file put
  written_there v p o e = ground (
    arith,
    file_exist-write_file v p (contents p) o,
    resolve-write_file v p (contents p),
    e,
    eqb_refl p,
  )

  resolve_apart :
      (v : World) (p q c : Bytes)
      → resolve v p ≡ p
      → resolve v q ≡ q
      → resolve (write_file v p c) q ≡ q
  unfolding resolve write_file put
  resolve_apart v p q c e f = ground (arith, e, f, eqb_iff p q)

  there_same :
      (v v' : World) (q : Bytes)
      → v'.node q ≡ v.node q
      → resolve v q ≡ q
      → resolve v' q ≡ q
      → there v' q ≡ there v q
  unfolding get_file_size
  there_same v v' q n e f = rw (file_exist_same v v' q n, f, e, n) refl

  node_apart :
      (v : World) (p q c : Bytes)
      → eqb p q ≡ false
      → resolve v p ≡ p
      → (write_file v p c).node q ≡ v.node q
  unfolding write_file put
  node_apart v p q c n e = rw (e, n) refl

  node_here :
      (v : World) (p q : Bytes)
      → resolve v p ≡ p
      → eqb p q ≡ true
      → (write_file v p (contents p)).node q ≡ some (file (contents q))
  unfolding write_file put
  node_here v p q e f = rw (e, f) (ap (λ x. some (file (contents x))) ((eqb_iff p q).0 f))

  there_apart :
      (v : World) (p q c : Bytes)
      → eqb p q ≡ false
      → resolve v p ≡ p
      → resolve v q ≡ q
      → there (write_file v p c) q ≡ there v q
  there_apart v p q c n e f =
      there_same v (write_file v p c) q (node_apart v p q c n e) f (resolve_apart v p q c e f)

  module _ (w : World) (folder : Bytes) where
    -- What the rounds of the loop keep true of the machine, that was `w`, and of what is loaded.
    pub record Progress (v : World) (l : Loaded) : Type 0 where
      pub known :
          (q : Bytes)
          → lookup q l.layer_data
            ≡ (if has q l.layer_order then some (length (contents q)) else none)
      pub plain : (d : Bytes) → resolve v (layer_file folder d) ≡ layer_file folder d
      pub origin : (q : Bytes) → (v.node q ≡ w.node q) ⊎ (v.node q ≡ some (file (contents q)))
      pub stored :
          (d : Bytes)
          → has (layer_file folder d) l.layer_order ≡ true
          → there v (layer_file folder d) ≡ true

    known_too :
        (l : Loaded) (p q : Bytes)
        → lookup q l.layer_data ≡ (if has q l.layer_order then some (length (contents q)) else none)
        → lookup q (loaded_too l p (length (contents p))).layer_data ≡ (
            if has q (loaded_too l p (length (contents p))).layer_order
            then some (length (contents q))
            else none)
    unfolding loaded_too
    known_too l p q k = elim (Bool-cases (eqb p q)) [
      | inl e ↦
          let same : p ≡ q = (eqb_iff p q).0 e in
          lookup-insert p q (length (contents p)) l.layer_data
          ∙ rw (has-append q p l.layer_order) (ground (arith, e, same))
      | inr e ↦
          lookup-insert p q (length (contents p)) l.layer_data
          ∙ rw (has-append q p l.layer_order) (ground (arith, e, k))
    ]

    Progress-loaded_too :
        (v v' : World) (l : Loaded) (d : Bytes)
        → Progress v l
        → ((d' : Bytes) → resolve v' (layer_file folder d') ≡ layer_file folder d')
        → ((q : Bytes) → (v'.node q ≡ w.node q) ⊎ (v'.node q ≡ some (file (contents q))))
        → there v' (layer_file folder d) ≡ true
        → ((q : Bytes)
            → eqb (layer_file folder d) q ≡ false
            → resolve v q ≡ q
            → there v' q ≡ there v q)
        → Progress v' (loaded_too l (layer_file folder d) (length (contents (layer_file folder d))))
    unfolding loaded_too
    Progress-loaded_too v v' l d k pl o t apart =
        let p = layer_file folder d in
        record {
          known = λ q. known_too l p q (k.known q);
          plain = pl;
          origin = o;
          stored = λ d' h. elim (Bool-cases (eqb p (layer_file folder d'))) [
            | inl e ↦ subst (λ q. there v' q ≡ true) ((eqb_iff p (layer_file folder d')).0 e) t
            | inr e ↦
                apart (layer_file folder d') e (k.plain d')
                ∙ k.stored d' (has_before (layer_file folder d') p l.layer_order e h)
          ];
        }

    -- A round of the loop: what is loaded is in order, once.
    pub record Advance (v : World) (l : Loaded) (p : Bytes) (ps : List Bytes) : Type 0 where
      pub progress : Progress v l
      pub order : l.layer_order ≡ add_new ps p

    pub filled :
        (p : Bytes) (b : Blob) (v v' : World)
        → (b.failure ≡ none → b.content ≡ contents p)
        → fill_file p b v ≡ (ok tt, v')
        → (opens v p ≡ true) × (v' ≡ write_file v p (contents p))
    unfolding fill_file
    filled p b v v' c h = elim (Option-cases b.failure) [
      | inl e ↦ elim (Bool-cases (opens v p)) [
        | inl o ↦
            let g = rw (e, o, c e) at h in (o, sym (ap (λ (r : Result (Unit {0}) × World). r.1) g))
        | inr o ↦ let g = rw o at h in absurd (cc)
      ]
      | inr (x, e) ↦ elim (Bool-cases (opens v p)) [
        | inl o ↦ let g = rw (e, o) at h in absurd (cc)
        | inr o ↦ let g = rw o at h in absurd (cc)
      ]
    ]

    pub found_Advance :
        (v : World) (l : Loaded) (d : Bytes)
        → Progress v l
        → there v (layer_file folder d) ≡ true
        → Advance v
            (loaded_once
              (lookup (layer_file folder d) l.layer_data)
              l
              (layer_file folder d)
              (length (contents (layer_file folder d))))
            (layer_file folder d)
            l.layer_order
    unfolding loaded_once loaded_too
    found_Advance v l d k t =
        let p = layer_file folder d in
        elim (Bool-cases (has p l.layer_order)) [
          | inl e ↦ rw (k.known p, e) (record { progress = k; order = rw e refl })
          | inr e ↦
              rw (k.known p, e)
                (record {
                  progress = Progress-loaded_too v v l d k k.plain k.origin t (λ q n f. refl);
                  order = rw e refl;
                })
        ]

    pub written_Advance :
        (v : World) (l : Loaded) (d : Bytes)
        → Progress v l
        → there v (layer_file folder d) ≡ false
        → opens v (layer_file folder d) ≡ true
        → Advance
            (write_file v (layer_file folder d) (contents (layer_file folder d)))
            (loaded_too l (layer_file folder d) (length (contents (layer_file folder d))))
            (layer_file folder d)
            l.layer_order
    unfolding loaded_too
    written_Advance v l d k t o =
        let p = layer_file folder d in
        let c = contents p in
        elim (Bool-cases (has p l.layer_order)) [
          | inl e ↦ let t' : there v p ≡ true = k.stored d e in absurd (cc)
          | inr e ↦ record {
            progress =
                Progress-loaded_too v (write_file v p c) l d k
                  (λ d'. resolve_apart v p (layer_file folder d') c (k.plain d) (k.plain d'))
                  (λ q. elim (Bool-cases (eqb p q)) [
                    | inl f ↦ inr (node_here v p q (k.plain d) f)
                    | inr f ↦ elim (k.origin q) [
                      | inl x ↦ inl (node_apart v p q c f (k.plain d) ∙ x)
                      | inr x ↦ inr (node_apart v p q c f (k.plain d) ∙ x)
                    ]
                  ])
                  (written_there v p o (k.plain d)) (λ q n f. there_apart v p q c n (k.plain d) f);
            order = rw e refl;
          }
        ]
