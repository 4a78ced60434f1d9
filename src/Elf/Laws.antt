-- ===== src/Elf/Laws.antt =====
-- Patchldso of elf/elf.go only blanks bytes: no byte moves, and none becomes another than NUL.
use lpmx.Base.{
  ℕ, zero, suc, ◌-◌, ◌<◌, ◌≤◌, ◌≡◌, ◌≢◌, refl, ◌⊎◌, inl, inr, true, [], ◌∷◌, ◌++◌, length, drop,
  arith, Bool-cases, sym,
}
use mathlib.Core.Path.{subst}
use lpmx.Base.Text.{Bytes, codes, has_prefix}
use lpmx.Base.Result.{ok}
use lpmx.Base.World.{World, Go, read_file, opens, write_file, resolve, read_file-write_file}
use lpmx.Elf.{
  replace_from, replace, nuls, etc, etc1, lib, usr, nul, patch, or_missing, write_patched,
  patchldso,
}

-- The second text is the first with some bytes set to NUL.
abbrev pub Blanked : Bytes → Bytes → Type 0
Blanked [] [] = Unit
Blanked [] (d ∷ t) = ⊥
Blanked (c ∷ s) [] = ⊥
Blanked (c ∷ s) (d ∷ t) = ((d ≡ c) ⊎ (d ≡ 0)) × Blanked s t

Blanked-refl : (s : Bytes) → Blanked s s
Blanked-refl [] = tt
Blanked-refl (c ∷ s) = (inl refl, Blanked-refl s)

Blanked-trans : (s t u : Bytes) → Blanked s t → Blanked t u → Blanked s u
Blanked-trans [] [] [] h k = tt
Blanked-trans (c ∷ s) (d ∷ t) (e ∷ u) (h, hs) (k, ks) = (ground arith, Blanked-trans s t u hs ks)
Blanked-trans [] [] (e ∷ u) h k = absurd k
Blanked-trans [] (d ∷ t) u h k = absurd h
Blanked-trans (c ∷ s) [] u h k = absurd h
Blanked-trans (c ∷ s) (d ∷ t) [] h k = absurd k

Blanked-append : (s t u v : Bytes) → Blanked s t → Blanked u v → Blanked (s ++ u) (t ++ v)
Blanked-append [] [] u v h k = k
Blanked-append (c ∷ s) (d ∷ t) u v (h, hs) k = (h, Blanked-append s t u v hs k)
Blanked-append [] (d ∷ t) u v h k = absurd h
Blanked-append (c ∷ s) [] u v h k = absurd h

-- A blanked text is as long.
pub Blanked-length : (s t : Bytes) → Blanked s t → length t ≡ length s
Blanked-length [] [] h = refl
Blanked-length (c ∷ s) (d ∷ t) (h, hs) = omega (arith, Blanked-length s t hs)
Blanked-length [] (d ∷ t) h = absurd h
Blanked-length (c ∷ s) [] h = absurd h

has_prefix-append : (s p : Bytes) → has_prefix s p ≡ true → s ≡ p ++ drop (length p) s
unfolding has_prefix
has_prefix-append s [] h = refl
has_prefix-append [] (c ∷ p) h = ground arith
has_prefix-append (b ∷ s) (c ∷ p) h = ground (arith, has_prefix-append s p)

module _ (old new : Bytes) where
  replace_from-drop :
      (skip : ℕ) (s : Bytes) → replace_from old new skip s ≡ replace_from old new 0 (drop skip s)
  unfolding replace_from
  replace_from-drop zero s = refl
  replace_from-drop (suc skip) [] = refl
  replace_from-drop (suc skip) (c ∷ s) = replace_from-drop skip s

length-drop_le : (n : ℕ) (s : Bytes) → length (drop n s) ≤ length s
length-drop_le zero s = omega arith
length-drop_le (suc n) [] = omega arith
length-drop_le (suc n) (c ∷ s) = omega (arith, length-drop_le n s)

length_tail : (o : ℕ) (os : Bytes) → length (o ∷ os) - 1 ≡ length os
length_tail o os = omega arith

Blanked-replace_from :
    (o : ℕ) (os new : Bytes) (fuel : ℕ) (s : Bytes)
    → Blanked (o ∷ os) new
    → length s < fuel
    → Blanked s (replace_from (o ∷ os) new 0 s)
unfolding replace_from
Blanked-replace_from o os new zero s b h = absurd (omega arith)
Blanked-replace_from o os new (suc fuel) [] b h = tt
Blanked-replace_from o os new (suc fuel) (c ∷ s) b h =
    elim (Bool-cases (has_prefix (c ∷ s) (o ∷ os))) [
      | inl e ↦
          let rest = drop (length os) s in
          rw (e, length_tail o os, replace_from-drop (o ∷ os) new (length os) s)
            (subst (λ t. Blanked t (new ++ replace_from (o ∷ os) new 0 rest))
              (sym (has_prefix-append (c ∷ s) (o ∷ os) e))
              (Blanked-append (o ∷ os) new rest _ b (
                Blanked-replace_from o os new fuel rest b
                  (omega (arith, length-drop_le (length os) s)))))
      | inr e ↦ rw e (inl refl, Blanked-replace_from o os new fuel s b (omega arith))
    ]

Blanked-replace : (s old new : Bytes) → old ≢ [] → Blanked old new → Blanked s (replace s old new)
unfolding replace
Blanked-replace s [] new n b = absurd (n refl)
Blanked-replace s (o ∷ os) new n b =
    Blanked-replace_from o os new (suc (length s)) s b (omega arith)

Blanked-nuls : (s : Bytes) → Blanked s (nuls (length s))
unfolding nuls
Blanked-nuls [] = tt
Blanked-nuls (c ∷ s) = (inr refl, Blanked-nuls s)

Blanked-nul : (s : Bytes) → Blanked (0 ∷ b'/' ∷ s) (nul (length s))
unfolding nul
Blanked-nul s = (inl refl, (inl refl, Blanked-nuls s))

-- Each text that is replaced is blanked by what it is replaced with.
Blanked-texts :
    Blanked etc (nul 18) × Blanked etc1 (nul 16) × Blanked lib (nul 3) × Blanked usr (nul 7)
unfolding etc etc1 lib usr codes
Blanked-texts = (
  Blanked-nul (codes "etc/ld.so.preload" ++ 0 ∷ []),
  Blanked-nul (codes "etc/ld.so.cache" ++ 0 ∷ []),
  Blanked-nul (codes "lib"),
  Blanked-nul (codes "usr/lib"),
)

texts-ne-nil : (etc ≢ []) × (etc1 ≢ []) × (lib ≢ []) × (usr ≢ [])
unfolding etc etc1 lib usr
texts-ne-nil = (cc, cc, cc, cc)

Blanked-patch : (s : Bytes) → Blanked s (patch s)
unfolding patch
Blanked-patch s =
    let (n1, n2, n3, n4) = texts-ne-nil in
    let (b1, b2, b3, b4) = Blanked-texts in
    let s1 = replace s etc (nul 18) in
    let s2 = replace s1 etc1 (nul 16) in
    let s3 = replace s2 lib (nul 3) in
    Blanked-trans s s1 _ (Blanked-replace s etc (nul 18) n1 b1) (
      Blanked-trans s1 s2 _ (Blanked-replace s1 etc1 (nul 16) n2 b2) (
        Blanked-trans s2 s3 _ (Blanked-replace s2 lib (nul 3) n3 b3)
          (Blanked-replace s3 usr (nul 7) n4 b4)))

patchldso_ok :
    (get_file_permission : Bytes → Go ℕ) (elfpath newpath s : Bytes) (mode : ℕ) (w : World)
    → read_file w elfpath ≡ ok s
    → get_file_permission elfpath w ≡ (ok mode, w)
    → opens w newpath ≡ true
    → patchldso get_file_permission elfpath newpath w ≡ (ok tt, write_file w newpath (patch s))
unfolding patchldso or_missing write_patched
patchldso_ok get_file_permission elfpath newpath s mode w r g o = rw (r, g, o) refl

-- Patchldso on a file that can be read, whose permissions are found without a change to the machine,
-- and a new path that can be written and read: it succeeds, and the new file is the old one with
-- some bytes set to NUL, so it is as long and no offset in it moves.
pub patchldso_blanks :
    (get_file_permission : Bytes → Go ℕ) (elfpath newpath s : Bytes) (mode : ℕ) (w : World)
    → read_file w elfpath ≡ ok s
    → get_file_permission elfpath w ≡ (ok mode, w)
    → opens w newpath ≡ true
    → w.readable (resolve w newpath) ≡ true
    → (patched : Bytes) × ((patchldso get_file_permission elfpath newpath w).0 ≡ ok tt)
      × (read_file (patchldso get_file_permission elfpath newpath w).1 newpath ≡ ok patched)
      × Blanked s patched
      × (length patched ≡ length s)
patchldso_blanks get_file_permission elfpath newpath s mode w r g o c =
    rw (patchldso_ok get_file_permission elfpath newpath s mode w r g o) (
      patch s,
      refl,
      read_file-write_file w newpath (patch s) c,
      Blanked-patch s,
      Blanked-length s (patch s) (Blanked-patch s),
    )
