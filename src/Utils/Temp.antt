-- ===== src/Utils/Temp.antt =====
-- The folders that CreateTempDir of utils/utils.go makes.
use lpmx.Base.{
  ℕ, zero, suc, ◌≤◌, ◌<◌, ◌≡◌, refl, true, false, inl, inr, Bool-cases, none, some, arith,
}
use lpmx.Base.Text.{Bytes}
use lpmx.Base.Paths.{below}
use lpmx.Base.Result.{ok}
use lpmx.Base.World.{World, dir, put, resolve, os_mkdir_all}
use lpmx.Utils.Files.{folder_exist}
use lpmx.Utils.Folders.{explain, explained}
use lpmx.Utils.Moving.{Machine, first_free, make_temp, create_temp_dir}

-- The first of the names that is no folder's.
record IsFound (names : ℕ → Bytes) (at : Bytes) (w : World) (i : ℕ) (n : ℕ) : Type 0 where
  j : ℕ
  early : j ≤ i
  is_free : folder_exist w (below at (names j)) ≡ false
  taken : (k : ℕ) → k < j → folder_exist w (below at (names k)) ≡ true
  found : first_free names at n w ≡ some (below at (names j))

taken_later :
    (names : ℕ → Bytes) (at : Bytes) (w : World) (j : ℕ)
    → folder_exist w (below at (names 0)) ≡ true
    → ((k : ℕ) → k < j → folder_exist w (below at (names (suc k))) ≡ true)
    → (k : ℕ) → k < suc j
    → folder_exist w (below at (names k)) ≡ true
taken_later names at w j e t zero l = e
taken_later names at w j e t (suc k) l = t k (omega (arith, l))

first_free-IsFound :
    (names : ℕ → Bytes) (at : Bytes) (w : World) (n i : ℕ)
    → i < n
    → folder_exist w (below at (names i)) ≡ false
    → IsFound names at w i n
unfolding first_free
first_free-IsFound names at w zero i h f = absurd (omega arith)
first_free-IsFound names at w (suc n) zero h f = record {
  j = 0;
  early = omega arith;
  is_free = f;
  taken = λ k l. absurd (omega arith);
  found = rw f refl;
}
first_free-IsFound names at w (suc n) (suc i) h f =
    elim (Bool-cases (folder_exist w (below at (names 0)))) [
      | inl e ↦
          let r = first_free-IsFound (λ k. names (suc k)) at w n i (omega arith) f in
          record {
            j = suc r.j;
            early = omega (arith, r.early);
            is_free = r.is_free;
            taken = taken_later names at w r.j e r.taken;
            found = rw e r.found;
          }
      | inr e ↦ record {
        j = 0;
        early = omega arith;
        is_free = e;
        taken = λ k l. absurd (omega arith);
        found = rw e refl;
      }
    ]

module _ (m : Machine) (at : Bytes) (w : World) where
  -- A path that is no folder is free, and a folder can be made there.
  abbrev pub IsRoomy : Type 0
  IsRoomy =
      (j : ℕ)
      → folder_exist w (below at (m.random w j)) ≡ false
      → (w.node (below at (m.random w j)) ≡ none) × (w.writable (below at (m.random w j)) ≡ true)

  made :
      (p : Bytes)
      → w.node p ≡ none
      → w.writable p ≡ true
      → make_temp (some p) w ≡ (ok p, put w p (some dir))
  unfolding make_temp explain explained os_mkdir_all resolve
  made p e o = ground (arith, e, o)

  -- CreateTempDir below a folder, where the text number `i` of RandomString names no folder, the
  -- program looks at as many, and what is no folder is free: it ends with a new folder, of the
  -- first text that names none, and changes nothing else.
  pub create_temp_dir_ends :
      (i : ℕ)
      → folder_exist w at ≡ true
      → i < m.rounds
      → folder_exist w (below at (m.random w i)) ≡ false
      → IsRoomy
      → (j : ℕ) × (j ≤ i)
        × ((k : ℕ) → k < j → folder_exist w (below at (m.random w k)) ≡ true)
        × (folder_exist w (below at (m.random w j)) ≡ false)
        × (create_temp_dir m at w
            ≡ (ok (below at (m.random w j)), put w (below at (m.random w j)) (some dir)))
  unfolding create_temp_dir
  create_temp_dir_ends i e l f room =
      let r = first_free-IsFound (m.random w) at w m.rounds i l f in
      let (n, o) = room r.j r.is_free in
      (r.j, r.early, r.taken, r.is_free, rw (e, r.found) (made (below at (m.random w r.j)) n o))
