-- ===== src/Base/World.antt =====
-- The machine as the Go code sees it: a file system, and what the operating system lets the process
-- do to it. A path is opened through one symbolic link, if it is one. A call of package os that is
-- refused changes nothing.
use Prim.Native.Nat.{ℕ}
use mathlib.Core.Path.{◌≡◌, refl, ap}
use mathlib.Core.Logic.{◌≢◌}
use mathlib.Core.Bool.{Bool, true, false, ◌&&◌, ◌||◌}
use mathlib.Core.Option.{Option, none, some}
use mathlib.Core.List.{[], ◌∷◌, ◌++◌}
use lpmx.Base.Lists.{length, drop}
use native.Mathlib.Omega.{arith}
use lpmx.Base.Tests.{if◌then◌else◌}
use lpmx.Base.Text.{Bytes, codes, eqb, eqb_iff, eqb_refl, has_prefix}
use lpmx.Base.Result.{Kind, Error, Result, ok, err, panic}

-- What stands at a path.
pub data Node : Type 0 where
  file : Bytes → Node
  dir pipe socket device : Node
  symlink : Bytes → Node

pub record World : Type 0 where
  pub node : Bytes → Option Node
  pub readable : Bytes → Bool
  pub writable : Bytes → Bool
  -- may everything at and below a path be removed?
  pub removable : Bytes → Bool
  -- how many bytes can be copied to a path, before the disk is full or its quota is used up?
  pub room : Bytes → ℕ

-- A function that works on the machine: what it returns, and the machine that it leaves.
abbrev pub Go {ℓ} : Type ℓ → Type ℓ
Go A = World → Result A × World

module _ {ℓ} {A : Type ℓ} where
  abbrev pub pure : A → Go A
  pure a w = (ok a, w)

  abbrev pub fail : Error → Go A
  fail e w = (err e, w)

  abbrev pub crash : Go A
  crash w = (panic, w)

module _ {ℓ κ} {A : Type ℓ} {B : Type κ} where
  abbrev pub continue : Result A → (A → Go B) → Go B
  continue (ok a) f w = f a w
  continue (err e) f w = (err e, w)
  continue panic f w = (panic, w)

infixl 5 ◌>>=◌ ◌>>◌
abbrev pub ◌>>=◌ {ℓ κ} : {A : Type ℓ} {B : Type κ} → Go A → (A → Go B) → Go B
◌>>=◌ m f w = let (r, w') = m w in continue r f w'

abbrev pub ◌>>◌ {ℓ} : {B : Type ℓ} → Go (Unit {0}) → Go B → Go B
m >> k = m >>= λ _. k

-- The path that a call which follows links ends at.
abbrev through : Option Node → Bytes → Bytes
through (some (symlink t)) p = t
through _ p = p

unfoldable pub resolve : World → Bytes → Bytes
resolve w p = through (w.node p) p

-- Put `n` at `p`.
unfoldable pub put : World → Bytes → Option Node → World
put w p n = record w { node = λ q. if eqb p q then n else w.node q }

-- What opening a node for reading gives.
abbrev content : Option Node → Bool → Result Bytes
content (some (file c)) true = ok c
content _ _ = err (record { kind = Kind.foreign (codes "open"); msg = [] })

-- ioutil.ReadFile
unfoldable pub read_file : World → Bytes → Result Bytes
read_file w p = let q = resolve w p in content (w.node q) (w.readable q)

abbrev can_write : Option Node → Bool
can_write none = true
can_write (some (file c)) = true
can_write _ = false

-- May `p` be opened for writing?
unfoldable pub opens : World → Bytes → Bool
opens w p = let q = resolve w p in if w.writable q then can_write (w.node q) else false

-- The machine after the open file at `p` has got the content `c`: os.Create with c empty,
-- ioutil.WriteFile.
unfoldable pub write_file : World → Bytes → Bytes → World
write_file w p c = put w (resolve w p) (some (file c))

-- What a path leads to stays what it was when the file there is written.
pub resolve-write_file : (w : World) (p c : Bytes) → resolve (write_file w p c) p ≡ resolve w p
unfolding resolve write_file put
resolve-write_file w p c = ground (arith, eqb_refl p, eqb_iff (resolve w p) p)

pub node-put :
    (w : World) (p q : Bytes) (n : Option Node)
    → (put w p n).node q ≡ (if eqb p q then n else w.node q)
unfolding put
node-put w p q n = refl

module _ (w : World) (p c : Bytes) where
  -- What is written is read back.
  pub read_file-write_file : w.readable (resolve w p) ≡ true → read_file (write_file w p c) p ≡ ok c
  unfolding read_file write_file put
  read_file-write_file h = ground (arith, resolve-write_file w p c, eqb_refl (resolve w p))

  pub opens-write_file : opens w p ≡ true → opens (write_file w p c) p ≡ true
  unfolding opens write_file put
  opens-write_file h = ground (arith, resolve-write_file w p c, eqb_refl (resolve w p))

-- A call that returns goes on.
pub >>=-ok {ℓ κ} :
    {A : Type ℓ} {B : Type κ} (m : Go A) (f : A → Go B) (w : World) (a : A) (w' : World)
    → m w ≡ (ok a, w')
    → (m >>= f) w ≡ f a w'
>>=-ok {A = A} m f w a w' e = ap (λ (p : Result A × World). continue p.0 f p.1) e

-- What a chain that succeeds has gone through.
pub >>=-eq-ok {ℓ κ} :
    {A : Type ℓ} {B : Type κ} (m : Go A) (f : A → Go B) (w : World) {b : B} {w' : World}
    → (m >>= f) w ≡ (ok b, w')
    → (a : A) × (v : World) × (m w ≡ (ok a, v)) × (f a v ≡ (ok b, w'))
>>=-eq-ok {A = A} m f w {b} {w'} h = by_case (m w).0 (m w).1 refl h
  where
    by_case :
        (r : Result A) (v : World)
        → m w ≡ (r, v)
        → continue r f v ≡ (ok b, w')
        → (a : A) × (v' : World) × (m w ≡ (ok a, v')) × (f a v' ≡ (ok b, w'))
    by_case (ok a) v e h = (a, v, e, h)
    by_case (err x) v e h = cc
    by_case panic v e h = cc

abbrev old_content : Option Node → Bytes
old_content (some (file c)) = c
old_content _ = []

-- The machine after `c` is written at the start of the file at `p`, which os.OpenFile opened
-- without O_TRUNC: what stands behind `c` stays.
unfoldable pub overwrite : World → Bytes → Bytes → World
overwrite w p c =
    let q = resolve w p in put w q (some (file (c ++ drop (length c) (old_content (w.node q)))))

-- Is `q` the path `p`, or below it?
unfoldable pub is_within : Bytes → Bytes → Bool
is_within p q = eqb q p || has_prefix q (p ++ b'/' ∷ [])

-- The machine without what stands at `p` and below.
unfoldable pub clear : World → Bytes → World
unfolding is_within
clear w p = record w { node = λ q. if is_within p q then none else w.node q }

-- os.RemoveAll
unfoldable pub os_remove_all : Bytes → Go (Unit {0})
unfolding clear
os_remove_all p w = elim (eqb p []) [
  | true ↦ (ok tt, w)
  | false ↦ elim (w.removable p) [
    | true ↦ (ok tt, clear w p)
    | false ↦ (err (record { kind = Kind.foreign (codes "remove"); msg = [] }), w)
  ]
]

-- os.MkdirAll
unfoldable pub os_mkdir_all : Bytes → Go (Unit {0})
os_mkdir_all p w =
    let q = resolve w p in
    elim (w.node q) [
      | some n ↦ (
        elim n [ dir ↦ ok tt | _ ↦ err (record { kind = Kind.foreign (codes "mkdir"); msg = [] }) ],
        w,
      )
      | none ↦ elim (w.writable q) [
        | true ↦ (ok tt, put w q (some dir))
        | false ↦ (err (record { kind = Kind.foreign (codes "mkdir"); msg = [] }), w)
      ]
    ]

-- os.Mkdir
unfoldable pub os_mkdir : Bytes → Go (Unit {0})
os_mkdir p w = elim (w.node p) [
  | some n ↦ (err (record { kind = Kind.foreign (codes "mkdir"); msg = [] }), w)
  | none ↦ elim (w.writable p) [
    | true ↦ (ok tt, put w p (some dir))
    | false ↦ (err (record { kind = Kind.foreign (codes "mkdir"); msg = [] }), w)
  ]
]

-- os.Remove of a path that is no directory with entries
unfoldable pub os_remove : Bytes → Go (Unit {0})
os_remove p w = elim (w.node p) [
  | none ↦ (err (record { kind = Kind.foreign (codes "remove"); msg = [] }), w)
  | some n ↦ elim (w.writable p) [
    | true ↦ (ok tt, put w p none)
    | false ↦ (err (record { kind = Kind.foreign (codes "remove"); msg = [] }), w)
  ]
]

-- os.Symlink
unfoldable pub os_symlink : Bytes → Bytes → Go (Unit {0})
os_symlink old new w = elim (w.node new) [
  | some n ↦ (err (record { kind = Kind.foreign (codes "symlink"); msg = [] }), w)
  | none ↦ elim (w.writable new) [
    | true ↦ (ok tt, put w new (some (symlink old)))
    | false ↦ (err (record { kind = Kind.foreign (codes "symlink"); msg = [] }), w)
  ]
]

takes : Node → Option Node → Bool
takes n none = true
takes n (some dir) = false
takes dir (some n) = false
takes n (some m) = true

refused : {A : Type 0} → Bytes → Result A
refused call = err (record { kind = Kind.foreign call; msg = [] })

-- The machine when what stands at `p` and below stands at `q` and below.
unfoldable pub moved : World → Bytes → Bytes → World
unfolding is_within
moved w p q = record w {
  node = λ r.
      if is_within q r
      then w.node (p ++ drop (length q) r)
      else if is_within p r
      then none
      else w.node r;
}

-- os.Rename, which takes no path that is a folder, nor a folder for a path that is something.
unfoldable pub os_rename : Bytes → Bytes → Go (Unit {0})
unfolding moved refused takes
os_rename p q w = elim (w.node p) [
  | none ↦ (refused (codes "rename"), w)
  | some n ↦ elim (takes n (w.node q) && w.removable p && w.writable q) [
    | true ↦ (ok tt, moved w p q)
    | false ↦ (refused (codes "rename"), w)
  ]
]

unfoldable pub ignored {ℓ} : {A : Type ℓ} → Result A → Result (Unit {0})
ignored (ok a) = ok tt
ignored (err e) = ok tt
ignored panic = panic

-- A call whose result is not looked at.
unfoldable pub ignoring {ℓ} : {A : Type ℓ} → Go A → Go (Unit {0})
unfolding ignored
ignoring m w = let (r, w') = m w in (ignored r, w')

-- A call, and the deferred one behind it.
unfoldable pub deferring {ℓ} : {A : Type ℓ} → Go (Unit {0}) → Go A → Go A
unfolding ignoring
deferring last m w = let (r, w') = m w in let (s, w'') = ignoring last w' in (r, w'')

ignored_ok {ℓ} : {A : Type ℓ} (r : Result A) → r ≢ panic → ignored r ≡ ok tt
unfolding ignored
ignored_ok (ok a) n = refl
ignored_ok (err e) n = refl
ignored_ok panic n = absurd (n refl)

-- A call that does not panic leaves its machine.
pub ignoring_ok {ℓ} :
    {A : Type ℓ} (m : Go A) (w : World) → (m w).0 ≢ panic → ignoring m w ≡ (ok tt, (m w).1)
unfolding ignoring
ignoring_ok m w n = rw (ignored_ok (m w).0 n) refl
