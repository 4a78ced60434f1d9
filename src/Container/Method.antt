-- ===== src/Container/Method.antt =====
-- The methods of *Container in container/container.go, which change the container that they are
-- called on, also when they then return an error.
use lpmx.Base.{[], ◌∷◌, ◌++◌}
use lpmx.Base.Text.{Bytes}
use lpmx.Base.Result.{Error, Result, ok, err, panic}
use lpmx.Base.World.{World, Go}
use lpmx.Container.Append.{Container}

-- What a method returns, the container that it leaves, and the machine.
abbrev pub Method {ℓ} : Type ℓ → Type ℓ
Method A = Container → World → Result A × Container × World

module _ {ℓ} {A : Type ℓ} where
  abbrev pub give : A → Method A
  give a con w = (ok a, con, w)

  abbrev pub call : Go A → Method A
  call m con w = let (r, w') = m w in (r, con, w')

  -- A function of the container as it is.
  abbrev pub with_con : (Container → Method A) → Method A
  with_con f con w = f con con w

abbrev pub modify : (Container → Container) → Method (Unit {0})
modify f con w = (ok tt, f con, w)

module _ {ℓ κ} {A : Type ℓ} {B : Type κ} where
  abbrev pub proceed : Result A → (A → Method B) → Method B
  proceed (ok a) f con w = f a con w
  proceed (err e) f con w = (err e, con, w)
  proceed panic f con w = (panic, con, w)

infixl 5 ◌>>=◌ ◌>>◌
abbrev pub ◌>>=◌ {ℓ κ} : {A : Type ℓ} {B : Type κ} → Method A → (A → Method B) → Method B
◌>>=◌ m f con w = let (r, con', w') = m con w in proceed r f con' w'

abbrev pub ◌>>◌ {ℓ} : {B : Type ℓ} → Method (Unit {0}) → Method B → Method B
m >> k = m >>= λ done. k

-- err.AddMsg
unfoldable pub add_msg : Bytes → Error → Error
add_msg m e = record e { msg = e.msg ++ m ∷ [] }

unfoldable pub adding {ℓ} : {A : Type ℓ} → Bytes → Result A → Result A
unfolding add_msg
adding m (ok a) = ok a
adding m (err e) = err (add_msg m e)
adding m panic = panic

-- A call whose error gets one more message.
unfoldable pub adding_msg {ℓ} : {A : Type ℓ} → Bytes → Method A → Method A
unfolding adding
adding_msg m f con w = let (r, con', w') = f con w in (adding m r, con', w')
