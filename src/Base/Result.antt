-- ===== src/Base/Result.antt =====
-- error/error.go, and what a Go function returns: a value, an error, or a panic that ends the run.
-- `*Error` is a kind with its list of messages; an error of Go's libraries or of the operating
-- system is the kind `foreign` with its text.
use mathlib.Core.List.{List, [], ◌∷◌}
use lpmx.Base.Text.{Bytes}

pub data Kind : Type 0 where
  nil_error type_error full n_exist exist mismatch file_stat unknown dir_make marshal file_io cmd
        status rpc_server http_unauthorized http_not_found zero_size pid_live operation
        permission_root :
      Kind
  foreign : Bytes → Kind

-- type Error struct
pub record Error : Type 0 where
  pub kind : Kind
  pub msg : List Bytes

-- ErrNew
unfoldable pub err_new : Kind → Bytes → Error
err_new k m = record { kind = k; msg = m ∷ [] }

pub data Result {ℓ} (R : Type ℓ) : Type ℓ where
  panic : Result R
  err : Error → Result R
  ok : R → Result R

-- `return` of an error in the middle of a function, and of a panic.
infixl 5 ◌>>=◌ ◌>>◌
abbrev pub ◌>>=◌ {ℓ κ} : {R : Type ℓ} {S : Type κ} → Result R → (R → Result S) → Result S
panic >>= k = panic
err x >>= k = err x
ok r >>= k = k r

abbrev pub ◌>>◌ {κ} : {S : Type κ} → Result (Unit {0}) → Result S → Result S
r >> rest = r >>= λ done. rest
