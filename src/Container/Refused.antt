-- ===== src/Container/Refused.antt =====
-- patchBineries asks refreshElf for changes that refreshElf does not know.
use lpmx.Base.{◌≡◌, refl, ap, fun_ext, true, Option, List, [], ◌∷◌, ◌++◌, if◌then◌else◌}
use mathlib.Core.Path.{ap₂}
use lpmx.Base.Text.{Bytes, codes, eqb}
use lpmx.Base.Result.{Kind, Error, Result, ok, err, panic, err_new}
use lpmx.Base.World.{Go, pure, fail, ◌>>=◌, ◌>>◌}
use lpmx.Utils.Files.{file_exist, folder_exist}
use lpmx.Utils.Guess.{guess_path, add_con_path}
use lpmx.Paeudo.{Exec}
use lpmx.Container.Sys.{Scalar, text, other}
use lpmx.Container.Conf.{Field, one, many, Setting, text_of}
use lpmx.Container.Append.{Container}
use lpmx.Container.Refresh.{refresh_elf}
use lpmx.Container.Patch.{
  Walker, walk_fs, add_allow_priv, remove_allow_priv, add_deny_priv, remove_deny_priv, patch_at,
  patch_key, patch_program, single_text, patch_each, patch_folder, patch_setting, patch_bineries,
}

-- The four names that patchBineries looks for.
pub data IsPriv : Bytes → Type 0 where
  allows : IsPriv add_allow_priv
  stops_allowing : IsPriv remove_allow_priv
  denies : IsPriv add_deny_priv
  stops_denying : IsPriv remove_deny_priv

abbrev pub unknown_key : Bytes → Error
unfolding err_new
unknown_key key = err_new Kind.n_exist (codes "key: " ++ key ++ codes " doesn't exist")

-- refreshElf fails on each of the four names, for every binary and values, and runs nothing.
pub refresh_elf-priv :
    (run : Exec) (patcher op : Bytes) (value : List Bytes) (prog : Bytes)
    → IsPriv op
    → refresh_elf run patcher op value prog ≡ fail (unknown_key op)
unfolding refresh_elf eqb codes add_allow_priv remove_allow_priv add_deny_priv remove_deny_priv
refresh_elf-priv run patcher op value prog allows = refl
refresh_elf-priv run patcher op value prog stops_allowing = refl
refresh_elf-priv run patcher op value prog denies = refl
refresh_elf-priv run patcher op value prog stops_denying = refl

bind_cong {ℓ κ} :
    {A : Type ℓ} {B : Type κ} (m : Go A) (f g : A → Go B)
    → ((a : A) → f a ≡ g a)
    → (m >>= f) ≡ (m >>= g)
bind_cong m f g h = ap (λ k. m >>= k) (fun_ext h)

module _ (run run' : Exec) (k : Walker) (con : Container) (op : Bytes) (p : IsPriv op) where
  same_refresh :
      (value : List Bytes) (prog : Bytes)
      → refresh_elf run con.elf_patcher_path op value prog
        ≡ refresh_elf run' con.elf_patcher_path op value prog
  same_refresh value prog =
      rw
        (
          refresh_elf-priv run con.elf_patcher_path op value prog p,
          refresh_elf-priv run' con.elf_patcher_path op value prog p,
        )
        refl

  same_at :
      (libs : List Bytes) (r : Result Bytes)
      → patch_at run k con op libs r ≡ patch_at run' k con op libs r
  unfolding patch_at
  same_at libs (ok prog) = same_refresh libs prog
  same_at libs (err e) = refl
  same_at libs panic = refl

  same_key :
      (libs : List Bytes) (key : Scalar)
      → patch_key run k con op libs key ≡ patch_key run' k con op libs key
  unfolding patch_key
  same_key libs (text s) =
      fun_ext
        (λ w. ap (λ (m : Go (Unit {0})). m w) (same_at libs (guess_path w con.root_path s true)))
  same_key libs (other s) = refl

  same_program :
      (key : Scalar) (v : Field)
      → patch_program run k con op key v ≡ patch_program run' k con op key v
  unfolding patch_program
  same_program key (many vs) = bind_cong _ _ _ (λ libs. same_key libs key)
  same_program key (one v) = refl

  same_each :
      (v : Field) (bineries : List Bytes)
      → patch_each run k con op v bineries ≡ patch_each run' k con op v bineries
  unfolding patch_each
  same_each v [] = refl
  same_each v (binery ∷ bineries) =
      ap₂ (λ (m n : Go (Unit {0})). m >> n)
        (fun_ext (λ w.
          ap (λ (m : Go (Unit {0})). (if file_exist w binery then m else pure tt) w)
            (bind_cong (single_text run k con v) _ _ (λ s. same_refresh (s ∷ []) binery))))
        (same_each v bineries)

  same_folder :
      (key : Scalar) (v : Field)
      → patch_folder run k con op key v ≡ patch_folder run' k con op key v
  unfolding patch_folder
  same_folder key v = bind_cong _ _ _ (λ libs. bind_cong (text_of key) _ _ (λ s.
      ap₂ (λ (m n : Go (Unit {0})). m >> n)
        (fun_ext (λ w.
          ap
            (λ (m : Go (Unit {0})).
              (if file_exist w (add_con_path con.root_path s) then m else pure tt) w)
            (same_refresh libs (add_con_path con.root_path s))))
        (fun_ext (λ w.
          ap
            (λ (m : Go (Unit {0})).
              (if folder_exist w (add_con_path con.root_path s) then m else pure tt) w)
            (bind_cong (walk_fs k (add_con_path con.root_path s)) _ _
              (λ bineries. same_each v bineries))))))

  same_programs : patch_program run k con op ≡ patch_program run' k con op
  same_programs = fun_ext (λ key. fun_ext (λ v. same_program key v))

  same_folders : patch_folder run k con op ≡ patch_folder run' k con op
  same_folders = fun_ext (λ key. fun_ext (λ v. same_folder key v))

setting_cong :
    (run run' : Exec) (k : Walker) (con : Container) {f g : Scalar → Field → Go (Unit {0})}
    (s : Option Setting)
    → f ≡ g
    → patch_setting run k con f s ≡ patch_setting run' k con g s
unfolding patch_setting
setting_cong run run' k con s e = rw e refl

-- patchBineries never runs patchelf: for every machine, container and settings it does the same,
-- whatever running a program does.
pub patch_bineries_idle :
    (run run' : Exec) (k : Walker) (con : Container)
    → patch_bineries run k con ≡ patch_bineries run' k con
unfolding patch_bineries
patch_bineries_idle run run' k con =
    rw
      (
        same_programs run run' k con add_allow_priv allows,
        same_programs run run' k con remove_allow_priv stops_allowing,
        same_folders run run' k con add_deny_priv denies,
        same_folders run run' k con remove_deny_priv stops_denying,
      )
      refl
