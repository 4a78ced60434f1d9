-- ===== src/Container/Relied.antt =====
-- CommonDelete of container/container.go spares an image that a container relies on.
use lpmx.Base.{
  ◌≡◌, ◌≢◌, refl, ap, sym, ◌∙◌, Bool, Option, none, some, [], ◌∷◌, arith, Bool-cases, inl, inr,
}
use lpmx.Base.Text.{Bytes, codes, eqb, eqb_iff}
use lpmx.Base.Dict.{Dict, lookup}
use lpmx.Base.Result.{Result, ok, err, panic}
use lpmx.Base.World.{World, Go, continue, ◌>>=◌, >>=-ok}
use lpmx.Utils.Files.{read_from_file}
use lpmx.Container.Config.{Host, get_config_dir}
use lpmx.Container.Sys.{Scalar, text, other, Entry, fields, scalar, Sys, Codec, unmarshal_obj}
use lpmx.Container.Append.{Container}
use lpmx.Container.Maps.{sys_dir, as_text}
use lpmx.Container.Images.{Image, check_unused, common_delete}

-- The machine is as before, and the call did not succeed.
abbrev IsRefusal : Go (Unit {0}) → World → Type 0
IsRefusal m w = ((m w).0 ≢ ok tt) × ((m w).1 ≡ w)

unmarshal_obj-world :
    {A : Type 0} (c : Codec A) (dir : Bytes) (w : World) → (unmarshal_obj c dir w).1 ≡ w
unfolding unmarshal_obj read_from_file
unmarshal_obj-world c dir w = ground arith

as_text-world : (s : Option Scalar) (w : World) → (as_text s w).1 ≡ w
unfolding as_text
as_text-world none w = refl
as_text-world (some (text s)) w = refl
as_text-world (some (other s)) w = refl

-- A call that leaves the machine, and what follows fails: it all fails.
>>=-IsRefusal :
    {A : Type 0} (m : Go A) (f : A → Go (Unit {0})) (w : World)
    → (m w).1 ≡ w
    → ((a : A) → (m w).0 ≡ ok a → IsRefusal (f a) w)
    → IsRefusal (m >>= f) w
>>=-IsRefusal m f w e h = by_case (m w).0 (m w).1 e (λ a q. h a q)
  where
    by_case :
        (r : Result _) (v : World)
        → v ≡ w
        → ((a : _) → r ≡ ok a → IsRefusal (f a) w)
        → ((continue r f v).0 ≢ ok tt) × ((continue r f v).1 ≡ w)
    by_case (ok a) v q k = rw q (k a refl)
    by_case (err x) v q k = (cc, q)
    by_case panic v q k = (cc, q)

as_text-text :
    (s : Option Scalar) (w : World) (a : Bytes) → (as_text s w).0 ≡ ok a → s ≡ some (text a)
unfolding as_text
as_text-text none w a e = absurd (cc)
as_text-text (some (text s)) w a e = cc
as_text-text (some (other s)) w a e = absurd (cc)

text_inj : (s t : Bytes) → some (text s) ≡ some (text t) → s ≡ t
text_inj s t e = cc

ok_inj : {A : Type 0} (a b : A) → Result.ok a ≡ ok b → a ≡ b
ok_inj a b e = cc

module _ (cc' : Codec Container) (name : Bytes) (w : World) where
  -- The container whose file is below `cfg` relies on the image.
  pub record IsRelied (m : Dict Scalar) : Type 0 where
    pub cfg : Bytes
    pub config : lookup (codes "ConfigPath") m ≡ some (text cfg)
    pub con : Container
    pub loaded : (unmarshal_obj cc' cfg w).0 ≡ ok con
    pub image : con.image_base ≡ name

  as_text-IsRefusal :
      (m : Dict Scalar) (f : Container → Go (Unit {0}))
      → ((cfg : Bytes) (con : Container)
          → lookup (codes "ConfigPath") m ≡ some (text cfg)
          → (unmarshal_obj cc' cfg w).0 ≡ ok con
          → IsRefusal (f con) w)
      → IsRefusal (as_text (lookup (codes "ConfigPath") m) >>= λ cfg. unmarshal_obj cc' cfg >>= f) w
  as_text-IsRefusal m f k =
      >>=-IsRefusal (as_text (lookup (codes "ConfigPath") m)) _ w
        (as_text-world (lookup (codes "ConfigPath") m) w)
        (λ cfg e.
          >>=-IsRefusal (unmarshal_obj cc' cfg) f w (unmarshal_obj-world cc' cfg w)
            (λ con l. k cfg con (as_text-text (lookup (codes "ConfigPath") m) w cfg e) l))

  relied_image :
      (m m' : Dict Scalar) (cfg : Bytes) (con : Container)
      → some (fields m') ≡ some (fields m)
      → lookup (codes "ConfigPath") m' ≡ some (text cfg)
      → (unmarshal_obj cc' cfg w).0 ≡ ok con
      → IsRelied m
      → con.image_base ≡ name
  relied_image m m' cfg con e c l r =
      let same : m' ≡ m = cc in
      let path : cfg ≡ r.cfg =
        text_inj cfg r.cfg (sym c ∙ (ap (lookup (codes "ConfigPath")) same ∙ r.config)) in
      let con_same : con ≡ r.con =
        ok_inj con r.con (sym l ∙ (ap (λ p. (unmarshal_obj cc' p w).0) path ∙ r.loaded)) in
      ap (λ (x : Container). x.image_base) con_same ∙ r.image

  check_unused-IsRefusal :
      (key : Bytes) (m : Dict Scalar) (containers : Dict Entry)
      → lookup key containers ≡ some (fields m)
      → IsRelied m
      → IsRefusal (check_unused cc' name containers) w
  unfolding check_unused lookup
  check_unused-IsRefusal key m [] e r = absurd (cc)
  check_unused-IsRefusal key m ((j, scalar s) ∷ containers) e r = (cc, refl)
  check_unused-IsRefusal key m ((j, fields m') ∷ containers) e r =
      as_text-IsRefusal m' _ (λ cfg con c l. elim (Bool-cases (eqb con.image_base name)) [
        | inl i ↦ rw i (cc, refl)
        | inr i ↦ elim (Bool-cases (eqb j key)) [
          | inl q ↦ absurd (
              ground
                (arith, relied_image m m' cfg con (rw q at e) c l r, eqb_iff con.image_base name))
          | inr q ↦ rw i (check_unused-IsRefusal key m containers (rw q at e) r)
        ]
      ])

-- CommonDelete of an image that a container of the registry relies on does not succeed, and leaves
-- the machine as it is, permanently or not: the image and the files of its layers stay. The
-- configuration and the registry are found, and the container is listed with its folder, where its
-- file says that it relies on the image.
pub common_delete_spares :
    (h : Host) (c : Codec Sys) (cc' : Codec Container) (ci : Codec Image) (dir name key : Bytes)
    (sys : Sys) (m : Dict Scalar) (permernant : Bool) (w : World)
    → get_config_dir h w ≡ (ok dir, w)
    → unmarshal_obj c (sys_dir dir) w ≡ (ok sys, w)
    → lookup key sys.containers ≡ some (fields m)
    → IsRelied cc' name w m
    → ((common_delete h c cc' ci name permernant w).0 ≢ ok tt)
      × ((common_delete h c cc' ci name permernant w).1 ≡ w)
unfolding common_delete
common_delete_spares h c cc' ci dir name key sys m permernant w g u e r =
    rw (>>=-ok (get_config_dir h) _ w dir w g, >>=-ok (unmarshal_obj c (sys_dir dir)) _ w sys w u)
      (let refused = check_unused-IsRefusal cc' name w key m sys.containers e r in
        >>=-IsRefusal (check_unused cc' name sys.containers) _ w refused.1
          (λ a q. absurd (refused.0 q)))
