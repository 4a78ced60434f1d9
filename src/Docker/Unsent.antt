-- ===== src/Docker/Unsent.antt =====
-- UploadLayers of docker/docker.go, on what HasBlob says.
use lpmx.Base.{◌≡◌, ◌==◌, refl, Bool, true, inl, inr, Bool-cases}
use lpmx.Base.Text.{Bytes, codes}
use lpmx.Base.Result.{Error, Result, ok, err, panic}
use lpmx.Base.World.{World, Go, pure, ◌>>=◌, >>=-eq-ok, continue}
use lpmx.Utils.Moving.{Machine, sha256file}
use lpmx.Docker.Layers.{Hub, full_name}
use lpmx.Docker.Push.{
  Client, Manifests, requested, get_token, has_blob, upload_unless, upload_layers,
}

-- Two chains that go on in the same way wherever the first call succeeds.
>>=-same :
    {A B : Type 0} (m : Go A) (f g : A → Go B) (w : World)
    → ((a : A) (v : World) → m w ≡ (ok a, v) → f a v ≡ g a v)
    → (m >>= f) w ≡ (m >>= g) w
>>=-same {A = A} {B = B} m f g w h = by_case (m w).0 (m w).1 refl
  where
    by_case : (r : Result A) (v : World) → m w ≡ (r, v) → continue r f v ≡ continue r g v
    by_case (ok a) v e = h a v e
    by_case (err x) v e = refl
    by_case panic v e = refl

module _ (c : Client) where
  -- HasBlob never returns that there is no such layer.
  has_blob_there :
      (repository token sha256 : Bytes) (w : World) (b : Bool) (v : World)
      → has_blob c repository token sha256 w ≡ (ok b, v)
      → b ≡ true
  unfolding has_blob
  has_blob_there repository token sha256 w b v h =
      let (resp, v', e, k) = >>=-eq-ok (requested c _ _ _ _ _ _) _ w h in
      elim (Bool-cases (resp.status_code == 200)) [
        | inl s ↦ answered b v' v (rw s at k)
        | inr s ↦ absurd (failed _ b v' v (rw s at k))
      ]
    where
      answered :
          (b : Bool) (v' v : World)
          → ◌≡◌ {A = Result Bool × World} (ok true, v') (ok b, v)
          → b ≡ true
      answered b v' v e = cc

      failed :
          (x : Error) (b : Bool) (v' v : World)
          → ◌≡◌ {A = Result Bool × World} (err x, v') (ok b, v)
          → ⊥
      failed x b v' v e = cc

  module _ (x : Manifests) (m : Machine) (hub : Hub) where
    -- UploadLayers is the checksum of the file, the request for a token, and the question whether
    -- the layer is there, with the checksum as its result: since HasBlob answers that it is there
    -- or fails, no layer and no manifest is ever uploaded.
    pub upload_layers_asks :
        (username pass name tag file base_image : Bytes) (w : World)
        → upload_layers x m hub c username pass name tag file base_image w
          ≡ (do
            sha256 ← sha256file m file
            token ← get_token c (full_name name) username pass (codes "pull,push")
            hok ← has_blob c (full_name name) token sha256
            pure sha256)
              w
    unfolding upload_layers upload_unless
    upload_layers_asks username pass name tag file base_image w =
        >>=-same (sha256file m file) _ _ w (λ sha256 v e.
          >>=-same (get_token c (full_name name) username pass (codes "pull,push")) _ _ v
            (λ token v1 e1.
              >>=-same (has_blob c (full_name name) token sha256) _ _ v1
                (λ hok v2 e2. rw (has_blob_there (full_name name) token sha256 v1 hok v2 e2) refl)))
