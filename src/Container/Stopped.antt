-- ===== src/Container/Stopped.antt =====
-- Update of container/container.go, and the containers that run.
use lpmx.Base.{
  ◌≡◌, ◌≢◌, ◌⊎◌, refl, sym, ap, ◌∙◌, Bool, false, inl, inr, Bool-cases, Option, none, some, [], ◌∷◌,
  All, if◌then◌else◌,
}
use mathlib.Core.Path.{ap₂}
use lpmx.Base.Text.{Bytes, codes}
use lpmx.Base.Paths.{path_dir}
use lpmx.Base.Dict.{Dict, lookup}
use lpmx.Base.Result.{Error, Result, ok, err, panic}
use lpmx.Base.World.{World, Go, pure, fail, ◌>>=◌, >>=-ok, continue}
use lpmx.Utils.Files.{folder_exist}
use lpmx.Pid.{Processes, pid_is_active, by_file}
use lpmx.Container.Config.{get_config_dir}
use lpmx.Container.Sys.{Scalar, text, other, Entry, fields, scalar, Sys, Codec, unmarshal_obj}
use lpmx.Container.Append.{Container}
use lpmx.Container.Destroy.{pid_file}
use lpmx.Container.Settings.{unmarshal_obj_loaded, get_config_dir_ok}
use lpmx.Container.Initial.{check_stopped}
use lpmx.Container.Install.{Supplies}
use lpmx.Container.Maps.{sys_dir, as_text}
use lpmx.Container.Resume.{or_false}
use lpmx.Container.Update.{no_config, update_stopped, update}

-- A call that fails and leaves the machine.
pub record Fails {A : Type 0} (m : Go A) (w : World) : Type 0 where
  pub result : Result A
  pub failure : (a : A) → result ≢ ok a
  pub call : m w ≡ (result, w)

pub err-Fails : {A : Type 0} (m : Go A) (e : Error) (w : World) → m w ≡ (err e, w) → Fails m w
err-Fails m e w h = record { result = err e; failure = λ a. cc; call = h }

-- A call that succeeds under a condition, and leaves the machine.
abbrev Decides : Go (Unit {0}) → World → Type 0 → Type 0
Decides m w G = (G × (m w ≡ (ok tt, w))) ⊎ Fails m w

Decides-step :
    {A : Type 0} {G : Type 0} (m : Go A) (f : A → Go (Unit {0})) (w : World)
    → (m w).1 ≡ w
    → ((a : A) → (m w).0 ≡ ok a → Decides (f a) w G)
    → Decides (m >>= f) w G
Decides-step {A = A} {G = G} m f w k g = by_case (m w).0 refl
  where
    came : (r : Result A) → (m w).0 ≡ r → m w ≡ (r, w)
    came r e = ap₂ (λ (q : Result A) (v : World). (q, v)) e k

    failing :
        (r : Result A)
        → (m w).0 ≡ r
        → (q : Result (Unit {0})) → continue r f w ≡ (q, w)
        → ((a : Unit {0}) → q ≢ ok a)
        → Fails (m >>= f) w
    failing r e q c n = record {
      result = q;
      failure = n;
      call = ap (λ (p : Result A × World). continue p.0 f p.1) (came r e) ∙ c;
    }

    by_case : (r : Result A) → (m w).0 ≡ r → Decides (m >>= f) w G
    by_case (ok a) e = elim (g a e) [
      | inl x ↦ inl (x.0, >>=-ok m f w a w (came (ok a) e) ∙ x.1)
      | inr x ↦ inr (record {
        result = x.result;
        failure = x.failure;
        call = >>=-ok m f w a w (came (ok a) e) ∙ x.call;
      })
    ]
    by_case (err k) e = inr (failing (err k) e (err k) refl (λ b. cc))
    by_case panic e = inr (failing panic e panic refl (λ b. cc))

Decides-guard :
    {G : Type 0} (test : World → Bool) (error : World → Error) (rest : Go (Unit {0})) (w : World)
    → (test w ≡ false → Decides rest w G)
    → Decides (λ v. (if test v then fail (error v) else rest) v) w G
Decides-guard test error rest w g = elim (Bool-cases (test w)) [
  | inl r ↦ inr (record { result = err (error w); failure = λ a. cc; call = rw r refl })
  | inr r ↦ elim (g r) [
    | inl y ↦ inl (y.0, rw r y.1)
    | inr y ↦ inr (record { result = y.result; failure = y.failure; call = rw r y.call })
  ]
]

pub as_text_found :
    (x : Option Scalar) (w : World) (t : Bytes) → (as_text x w).0 ≡ ok t → x ≡ some (text t)
unfolding as_text
as_text_found none w t e = absurd (cc)
as_text_found (some (text s)) w t e = cc
as_text_found (some (other s)) w t e = absurd (cc)

pub as_text_keeps : (x : Option Scalar) (w : World) → (as_text x w).1 ≡ w
unfolding as_text
as_text_keeps none w = refl
as_text_keeps (some (text s)) w = refl
as_text_keeps (some (other s)) w = refl

pub >>=-Fails : {A B : Type 0} (m : Go A) (f : A → Go B) (w : World) → Fails m w → Fails (m >>= f) w
>>=-Fails {A = A} {B = B} m f w x = by_case x.result x.failure x.call
  where
    failing :
        (r : Result A) (q : Result B)
        → m w ≡ (r, w)
        → continue r f w ≡ (q, w)
        → ((b : B) → q ≢ ok b)
        → Fails (m >>= f) w
    failing r q e c n = record {
      result = q;
      failure = n;
      call = ap (λ (p : Result A × World). continue p.0 f p.1) e ∙ c;
    }

    by_case : (r : Result A) → ((a : A) → r ≢ ok a) → m w ≡ (r, w) → Fails (m >>= f) w
    by_case (ok a) n e = absurd (n a refl)
    by_case (err k) n e = failing (err k) (err k) e refl (λ b. cc)
    by_case panic n e = failing panic panic e refl (λ b. cc)

pub >>=-Fails_later :
    {A B : Type 0} (m : Go A) (f : A → Go B) (w : World) (a : A)
    → m w ≡ (ok a, w)
    → Fails (f a) w
    → Fails (m >>= f) w
>>=-Fails_later m f w a e x = record {
  result = x.result;
  failure = x.failure;
  call = >>=-ok m f w a w e ∙ x.call;
}

-- A call that leaves the machine, and one behind it that is refused where `G` does not hold.
pub refused_step :
    {A B : Type 0} {G : Type 0} (m : Go A) (f : A → Go B) (w : World)
    → (m w).1 ≡ w
    → ((a : A) → (m w).0 ≡ ok a → G ⊎ Fails (f a) w)
    → G ⊎ Fails (m >>= f) w
refused_step {A = A} {B = B} {G = G} m f w k g = by_case (m w).0 refl
  where
    came : (r : Result A) → (m w).0 ≡ r → m w ≡ (r, w)
    came r e = ap₂ (λ (q : Result A) (v : World). (q, v)) e k

    by_case : (r : Result A) → (m w).0 ≡ r → G ⊎ Fails (m >>= f) w
    by_case (ok a) e = elim (g a e) [
      | inl x ↦ inl x
      | inr x ↦ inr (>>=-Fails_later m f w a (came (ok a) e) x)
    ]
    by_case (err x) e =
        inr (>>=-Fails m f w (record { result = err x; failure = λ a. cc; call = came (err x) e }))
    by_case panic e =
        inr (>>=-Fails m f w (record { result = panic; failure = λ a. cc; call = came panic e }))

module _ (ps : Processes) (c : Codec Container) (w : World) where
  -- A container whose record can be read, and whose pid file leads to no process.
  pub record IsStopped (e : Entry) : Type 0 where
    pub entry : Dict Scalar
    pub typed : e ≡ fields entry
    pub cfg : Bytes
    pub config : lookup (codes "ConfigPath") entry ≡ some (text cfg)
    pub con : Container
    pub stored : (unmarshal_obj c cfg w).0 ≡ ok con
    pub stopped :
        or_false (pid_is_active ps (by_file (pid_file (path_dir con.root_path))) w).0 ≡ false

  check_stopped-Decides :
      (containers : Dict Entry)
      → Decides
          (check_stopped ps c containers)
          w
          (All (λ (kv : Bytes × Entry). IsStopped kv.1) containers)
  unfolding check_stopped
  check_stopped-Decides [] = inl (tt, refl)
  check_stopped-Decides ((k, scalar s) ∷ containers) =
      inr (record { result = _; failure = λ a. cc; call = refl })
  check_stopped-Decides ((k, fields m) ∷ containers) =
      let x = lookup (codes "ConfigPath") m in
      Decides-step (as_text x) _ w (as_text_keeps x w) (λ cfg e.
        Decides-step (unmarshal_obj c cfg) _ w
          (ap (λ (p : Result Container × World). p.1)
            (unmarshal_obj_loaded c cfg (unmarshal_obj c cfg w).0 w refl))
          (λ con e'.
            Decides-guard
              (λ v. or_false (pid_is_active ps (by_file (pid_file (path_dir con.root_path))) v).0) _
              (check_stopped ps c containers) w
              (λ r. elim (check_stopped-Decides containers) [
                | inl y ↦ inl (
                  (
                    record {
                      entry = m;
                      typed = refl;
                      cfg = cfg;
                      config = as_text_found x w cfg e;
                      con = con;
                      stored = e';
                      stopped = r;
                    },
                    y.0,
                  ),
                  y.1,
                )
                | inr y ↦ inr y
              ])))

module _ (s : Supplies) (currdir : Bytes) (sys : Sys) (w : World)
    (found : (get_config_dir s.host w).0 ≡ ok currdir)
    (loaded : (unmarshal_obj s.sys_codec (sys_dir currdir) w).0 ≡ ok sys) where
  update-Fails : Fails (check_stopped s.processes s.con_codec sys.containers) w → Fails (update s) w
  unfolding update update_stopped
  update-Fails x =
      >>=-Fails_later (get_config_dir s.host) _ w currdir
        (get_config_dir_ok s.host s.sys_codec [] [] w (ok currdir) found)
        (elim (Bool-cases (folder_exist w (sys_dir currdir))) [
          | inl e ↦
              >>=-Fails_later
                (λ v.
                  (if folder_exist v (sys_dir currdir) then pure tt else fail (no_config currdir))
                    v)
                _ w tt (rw e refl)
                (>>=-Fails_later (unmarshal_obj s.sys_codec (sys_dir currdir))
                  (update_stopped s (sys_dir currdir)) w sys
                  (unmarshal_obj_loaded s.sys_codec (sys_dir currdir) (ok sys) w loaded)
                  (>>=-Fails (check_stopped s.processes s.con_codec sys.containers) _ w x))
          | inr e ↦
              >>=-Fails
                (λ v.
                  (if folder_exist v (sys_dir currdir) then pure tt else fail (no_config currdir))
                    v)
                _ w
                (record { result = err (no_config currdir); failure = λ a. cc; call = rw e refl })
        ])

  -- Update, where the registry of containers can be read: every container of it is one whose record can
  -- be read and whose pid file leads to no process, or Update does not succeed and changes nothing.
  pub update_spares :
      All (λ (kv : Bytes × Entry). IsStopped s.processes s.con_codec w kv.1) sys.containers
      ⊎ (((update s w).1 ≡ w) × ((update s w).0 ≢ ok tt))
  update_spares = elim (check_stopped-Decides s.processes s.con_codec w sys.containers) [
    | inl x ↦ inl x.0
    | inr x ↦
        let f = update-Fails x in
        inr (
          ap (λ (p : Result (Unit {0}) × World). p.1) f.call,
          λ e. f.failure tt (sym (ap (λ (p : Result (Unit {0}) × World). p.0) f.call) ∙ e),
        )
  ]
