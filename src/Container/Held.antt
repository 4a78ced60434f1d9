-- ===== src/Container/Held.antt =====
-- Resume of container/container.go, and the containers that run.
use lpmx.Base.{
  ◌≡◌, ◌≢◌, ◌⊎◌, refl, sym, ap, ◌∙◌, Bool, false, inl, inr, Bool-cases, some, List, [], ◌++◌,
  if◌then◌else◌,
}
use lpmx.Base.Text.{Bytes, codes}
use lpmx.Base.Numbers.{pos, itoa}
use lpmx.Base.Paths.{path_dir}
use lpmx.Base.Dict.{Dict, lookup, insert}
use lpmx.Base.Result.{Kind, Result, ok, err_new}
use lpmx.Base.World.{World, Go, ◌>>=◌, >>=-ok}
use lpmx.Pid.{pid_is_active, pid_value, by_file}
use lpmx.Container.Config.{get_config_dir}
use lpmx.Container.Sys.{Scalar, text, fields, Sys, unmarshal_obj}
use lpmx.Container.Append.{Container}
use lpmx.Container.Destroy.{pid_file}
use lpmx.Container.Maps.{sys_dir, as_text}
use lpmx.Container.Settings.{unmarshal_obj_loaded, get_config_dir_ok}
use lpmx.Container.Run.{run_env, insert_some, chosen_id, run_from, run_loader, run_con, run}
use lpmx.Container.Resume.{resume_map, or_false, or_zero, resume_con, resume_entry, resume}
use lpmx.Container.Shell.{Outside}
use lpmx.Container.Stopped.{Fails, err-Fails, refused_step, as_text_found, as_text_keeps}

-- What is left of a stored record when its container starts anew: its identity, its layers and its
-- engine. All that is found out at the start is blank, and so is the name.
abbrev pub restarted : Container → Bytes → Container
restarted con id = record con {
  id = id;
  config_path = path_dir con.root_path ++ codes "/.lpmx";
  container_name = [];
  rpc_port = pos 0;
  sys_folder = [];
  expose_exe = [];
  user_shell = [];
  execmaps = [];
  elf_patcher_path = [];
  log_path = [];
  setting_conf = [];
  start_time = [];
  create_user = [];
  current_user = [];
  rpc_map = [];
  pid_file = [];
  pid = pos 0;
}

-- The variables of a container that starts anew.
abbrev pub restarted_env : Container → Bool → Dict Bytes
restarted_env con engine =
    let mounts = insert (codes "mountfile") con.file_sync_map [] in
    if engine then insert (codes "engine") (codes "TRUE") mounts else mounts

-- A record that is found for `entry`, and does not run.
abbrev pub Idle : Outside → World → Dict Scalar → Container → Type 0
Idle o w entry con =
    (cfg : Bytes) × (lookup (codes "ConfigPath") entry ≡ some (text cfg))
    × ((unmarshal_obj o.con_codec cfg w).0 ≡ ok con)
    × (or_false (pid_is_active o.processes (by_file (pid_file (path_dir con.root_path))) w).0
        ≡ false)

module _ (o : Outside) (id : Bytes) (engine : Bool) (args : List Bytes) (w : World) where
  -- The container starts anew, as an active one.
  abbrev pub restart : Container → Go (Unit {0})
  restart con =
      chosen_id o con.id >>= λ i. run_from o (restarted con i) false (restarted_env con engine) args

  run_restarts : (con : Container) → run o (resume_map con engine) [] args w ≡ restart con w
  unfolding run run_loader run_con run_env insert_some resume_map
  run_restarts con = elim (Bool-cases engine) [ inl e ↦ rw e refl | inr e ↦ rw e refl ]

  resume_con_restarts :
      (con : Container)
      → ((or_false (pid_is_active o.processes (by_file (pid_file (path_dir con.root_path))) w).0
            ≡ false)
          × (resume_con o id engine args con w ≡ restart con w))
        ⊎ Fails (resume_con o id engine args con) w
  unfolding resume_con
  resume_con_restarts con =
      elim (Bool-cases
        (or_false (pid_is_active o.processes (by_file (pid_file (path_dir con.root_path))) w).0)) [
          | inl r ↦ inr (
              err-Fails (resume_con o id engine args con)
                (err_new Kind.exist (
                  codes "conatiner with id: "
                  ++ id
                  ++ codes " is running with pid: "
                  ++ itoa (or_zero (pid_value (pid_file (path_dir con.root_path)) w).0)
                  ++ codes ", can't resume"))
                w (rw r refl))
          | inr r ↦ inl (r, rw r (run_restarts con))
        ]

  module _ (dir : Bytes) (sys : Sys) (entry : Dict Scalar)
      (found : (get_config_dir o.host w).0 ≡ ok dir)
      (loaded : (unmarshal_obj o.sys_codec (sys_dir dir) w).0 ≡ ok sys)
      (listed : lookup id sys.containers ≡ some (fields entry)) where
    resume_reads :
        (cfg : Bytes) (con : Container)
        → lookup (codes "ConfigPath") entry ≡ some (text cfg)
        → (unmarshal_obj o.con_codec cfg w).0 ≡ ok con
        → resume o id engine args w ≡ resume_con o id engine args con w
    unfolding resume resume_entry as_text
    resume_reads cfg con config stored =
        >>=-ok (get_config_dir o.host) _ w dir w
          (get_config_dir_ok o.host o.sys_codec [] [] w (ok dir) found)
        ∙ (>>=-ok (unmarshal_obj o.sys_codec (sys_dir dir))
              (λ sys. resume_entry o id engine args (lookup id sys.containers)) w sys w
              (unmarshal_obj_loaded o.sys_codec (sys_dir dir) (ok sys) w loaded)
            ∙ rw (listed, config)
                (>>=-ok (unmarshal_obj o.con_codec cfg) (resume_con o id engine args) w con w
                  (unmarshal_obj_loaded o.con_codec cfg (ok con) w stored)))

    -- The record is read and idle, and Resume starts the container anew.
    abbrev Restarts : Type 0
    Restarts = (con : Container) × Idle o w entry con × (resume o id engine args w ≡ restart con w)

    resume_entry_restarts : Restarts ⊎ Fails (resume_entry o id engine args (some (fields entry))) w
    unfolding resume_entry
    resume_entry_restarts =
        let x = lookup (codes "ConfigPath") entry in
        refused_step (as_text x) _ w (as_text_keeps x w) (λ cfg e.
          refused_step (unmarshal_obj o.con_codec cfg) _ w
            (ap (λ (p : Result Container × World). p.1)
              (unmarshal_obj_loaded o.con_codec cfg (unmarshal_obj o.con_codec cfg w).0 w refl))
            (λ con e'.
              let config = as_text_found x w cfg e in
              elim (resume_con_restarts con) [
                | inl y ↦ inl (con, (cfg, config, e', y.0), resume_reads cfg con config e' ∙ y.1)
                | inr f ↦ inr f
              ]))

    resume_restarts : Restarts ⊎ Fails (resume o id engine args) w
    unfolding resume
    resume_restarts =
        refused_step (get_config_dir o.host) _ w
          (ap (λ (p : Result Bytes × World). p.1)
            (get_config_dir_ok o.host o.sys_codec [] [] w (ok dir) found))
          (λ dir' e0.
            let same0 : dir ≡ dir' = cc in
            refused_step (unmarshal_obj o.sys_codec (sys_dir dir')) _ w
              (ap (λ (p : Result Sys × World). p.1)
                (unmarshal_obj_loaded o.sys_codec (sys_dir dir')
                  (unmarshal_obj o.sys_codec (sys_dir dir') w).0 w refl))
              (λ sys' e.
                let e1 : (unmarshal_obj o.sys_codec (sys_dir dir) w).0 ≡ ok sys' =
                  rw (sym same0) at e in
                let same : sys ≡ sys' = cc in
                let there : lookup id sys'.containers ≡ some (fields entry) = cc in
                rw there resume_entry_restarts))

    -- Resume of a listed container, where the registry of containers can be read: its record can be
    -- read and its pid file leads to no process, and Resume starts it anew, not passive, with the
    -- arguments, from what the record says of its identity, its layers, its loader and its engine
    -- (under a new id if the record has none) and with the variables `mountfile`, and `engine` if that
    -- is wanted; or Resume does not succeed and changes nothing.
    pub resume_spares :
        ((con : Container) × Idle o w entry con × (resume o id engine args w ≡ restart con w))
        ⊎ (((resume o id engine args w).1 ≡ w) × ((resume o id engine args w).0 ≢ ok tt))
    resume_spares = elim resume_restarts [
      | inl x ↦ inl x
      | inr x ↦ inr (
        ap (λ (p : Result (Unit {0}) × World). p.1) x.call,
        λ e. x.failure tt (sym (ap (λ (p : Result (Unit {0}) × World). p.0) x.call) ∙ e),
      )
    ]
