-- ===== src/Container/Guarded.antt =====
-- DockerCommit of container/container.go, and the containers that run.
use lpmx.Base.{◌≡◌, ◌≢◌, ◌⊎◌, refl, sym, ap, false, inl, inr, Bool-cases, some, [], arith}
use lpmx.Base.Text.{Bytes, codes}
use lpmx.Base.Numbers.{itoa}
use lpmx.Base.Paths.{path_dir, below}
use lpmx.Base.Dict.{Dict, lookup}
use lpmx.Base.Result.{Result, ok}
use lpmx.Base.World.{World, Go, >>=-ok, deferring, ignoring, os_remove_all, clear, is_within}
use lpmx.Pid.{pid_value, pid_is_active, by_file}
use lpmx.Container.Config.{get_config_dir}
use lpmx.Container.Sys.{Scalar, fields, Sys, unmarshal_obj}
use lpmx.Container.Append.{Container}
use lpmx.Container.Destroy.{pid_file}
use lpmx.Container.Settings.{unmarshal_obj_loaded, get_config_dir_ok}
use lpmx.Container.Install.{Supplies, drop_temp}
use lpmx.Container.Commit.{not_packable, commit_con, commit_entry_of, commit_listed, docker_commit}
use lpmx.Container.Maps.{sys_dir, as_text}
use lpmx.Container.Resume.{or_false, or_zero}
use lpmx.Container.Stopped.{Fails, err-Fails, IsStopped, refused_step, as_text_found, as_text_keeps}

drop_temp_apart :
    (p q : Bytes) (w : World) → is_within p q ≡ false → (drop_temp p w).1.node q ≡ w.node q
unfolding drop_temp os_remove_all clear
drop_temp_apart p q w e = ground (arith, e)

-- What fails and leaves the machine changes nothing but the temporary files behind it.
deferring_spares :
    (p : Bytes) (m : Go (Unit {0})) (w : World)
    → Fails m w
    → ((deferring (drop_temp p) m w).0 ≢ ok tt)
      × ((q : Bytes) → is_within p q ≡ false → (deferring (drop_temp p) m w).1.node q ≡ w.node q)
unfolding deferring ignoring
deferring_spares p m w x = rw x.call (x.failure tt, λ q e. drop_temp_apart p q w e)

module _ (s : Supplies) (w : World) (id newname newtag currdir : Bytes) where
  commit_con_refuses :
      (con : Container)
      → (or_false (pid_is_active s.processes (by_file (pid_file (path_dir con.root_path))) w).0
          ≡ false)
        ⊎ Fails (commit_con s currdir id newname newtag con) w
  unfolding commit_con
  commit_con_refuses con =
      elim (Bool-cases
        (or_false (pid_is_active s.processes (by_file (pid_file (path_dir con.root_path))) w).0)) [
          | inl r ↦ inr (
              err-Fails (commit_con s currdir id newname newtag con)
                (not_packable s id
                  (itoa (or_zero (pid_value (pid_file (path_dir con.root_path)) w).0)))
                w (rw r refl))
          | inr r ↦ inl r
        ]

  commit_entry_of_refuses :
      (m : Dict Scalar)
      → IsStopped s.processes s.con_codec w (fields m)
        ⊎ Fails (commit_entry_of s currdir id newname newtag (some (fields m))) w
  unfolding commit_entry_of
  commit_entry_of_refuses m =
      let x = lookup (codes "ConfigPath") m in
      refused_step (as_text x) _ w (as_text_keeps x w) (λ cfg e.
        refused_step (unmarshal_obj s.con_codec cfg) _ w
          (ap (λ (p : Result Container × World). p.1)
            (unmarshal_obj_loaded s.con_codec cfg (unmarshal_obj s.con_codec cfg w).0 w refl))
          (λ con e'. elim (commit_con_refuses con) [
            | inl r ↦ inl (record {
              entry = m;
              typed = refl;
              cfg = cfg;
              config = as_text_found x w cfg e;
              con = con;
              stored = e';
              stopped = r;
            })
            | inr f ↦ inr f
          ]))

  commit_listed_refuses :
      (sys : Sys) (m : Dict Scalar)
      → (unmarshal_obj s.sys_codec (sys_dir currdir) w).0 ≡ ok sys
      → lookup id sys.containers ≡ some (fields m)
      → IsStopped s.processes s.con_codec w (fields m)
        ⊎ Fails (commit_listed s currdir id newname newtag) w
  unfolding commit_listed
  commit_listed_refuses sys m loaded listed =
      let read = unmarshal_obj_loaded s.sys_codec (sys_dir currdir) (ok sys) w loaded in
      refused_step (unmarshal_obj s.sys_codec (sys_dir currdir)) _ w
        (ap (λ (p : Result Sys × World). p.1) read)
        (λ sys' e.
          let same : sys ≡ sys' = cc in
          let there : lookup id sys'.containers ≡ some (fields m) = rw (sym same) listed in
          rw there (commit_entry_of_refuses m))

  -- DockerCommit of a listed container, where the registry of containers can be read: the record of the
  -- container can be read and its pid file leads to no process, or DockerCommit does not succeed and
  -- no path changes but those at or below the folder for temporary files.
  pub docker_commit_spares :
      (sys : Sys) (m : Dict Scalar)
      → (get_config_dir s.host w).0 ≡ ok currdir
      → (unmarshal_obj s.sys_codec (sys_dir currdir) w).0 ≡ ok sys
      → lookup id sys.containers ≡ some (fields m)
      → IsStopped s.processes s.con_codec w (fields m)
        ⊎ (((docker_commit s id newname newtag w).0 ≢ ok tt)
            × ((q : Bytes)
                → is_within (below currdir (codes ".temp")) q ≡ false
                → (docker_commit s id newname newtag w).1.node q ≡ w.node q))
  unfolding docker_commit
  docker_commit_spares sys m found loaded listed =
      elim (commit_listed_refuses sys m loaded listed) [
        | inl x ↦ inl x
        | inr x ↦ inr (
            rw
              (>>=-ok (get_config_dir s.host)
                (λ dir.
                  deferring (drop_temp (below dir (codes ".temp")))
                    (commit_listed s dir id newname newtag))
                w currdir w (get_config_dir_ok s.host s.sys_codec [] [] w (ok currdir) found))
              (deferring_spares (below currdir (codes ".temp"))
                (commit_listed s currdir id newname newtag) w x))
      ]
