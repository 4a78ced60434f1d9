-- ===== src/Container/Lifecycle.antt =====
-- What appendToSys and Destroy do to the registry.
use lpmx.Base.{ℕ, ◌≡◌, ◌≢◌, refl, ap, ◌∙◌, none, some, [], ◌++◌, arith, if◌then◌else◌}
use lpmx.Base.Text.{Bytes, codes, eqb, eqb_iff}
use lpmx.Base.Dict.{Dict, lookup, lookup-insert, lookup-remove}
use lpmx.Base.Numbers.{pos, negsuc}
use lpmx.Base.Paths.{path_dir, below}
use lpmx.Base.Result.{Result, ok, err, panic}
use lpmx.Base.World.{
  World, pure, os_remove_all, resolve, write_file, put, >>=-ok, ignored, ignoring, ignoring_ok,
}
use lpmx.Utils.Folders.{remove_all, explain, explained}
use lpmx.Pid.{Processes, eq_int}
use lpmx.Container.Config.{Host, get_config_dir}
use lpmx.Container.Sys.{Scalar, text, fields, Sys, Codec, unmarshal_obj, info_of}
use lpmx.Container.Maps.{sys_dir, as_text}
use lpmx.Container.Settings.{unmarshal_obj_ok, get_config_dir_ok}
use lpmx.Container.Append.{Container, entry_for, with_entry, store, append_to_sys}
use lpmx.Container.Destroy.{
  running_pid, pid_file, without_entry, destroy_at, destroy_entry, finish, destroy_loaded, destroy,
  still_running,
}
use lpmx.Container.Registry.{
  IsRegistry, IsOutside, stored, save-stored, stored-IsRegistry, removed-IsRegistry,
  removed-IsOutside,
}

module _ (h : Host) (c : Codec Sys) (dir : Bytes) (sys : Sys) (w : World)
    (g : IsRegistry h c dir sys w) where
  pub append-stored :
      (con : Container) (m : Dict Scalar)
      → entry_for con (lookup con.id sys.containers) ≡ ok m
      → append_to_sys h c con w ≡ (
        ok (record con { sys_folder = sys_dir dir }),
        stored h c dir sys w g (with_entry sys con.id m),
      )
  unfolding append_to_sys with_entry store
  append-stored con m e =
      >>=-ok (get_config_dir h) _ w dir w (get_config_dir_ok h c [] [] w (ok dir) g.found)
      ∙ (>>=-ok (unmarshal_obj c (sys_dir dir)) _ w sys w
            (unmarshal_obj_ok h c [] [] (sys_dir dir) w (ok sys) g.loaded)
          ∙ >>=-ok (store c sys con.id (entry_for con (lookup con.id sys.containers)))
              (λ _. pure (record con { sys_folder = sys_dir dir })) w tt
              (stored h c dir sys w g (with_entry sys con.id m))
              (ap (λ (r : Result (Dict Scalar)). store c sys con.id r w) e
                ∙ save-stored h c dir sys w g (with_entry sys con.id m) refl))

  -- appendToSys on a registry that can be written, for a container whose entry is not there or is a
  -- map: it succeeds, and the registry then has the entry that it made for the container and, for
  -- every other name, what it had.
  pub append_to_sys_lem :
      (con : Container) (m : Dict Scalar)
      → entry_for con (lookup con.id sys.containers) ≡ ok m
      → ((append_to_sys h c con w).0 ≡ ok (record con { sys_folder = sys_dir dir }))
        × (sys' : Sys) × IsRegistry h c dir sys' (append_to_sys h c con w).1
        × ((k : Bytes)
            → lookup k sys'.containers
              ≡ (if eqb con.id k then some (fields m) else lookup k sys.containers))
  unfolding with_entry
  append_to_sys_lem con m e = rw (append-stored con m e) (
    refl,
    with_entry sys con.id m,
    stored-IsRegistry h c dir sys w g (with_entry sys con.id m) refl,
    λ k. lookup-insert con.id k (fields m) sys.containers,
  )

remove_all-ne-panic : (p : Bytes) (w : World) → (remove_all p w).0 ≢ panic
unfolding remove_all explain explained os_remove_all
remove_all-ne-panic p w = ground arith

-- The two removals.
cleared : Bytes → Bytes → World → World
cleared root sync w = (remove_all sync (remove_all root w).1).1

abbrev pub sync_folder : Bytes → Bytes → Bytes
sync_folder currdir id = below (currdir ++ codes "/sync") id

destroy_at-cleared :
    (ps : Processes) (currdir id : Bytes) (sys : Sys) (root : Bytes) (w : World)
    → running_pid ps (pid_file root) w ≡ negsuc 0
    → destroy_at ps currdir id sys root w
      ≡ (ok (without_entry sys id), cleared root (sync_folder currdir id) w)
unfolding destroy_at eq_int cleared
destroy_at-cleared ps currdir id sys root w e =
    let w1 = (remove_all root w).1 in
    rw e (
      >>=-ok (ignoring (remove_all root)) _ w tt w1
        (ignoring_ok (remove_all root) w (remove_all-ne-panic root w))
      ∙ >>=-ok (ignoring (remove_all (sync_folder currdir id))) (λ _. pure (without_entry sys id))
          w1 tt _
          (ignoring_ok (remove_all (sync_folder currdir id)) w1
            (remove_all-ne-panic (sync_folder currdir id) w1)))

module _ (h : Host) (ps : Processes) (c : Codec Sys) (dir : Bytes) (sys : Sys) (w : World)
    (g : IsRegistry h c dir sys w) where
  destroy_unfolds : (id : Bytes) → destroy h ps c id w ≡ destroy_loaded ps c dir id (ok sys) w
  unfolding destroy
  destroy_unfolds id =
      >>=-ok (get_config_dir h) _ w dir w (get_config_dir_ok h c [] [] w (ok dir) g.found)
      ∙ ap (λ (x : Result Sys × World). destroy_loaded ps c dir id x.0 x.1)
          (unmarshal_obj_ok h c [] [] (sys_dir dir) w (ok sys) g.loaded)

  entry_found :
      (id root : Bytes) (m : Dict Scalar)
      → lookup id sys.containers ≡ some (fields m)
      → lookup (codes "RootPath") m ≡ some (text root)
      → destroy_entry ps dir id sys (lookup id sys.containers) w
        ≡ destroy_at ps dir id sys (path_dir root) w
  unfolding destroy_entry as_text
  entry_found id root m e f = rw (e, f) refl

  module _ (id root : Bytes) (m : Dict Scalar) (e : lookup id sys.containers ≡ some (fields m))
      (f : lookup (codes "RootPath") m ≡ some (text root)) where
    destroy_finishes :
        (r : Result Sys) (w' : World)
        → destroy_at ps dir id sys (path_dir root) w ≡ (r, w')
        → destroy h ps c id w ≡ finish c sys r w'
    unfolding destroy_loaded
    destroy_finishes r w' d =
        destroy_unfolds id
        ∙ ap (λ (x : Result Sys × World). finish c sys x.0 x.1) (entry_found id root m e f ∙ d)

    finish-stored :
        (sys' : Sys) (w' : World) (g' : IsRegistry h c dir sys w')
        → sys'.root_dir ≡ sys.root_dir
        → finish c sys (ok sys') w' ≡ (ok tt, stored h c dir sys w' g' sys')
    unfolding finish ignoring ignored
    finish-stored sys' w' g' d = rw (save-stored h c dir sys w' g' sys' d) refl

    -- Destroy of a container that is listed with its root path, that no process holds, and whose two
    -- folders hold neither the registry nor the program: it succeeds, and the registry then lists
    -- every container that it listed but this one.
    pub destroy_unlists :
        running_pid ps (pid_file (path_dir root)) w ≡ negsuc 0
        → IsOutside h dir (path_dir root) w
        → IsOutside h dir (sync_folder dir id) w
        → ((destroy h ps c id w).0 ≡ ok tt)
          × (sys' : Sys) × IsRegistry h c dir sys' (destroy h ps c id w).1
          × ((k : Bytes)
              → lookup k sys'.containers ≡ (if eqb id k then none else lookup k sys.containers))
    unfolding without_entry cleared
    destroy_unlists n o o' =
        let w1 = (remove_all (path_dir root) w).1 in
        let g1 = removed-IsRegistry h c dir sys (path_dir root) w o g in
        let o1 = removed-IsOutside h c dir sys (path_dir root) w (sync_folder dir id) o o' in
        let g2 = removed-IsRegistry h c dir sys (sync_folder dir id) w1 o1 g1 in
        let w2 = (remove_all (sync_folder dir id) w1).1 in
        let sys' = without_entry sys id in
        let done =
          destroy_finishes (ok sys') w2 (destroy_at-cleared ps dir id sys (path_dir root) w n)
          ∙ finish-stored sys' w2 g2 refl in
        rw done (
          refl,
          sys',
          stored-IsRegistry h c dir sys w2 g2 sys' refl,
          λ k. lookup-remove id k sys.containers,
        )

    -- Destroy of a container that is listed with its root path and that a process holds, whose pid
    -- is not negative: it fails, no folder is removed, and the registry lists what it listed.
    pub destroy_running :
        (n : ℕ)
        → running_pid ps (pid_file (path_dir root)) w ≡ pos n
        → ((destroy h ps c id w).0 ≡ err (still_running id (pos n)))
          × IsRegistry h c dir sys (destroy h ps c id w).1
          × ((p : Bytes)
              → p ≢ resolve w (info_of (sys_dir dir))
              → (destroy h ps c id w).1.node p ≡ w.node p)
    unfolding destroy_at eq_int finish ignoring ignored stored write_file put
    destroy_running n r =
        let done = destroy_finishes (err (still_running id (pos n))) w (rw r refl) in
        let kept = save-stored h c dir sys w g sys refl in
        rw (done, kept)
          (
            refl,
            stored-IsRegistry h c dir sys w g sys refl,
            λ p q. ground (arith, eqb_iff (resolve w (info_of (sys_dir dir))) p, q),
          )
