-- ===== src/Container/History.antt =====
-- The registry of containers over time: a map from ids to entries, which appendToSys and Destroy of
-- container/container.go change.
use lpmx.Base.{ℕ, ◌≡◌, ap, ◌∙◌, Option, none, some, if◌then◌else◌}
use lpmx.Base.Text.{Bytes, codes, eqb}
use lpmx.Base.Dict.{Dict, lookup}
use lpmx.Base.Numbers.{pos, negsuc}
use lpmx.Base.Paths.{path_dir}
use lpmx.Base.Result.{ok}
use lpmx.Base.World.{World}
use lpmx.Pid.{Processes}
use lpmx.Container.Config.{Host}
use lpmx.Container.Sys.{Scalar, text, Entry, fields, Sys, Codec}
use lpmx.Container.Append.{Container, entry_for, append_to_sys}
use lpmx.Container.Destroy.{destroy, running_pid, pid_file}
use lpmx.Container.Registry.{IsRegistry, IsOutside}
use lpmx.Container.Lifecycle.{append_to_sys_lem, destroy_unlists, destroy_running, sync_folder}

-- What a registry is for its callers: an entry for some of the ids.
abbrev pub Listing : Type 0
Listing = Bytes → Option Entry

abbrev pub joined : Bytes → Dict Scalar → Listing → Listing
joined id f m k = if eqb id k then some (fields f) else m k

abbrev pub left : Bytes → Listing → Listing
left id m k = if eqb id k then none else m k

module _ (h : Host) (c : Codec Sys) (dir : Bytes) where
  -- The registry below `dir` holds the listing.
  pub record Holds (m : Listing) (w : World) : Type 0 where
    pub sys : Sys
    pub registry : IsRegistry h c dir sys w
    pub same : (k : Bytes) → lookup k sys.containers ≡ m k

  -- One call: a container is appended, a container that no process holds is destroyed, or a
  -- container is to be destroyed while a process holds it. The processes are those of the moment.
  pub data Step : World → Listing → World → Listing → Type 0 where
    appends :
        {w : World} {m : Listing} (con : Container) (f : Dict Scalar)
        → entry_for con (m con.id) ≡ ok f
        → Step w m (append_to_sys h c con w).1 (joined con.id f m)
    destroys :
        {w : World} {m : Listing} (ps : Processes) (id root : Bytes) (f : Dict Scalar)
        → m id ≡ some (fields f)
        → lookup (codes "RootPath") f ≡ some (text root)
        → running_pid ps (pid_file (path_dir root)) w ≡ negsuc 0
        → IsOutside h dir (path_dir root) w
        → IsOutside h dir (sync_folder dir id) w
        → Step w m (destroy h ps c id w).1 (left id m)
    refuses :
        {w : World} {m : Listing} (ps : Processes) (id root : Bytes) (f : Dict Scalar) (n : ℕ)
        → m id ≡ some (fields f)
        → lookup (codes "RootPath") f ≡ some (text root)
        → running_pid ps (pid_file (path_dir root)) w ≡ pos n
        → Step w m (destroy h ps c id w).1 m

  -- Calls one after the other.
  pub data Steps : World → Listing → World → Listing → Type 0 where
    stay : {w : World} {m : Listing} → Steps w m w m
    then_step :
        {w w' w'' : World} {m m' m'' : Listing}
        → Step w m w' m'
        → Steps w' m' w'' m''
        → Steps w m w'' m''

  Step-Holds : {w w' : World} {m m' : Listing} → Step w m w' m' → Holds m w → Holds m' w'
  Step-Holds (appends con f e) l =
      let (done, sys', g, k) =
        append_to_sys_lem h c dir l.sys _ l.registry con f
          (ap (entry_for con) (l.same con.id) ∙ e) in
      record {
        sys = sys';
        registry = g;
        same = λ j. k j ∙ ap (λ x. if eqb con.id j then some (fields f) else x) (l.same j);
      }
  Step-Holds (destroys ps id root f e r i o o') l =
      let (done, sys', g, k) =
        destroy_unlists h ps c dir l.sys _ l.registry id root f (l.same id ∙ e) r i o o' in
      record {
        sys = sys';
        registry = g;
        same = λ j. k j ∙ ap (λ x. if eqb id j then none else x) (l.same j);
      }
  Step-Holds (refuses ps id root f n e r i) l =
      let (done, g, k) =
        destroy_running h ps c dir l.sys _ l.registry id root f (l.same id ∙ e) r n i in
      record { sys = l.sys; registry = g; same = l.same }

  -- The registry implements the listing: over any sequence of calls of appendToSys, for containers
  -- whose entry is missing or a map, and of Destroy, for listed containers that a process holds or
  -- that none holds and whose folders are apart from the registry and the program, it holds what the
  -- calls make of the listing, if it held the listing at the start.
  pub Steps-Holds : {w w' : World} {m m' : Listing} → Steps w m w' m' → Holds m w → Holds m' w'
  Steps-Holds stay l = l
  Steps-Holds (then_step s ss) l = Steps-Holds ss (Step-Holds s l)
