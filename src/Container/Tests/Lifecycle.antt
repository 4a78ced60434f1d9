-- ===== src/Container/Tests/Lifecycle.antt =====
-- A registry with one container, which another one joins and which it leaves.
use lpmx.Base.{◌≡◌, ◌≢◌, refl, true, false, none, some, [], ◌∷◌, arith, if◌then◌else◌}
use lpmx.Base.Text.{Bytes, codes, eqb, split, cons_head, has_prefix, join}
use lpmx.Base.Dict.{Dict, lookup}
use lpmx.Base.Numbers.{pos, negsuc, parse_int, digits}
use lpmx.Base.Paths.{path_dir, clean, clean_elements, is_abs, up_to_slash}
use lpmx.Base.Result.{ok, err}
use lpmx.Base.World.{World, file, resolve, read_file, opens, is_within}
use lpmx.Utils.Files.{file_exist, file_type, regular_file_exist}
use lpmx.Pid.{Processes, pid_is_active, pid_of, pid_value, value_of, parsed}
use lpmx.Container.Config.{Host, get_config_dir, get_curr_dir, locate, is_system}
use lpmx.Container.Sys.{Scalar, text, fields, Sys, info_of, unmarshal_obj-marshal}
use lpmx.Container.Maps.{sys_dir}
use lpmx.Container.Append.{Container, append_to_sys, entry_for, new_entry}
use lpmx.Container.Destroy.{destroy, running_pid, pid_or, pid_file, still_running}
use lpmx.Container.Registry.{IsRegistry, IsOutside}
use lpmx.Container.Lifecycle.{append_to_sys_lem, destroy_unlists, destroy_running, sync_folder}
use lpmx.Container.History.{
  Listing, joined, left, Holds, then_step, stay, destroys, appends, Steps-Holds,
}
use lpmx.Container.Tests.Encoding.{sys_codec}

abbrev entry : Dict Scalar
entry = (codes "RootPath", text (codes "/k/rw")) ∷ []

abbrev sys : Sys
sys = record {
  root_dir = codes "/c/.lpmxsys";
  containers = (codes "id", fields entry) ∷ [];
  log_path = [];
}

-- Every path is a file.
abbrev world_with : Bytes → World
world_with other_text = record {
  node = λ p.
      some (file (if eqb p (codes "/c/.lpmxsys/.info") then sys_codec.marshal sys else other_text));
  readable = λ p. true;
  writable = λ p. true;
  removable = λ p. true;
  room = λ p. 1000;
}

abbrev world : World
world = world_with (codes "no")

-- A process has the container.
abbrev busy : World
busy = world_with (codes "12")

abbrev host : Host
host = record {
  filename = codes "lpmx";
  cwd = ok (codes "/c");
  path = codes "/p";
  current_user = ok (record { uid = []; home_dir = [] });
}

abbrev processes : Processes
processes = record { own = pos 7; reached = λ n. false }

abbrev con : Container
con = record {
  id = codes "new";
  root_path = codes "/n/rw";
  setting_path = codes "/s";
  config_path = codes "/n/.lpmx";
  base_layer_path = [];
  container_name = [];
  rpc_port = pos 0;
  base_type = codes "Docker";
  image_base = codes "img";
  data_sync_folder = [];
  data_sync_map = [];
  engine = [];
  file_sync_map = [];
  sys_folder = [];
  layers = codes "rw:l";
  expose_exe = [];
  user_shell = codes "/bin/bash";
  patched_elf_loader = [];
  execmaps = [];
  elf_patcher_path = codes "/e";
  log_path = [];
  setting_conf = [];
  start_time = [];
  create_user = [];
  current_user = [];
  rpc_map = [];
  pid_file = [];
  pid = negsuc 0;
}

world_with-IsRegistry : (t : Bytes) → IsRegistry host sys_codec (codes "/c") sys (world_with t)
unfolding get_config_dir get_curr_dir locate is_system has_prefix regular_file_exist file_type
    read_file resolve file_exist opens eqb codes split cons_head
world_with-IsRegistry t = record {
  found = refl;
  loaded = unmarshal_obj-marshal sys_codec (sys_dir (codes "/c")) sys (world_with t) refl refl;
  placed = refl;
  can_write = refl;
  can_read = refl;
  elsewhere = λ cwd e. (ground arith, (ground arith, tt));
}

joins : entry_for con (lookup con.id sys.containers) ≡ ok (new_entry con)
unfolding entry_for lookup eqb codes
joins = refl

append_to_sys_lem_example :
    ((append_to_sys host sys_codec con world).0
      ≡ ok (record con { sys_folder = sys_dir (codes "/c") }))
    × (sys' : Sys) × IsRegistry host sys_codec
        (codes "/c")
        sys'
        (append_to_sys host sys_codec con world).1
    × ((k : Bytes)
        → lookup k sys'.containers
          ≡ (if eqb con.id k then some (fields (new_entry con)) else lookup k sys.containers))
append_to_sys_lem_example =
    append_to_sys_lem host sys_codec (codes "/c") sys world (world_with-IsRegistry (codes "no")) con
      (new_entry con) joins

listed : lookup (codes "id") sys.containers ≡ some (fields entry)
unfolding lookup eqb codes
listed = refl

rooted : lookup (codes "RootPath") entry ≡ some (text (codes "/k/rw"))
unfolding lookup eqb codes
rooted = refl

idle : running_pid processes (pid_file (path_dir (codes "/k/rw"))) world ≡ negsuc 0
unfolding running_pid pid_or pid_is_active pid_of pid_value value_of parsed parse_int digits
    pid_file path_dir clean clean_elements is_abs has_prefix up_to_slash split cons_head join
    read_file resolve eqb codes
idle = refl

abbrev workers : Processes
workers = record { own = pos 7; reached = λ n. true }

taken : running_pid workers (pid_file (path_dir (codes "/k/rw"))) busy ≡ pos 12
unfolding running_pid pid_or pid_is_active pid_of pid_value value_of parsed parse_int digits
    pid_file path_dir clean clean_elements is_abs has_prefix up_to_slash split cons_head join
    read_file resolve eqb codes
taken = refl

destroy_running_example :
    ((destroy host workers sys_codec (codes "id") busy).0
      ≡ err (still_running (codes "id") (pos 12)))
    × IsRegistry host sys_codec
        (codes "/c")
        sys
        (destroy host workers sys_codec (codes "id") busy).1
    × ((p : Bytes)
        → p ≢ resolve busy (info_of (sys_dir (codes "/c")))
        → (destroy host workers sys_codec (codes "id") busy).1.node p ≡ busy.node p)
destroy_running_example =
    destroy_running host workers sys_codec (codes "/c") sys busy
      (world_with-IsRegistry (codes "12")) (codes "id") (codes "/k/rw") entry listed rooted 12 taken

IsOutside-root : IsOutside host (codes "/c") (path_dir (codes "/k/rw")) world
unfolding path_dir clean clean_elements is_abs up_to_slash is_within resolve eqb has_prefix codes
    split cons_head join
IsOutside-root = record {
  info = refl;
  target = refl;
  program = λ cwd e. (ground arith, (refl, tt));
}

IsOutside-sync : IsOutside host (codes "/c") (sync_folder (codes "/c") (codes "id")) world
unfolding is_within resolve eqb has_prefix codes split cons_head
IsOutside-sync = record {
  info = refl;
  target = refl;
  program = λ cwd e. (ground arith, (refl, tt));
}

destroy_unlists_example :
    ((destroy host processes sys_codec (codes "id") world).0 ≡ ok tt)
    × (sys' : Sys) × IsRegistry host sys_codec
        (codes "/c")
        sys'
        (destroy host processes sys_codec (codes "id") world).1
    × ((k : Bytes)
        → lookup k sys'.containers ≡ (if eqb (codes "id") k then none else lookup k sys.containers))
destroy_unlists_example =
    destroy_unlists host processes sys_codec (codes "/c") sys world
      (world_with-IsRegistry (codes "no")) (codes "id") (codes "/k/rw") entry listed rooted idle
      IsOutside-root IsOutside-sync

abbrev listing : Listing
listing k = lookup k sys.containers

rejoins : entry_for con (left (codes "id") listing con.id) ≡ ok (new_entry con)
unfolding entry_for lookup eqb codes
rejoins = refl

Steps-Holds_example :
    Holds host sys_codec
      (codes "/c")
      (joined con.id (new_entry con) (left (codes "id") listing))
      (append_to_sys host sys_codec con (destroy host processes sys_codec (codes "id") world).1).1
Steps-Holds_example =
    Steps-Holds host sys_codec (codes "/c")
      (then_step
        (destroys processes (codes "id") (codes "/k/rw") entry listed rooted idle IsOutside-root
          IsOutside-sync)
        (then_step (appends con (new_entry con) rejoins) stay))
      (record { sys = sys; registry = world_with-IsRegistry (codes "no"); same = λ k. refl })
