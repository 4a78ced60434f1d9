-- ===== src/Container/Tests/Held.antt =====
-- A container with a pid file, whose process lives.
use lpmx.Base.{◌≢◌, ◌⊎◌, ◌≡◌, refl, true, none, some, [], ◌∷◌, if◌then◌else◌}
use lpmx.Base.Text.{Bytes, codes, eqb, split, cons_head, has_prefix, join}
use lpmx.Base.Numbers.{pos, parse_int, digits}
use lpmx.Base.Paths.{path_dir, clean, clean_elements, is_abs, up_to_slash}
use lpmx.Base.Dict.{Dict, lookup}
use lpmx.Base.Result.{ok}
use lpmx.Base.World.{World, file, pure, resolve, read_file}
use lpmx.Utils.Files.{file_exist, file_type, regular_file_exist}
use lpmx.Paeudo.{Shells}
use lpmx.Pid.{pid_value, value_of, parsed}
use lpmx.Container.Config.{get_config_dir, get_curr_dir, locate, is_system}
use lpmx.Container.Sys.{Scalar, fields, Sys, unmarshal_obj, unmarshal_obj-marshal}
use lpmx.Container.Maps.{sys_dir}
use lpmx.Container.Destroy.{pid_file}
use lpmx.Container.Shell.{Outside}
use lpmx.Container.Held.{Idle, restart, resume_spares}
use lpmx.Container.Append.{Container}
use lpmx.Container.Resume.{resume}
use lpmx.Container.Tests.Encoding.{sys_codec}
use lpmx.Container.Tests.Containers.{con_codec}
use lpmx.Container.Tests.Commands.{con, entry, sys, host, exec, walker, environ}

abbrev pub world : World
world = record {
  node = λ p. some (
      file (
        if eqb p (codes "/c/.lpmxsys/.info")
        then sys_codec.marshal sys
        else if eqb p (codes "/k/.lpmx/.info")
        then con_codec.marshal con
        else codes "12"));
  readable = λ p. true;
  writable = λ p. true;
  removable = λ p. true;
  room = λ p. 1000;
}

abbrev shells : Shells
shells = record {
  look_path = λ name w. ok name;
  start = λ dir path args env stdin. pure (pos 5);
  wait = λ n. pure tt;
  cancel = λ n. pure tt;
  parse_duration = λ s. ok tt;
}

abbrev pub outside : Outside
outside = record {
  host = host;
  sys_codec = sys_codec;
  con_codec = con_codec;
  processes = record { own = pos 7; reached = λ n. true };
  environ = environ;
  exec = exec;
  combined = λ cmd arg. pure ([], none);
  shells = shells;
  viper = λ dirs name w. ok [];
  walker = walker;
  random_string = pure (codes "r");
  random_port = pure (pos 9000);
  listen = λ port. pure tt;
  accept = λ server. pure tt;
}

-- What is read of the container.
pub record Kept : Type 0 where
  pub dir : Bytes
  pub sys : Sys
  pub entry : Dict Scalar
  pub found : (get_config_dir host world).0 ≡ ok dir
  pub loaded : (unmarshal_obj sys_codec (sys_dir dir) world).0 ≡ ok sys
  pub listed : lookup (codes "id") sys.containers ≡ some (fields entry)

pub kept : Kept
unfolding get_config_dir get_curr_dir locate is_system has_prefix regular_file_exist file_type
    pid_value value_of parsed parse_int digits pid_file path_dir clean clean_elements is_abs
    up_to_slash split cons_head join read_file file_exist resolve eqb codes lookup
kept = record {
  dir = codes "/c";
  sys = sys;
  entry = entry;
  found = refl;
  loaded = unmarshal_obj-marshal sys_codec (sys_dir (codes "/c")) sys world refl refl;
  listed = refl;
}

resume_spares_example :
    ((c : Container) × Idle outside world kept.entry c
      × (resume outside (codes "id") true (codes "ls" ∷ []) world
          ≡ restart outside (codes "id") true (codes "ls" ∷ []) world c world))
    ⊎ (((resume outside (codes "id") true (codes "ls" ∷ []) world).1 ≡ world)
        × ((resume outside (codes "id") true (codes "ls" ∷ []) world).0 ≢ ok tt))
resume_spares_example =
    resume_spares outside (codes "id") true (codes "ls" ∷ []) world kept.dir kept.sys kept.entry
      kept.found kept.loaded kept.listed
