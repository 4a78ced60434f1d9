-- ===== src/Container/Tests/Commands.antt =====
-- A container whose settings ask for a change, its environment, and the image that it relies on.
use lpmx.Base.{◌≡◌, ◌≢◌, refl, true, false, some, [], ◌∷◌, ◌++◌, arith, All, length, if◌then◌else◌}
use lpmx.Base.Text.{Bytes, codes, eqb, split, cons_head, has_prefix, contains, join, Lacks}
use lpmx.Base.Dict.{Dict, lookup}
use lpmx.Base.Numbers.{pos, negsuc, itoa}
use lpmx.Base.Result.{ok}
use lpmx.Base.World.{World, file, pure, crash, resolve, read_file}
use lpmx.Utils.Files.{file_exist, file_type, regular_file_exist}
use lpmx.Paeudo.{Exec}
use lpmx.Container.Config.{Host, get_config_dir, get_curr_dir, locate, is_system}
use lpmx.Container.Sys.{Scalar, text, fields, Sys, unmarshal_obj, unmarshal_obj-marshal}
use lpmx.Container.Settings.{unmarshal_obj_ok}
use lpmx.Container.Maps.{sys_dir}
use lpmx.Container.Conf.{many, keyed, items}
use lpmx.Container.Append.{Container}
use lpmx.Container.Patch.{Walker, add_allow_priv, patch_bineries}
use lpmx.Container.Refused.{patch_bineries_idle}
use lpmx.Container.Environ.{Environ, env_text, host_lines, gen_env}
use lpmx.Container.EnvFile.{split-env_text}
use lpmx.Container.Given.{IsBare, gen_env-given}
use lpmx.Container.Images.{common_delete}
use lpmx.Container.Relied.{IsRelied, common_delete_spares}
use lpmx.Container.Tests.Encoding.{sys_codec, image_codec}
use lpmx.Container.Tests.Containers.{con_codec}

abbrev pub con : Container
con = record {
  id = codes "id";
  root_path = codes "/k/rw";
  setting_path = codes "/s";
  config_path = codes "/k/.lpmx";
  base_layer_path = [];
  container_name = [];
  rpc_port = pos 0;
  base_type = codes "Docker";
  image_base = codes "img";
  data_sync_folder = [];
  data_sync_map = [];
  engine = codes "SGE";
  file_sync_map = [];
  sys_folder = codes "/c/.lpmxsys";
  layers = codes "rw:l";
  expose_exe = [];
  user_shell = codes "/bin/bash";
  patched_elf_loader = [];
  execmaps = [];
  elf_patcher_path = codes "/e";
  log_path = [];
  setting_conf =
      (add_allow_priv, items (keyed ((text (codes "p"), many (text (codes "all") ∷ [])) ∷ []) ∷ []))
      ∷ [];
  start_time = [];
  create_user = [];
  current_user = [];
  rpc_map = [];
  pid_file = [];
  pid = negsuc 0;
}

abbrev pub entry : Dict Scalar
entry = (codes "ConfigPath", text (codes "/k/.lpmx")) ∷ []

abbrev pub sys : Sys
sys = record {
  root_dir = codes "/c/.lpmxsys";
  containers = (codes "id", fields entry) ∷ [];
  log_path = [];
}

-- Every path is a file.
abbrev world : World
world = record {
  node = λ p. some (
      file (
        if eqb p (codes "/c/.lpmxsys/.info")
        then sys_codec.marshal sys
        else if eqb p (codes "/k/.lpmx/.info")
        then con_codec.marshal con
        else codes "no"));
  readable = λ p. true;
  writable = λ p. true;
  removable = λ p. true;
  room = λ p. 1000;
}

abbrev pub host : Host
host = record {
  filename = codes "lpmx";
  cwd = ok (codes "/c");
  path = codes "/p";
  current_user = ok (record { uid = []; home_dir = [] });
}

abbrev pub exec : Exec
exec cmd arg = pure (join b' ' arg)

abbrev failing : Exec
failing cmd arg = crash

abbrev pub walker : Walker
walker = record { visits = λ w p. []; executable = λ p. pure true }

patch_bineries_idle_example : patch_bineries exec walker con ≡ patch_bineries failing walker con
patch_bineries_idle_example = patch_bineries_idle exec failing walker con

abbrev pub environ : Environ
environ = record {
  environ = codes "FAKECHROOT_X=1" ∷ codes "SGE_ROOT=/s" ∷ [];
  lookup_env = λ k. some (codes "/s");
  executable = codes "/c/lpmx";
}

abbrev envmap : Dict Bytes
envmap = (codes "engine", codes "TRUE") ∷ (codes "HOME", codes "/h") ∷ []

found : get_config_dir host world ≡ (ok (codes "/c"), world)
unfolding get_config_dir get_curr_dir locate is_system has_prefix regular_file_exist file_type eqb
    codes split cons_head
found = refl

bare : IsBare con
unfolding lookup eqb codes add_allow_priv
bare = record { no_env = refl; no_loader = refl; no_paths = refl }

gen_env-given_example :
    (env : Dict Bytes) × ((gen_env host environ con envmap world).0 ≡ ok env)
    × ((k v : Bytes)
        → lookup k envmap ≡ some v
        → eqb k (codes "engine") ≡ false
        → lookup k env ≡ some v)
unfolding lookup eqb codes contains
gen_env-given_example =
    gen_env-given host environ con envmap (codes "/c") world found bare (refl, (refl, tt))
      (refl, (refl, tt))

unbroken : All (Lacks 10) environ.environ
unfolding codes
unbroken = ground arith

split-env_text_example :
    split 10 (env_text environ.environ)
    ≡ itoa (pos (length (host_lines environ.environ))) ∷ host_lines environ.environ ++ [] ∷ []
split-env_text_example = split-env_text environ.environ unbroken

loaded : unmarshal_obj sys_codec (sys_dir (codes "/c")) world ≡ (ok sys, world)
unfolding file_exist file_type read_file resolve eqb codes
loaded =
    unmarshal_obj_ok host sys_codec [] [] (sys_dir (codes "/c")) world (ok sys)
      (unmarshal_obj-marshal sys_codec (sys_dir (codes "/c")) sys world refl refl)

relied : IsRelied con_codec (codes "img") world entry
unfolding file_exist file_type read_file resolve eqb codes lookup
relied = record {
  cfg = codes "/k/.lpmx";
  config = refl;
  con = con;
  loaded = unmarshal_obj-marshal con_codec (codes "/k/.lpmx") con world refl refl;
  image = refl;
}

listed : lookup (codes "id") sys.containers ≡ some (fields entry)
unfolding lookup eqb codes
listed = refl

common_delete_spares_example :
    ((common_delete host sys_codec con_codec image_codec (codes "img") true world).0 ≢ ok tt)
    × ((common_delete host sys_codec con_codec image_codec (codes "img") true world).1 ≡ world)
common_delete_spares_example =
    common_delete_spares host sys_codec con_codec image_codec (codes "/c") (codes "img")
      (codes "id") sys entry true world found loaded listed relied
