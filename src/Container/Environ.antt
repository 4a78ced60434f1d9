-- ===== src/Container/Environ.antt =====
-- genEnv of container/container.go: the environment that a container's processes get.
use lpmx.Base.{
  Bool, true, false, not, ◌||◌, Option, none, some, List, [], ◌∷◌, ◌++◌, length, map, if◌then◌else◌,
}
use lpmx.Base.Text.{Bytes, codes, eqb, contains, has_prefix, split, join}
use lpmx.Base.Numbers.{pos, itoa}
use lpmx.Base.Paths.{path_dir, below}
use lpmx.Base.Dict.{Dict, lookup, insert}
use lpmx.Base.Result.{Result, ok, err, panic}
use lpmx.Base.World.{World, Go, pure, crash, ◌>>=◌, ◌>>◌, opens, write_file, ignoring}
use lpmx.Utils.Files.{file_exist}
use lpmx.Utils.Folders.{remove_file}
use lpmx.Utils.Guess.{guess_path_container}
use lpmx.Container.Config.{Host, get_config_dir}
use lpmx.Container.Sys.{Scalar, text, other}
use lpmx.Container.Conf.{
  Field, one, many, Item, absent, keyed, named, plain, Setting, single, items, text_of, guess_each,
}
use lpmx.Container.Append.{Container}
use lpmx.Container.Maps.{sys_dir}

-- os.Environ, os.LookupEnv, and the path of os.Executable, which is empty after an error.
pub record Environ : Type 0 where
  pub environ : List Bytes
  pub lookup_env : Bytes → Option Bytes
  pub executable : Bytes

unfoldable pub insert_all : Dict Bytes → List (Bytes × Bytes) → Dict Bytes
unfolding insert
insert_all env [] = env
insert_all env ((k, v) ∷ kvs) = insert_all (insert k v env) kvs

-- `if len(s) > 0 { env[k] = v }`
unfoldable pub insert_unless_empty : Bytes → Bytes → Bytes → Dict Bytes → Dict Bytes
unfolding insert
insert_unless_empty [] k v env = env
insert_unless_empty (c ∷ s) k v env = insert k v env

-- The variables that do not depend on the settings, in two parts.
unfoldable pub own_env : Container → Dict Bytes
unfolding insert_all insert_unless_empty
own_env con =
    insert_unless_empty con.file_sync_map (codes "FAKECHROOT_MOUNT_FILE") con.file_sync_map (
      insert_unless_empty con.execmaps (codes "FAKECHROOT_EXEC_SWITCH") (codes "true") (
        insert_all [] (
          (codes "ContainerId", con.id)
          ∷ (codes "ContainerRoot", con.root_path)
          ∷ (
            codes "LD_PRELOAD",
            con.sys_folder
                ++ codes "/libfakechroot.so "
                ++ con.sys_folder
                ++ codes "/libfakeroot.so",
          )
          ∷ (codes "TERM", codes "xterm")
          ∷ (codes "SHELL", con.user_shell)
          ∷ (codes "ContainerLayers", con.layers)
          ∷ (codes "ContainerBasePath", con.base_layer_path)
          ∷ (codes "FAKECHROOT_ELFLOADER", con.patched_elf_loader)
          ∷ (codes "PWD", codes "/")
          ∷ (codes "HOME", codes "/root")
          ∷ (codes "FAKED_MODE", codes "unknown-is-root")
          ∷ (codes "BaseType", con.base_type)
          ∷ (codes "PATH", codes "/usr/local/sbin:/usr/local/bin:/usr/sbin:/usr/bin:/sbin:/bin")
          ∷ (codes "ContainerConfigPath", con.config_path)
          ∷ [])))

unfoldable pub machine_env : Container → Bytes → Bytes → Dict Bytes → Dict Bytes
unfolding insert_all
machine_env con currdir exe_path env = insert_all env (
    (codes "FAKECHROOT_SyslibPath", sys_dir currdir)
    ∷ (codes "FAKECHROOT_EXCLUDE_PATH", codes "/dev:/proc:/sys")
    ∷ (codes "FAKECHROOT_DATA_SYNC", con.data_sync_folder)
    ∷ (
      codes "FAKECHROOT_CMD_SUBST",
      codes
          "/sbin/ldconfig.real=/bin/true:/sbin/insserv=/bin/true:/sbin/ldconfig=/bin/true:/usr/bin/ischroot=/bin/true:/usr/bin/mkfifo=/bin/true",
    )
    ∷ (codes "LPMX_EXECUTABLE", exe_path)
    ∷ [])

-- The calls of GuessPathContainer.
unfoldable pub guess : Container → Bool → World → Bytes → Result Bytes
unfolding guess_path_container path_dir split
guess con file w s = guess_path_container w (path_dir con.root_path) (split b':' con.layers) s file

-- `env[k], err = GuessPathContainer(…)`: the empty path after an error.
unfoldable pub or_blank : Result Bytes → Go Bytes
or_blank (ok p) = pure p
or_blank (err e) = pure []
or_blank panic = crash

-- One key of a map of export_env. A list at a key that is no string panics in the log entry.
unfoldable pub export_pair : Container → Scalar → Field → Dict Bytes → Go (Dict Bytes)
unfolding insert or_blank guess guess_each join
export_pair con (text k) (one (text s)) env = do
  p ← λ w. or_blank (guess con false w s) w
  pure (insert k p env)
export_pair con (text k) (one (other s)) env = pure env
export_pair con (text k) (many vs) env = do
  libs ← guess_each (guess con false) vs
  pure (insert k (join b':' libs) env)
export_pair con (other k) (one v) env = pure env
export_pair con (other k) (many vs) env = do libs ← guess_each (guess con false) vs; crash

unfoldable pub export_map : Container → List (Scalar × Field) → Dict Bytes → Go (Dict Bytes)
unfolding export_pair
export_map con [] env = pure env
export_map con ((k, v) ∷ kvs) env = do env' ← export_pair con k v env; export_map con kvs env'

unfoldable pub export_item : Container → Item → Dict Bytes → Go (Dict Bytes)
unfolding export_map
export_item con absent env = pure env
export_item con (keyed kvs) env = export_map con kvs env
export_item con (named kvs) env =
    export_map con (map (λ (kv : Bytes × Field). (text kv.0, kv.1)) kvs) env
export_item con (plain v) env = pure env

unfoldable pub export_items : Container → List Item → Dict Bytes → Go (Dict Bytes)
unfolding export_item
export_items con [] env = pure env
export_items con (d ∷ ds) env = do env' ← export_item con d env; export_items con ds env'

unfoldable pub export_env : Container → Option Setting → Dict Bytes → Go (Dict Bytes)
unfolding export_items
export_env con none env = pure env
export_env con (some (single v)) env = pure env
export_env con (some (items ds)) env = export_items con ds env

-- LD_LIBRARY_PATH with `libs` in front.
unfoldable pub library_path : Bytes → Option Bytes → Bytes
library_path libs none = libs
library_path libs (some val) = libs ++ b':' ∷ val

unfoldable pub add_library_path : Bytes → Dict Bytes → Dict Bytes
unfolding insert lookup library_path
add_library_path libs env =
    insert (codes "LD_LIBRARY_PATH") (library_path libs (lookup (codes "LD_LIBRARY_PATH") env)) env

-- v.(string)
unfoldable pub setting_text : Setting → Go Bytes
unfolding text_of
setting_text (single v) = text_of v
setting_text (items ds) = crash

unfoldable pub elf_loader : Container → Option Setting → Dict Bytes → Go (Dict Bytes)
unfolding setting_text guess insert
elf_loader con none env = pure env
elf_loader con (some v) env = do
  s ← setting_text v
  elfloader_path ← λ w. (guess con true w s, w)
  pure (insert (codes "FAKECHROOT_ELFLOADER") elfloader_path env)

unfoldable pub exclude_paths : Option Setting → Dict Bytes → Go (Dict Bytes)
unfolding setting_text insert
exclude_paths none env = pure env
exclude_paths (some v) env = do
  s ← setting_text v
  pure (insert (codes "FAKECHROOT_EXCLUDE_EX_PATH") s env)

-- env[values[0]] = values[1]
unfoldable pub insert_pair : List Bytes → Dict Bytes → Go (Dict Bytes)
unfolding insert
insert_pair (k ∷ v ∷ values) env = pure (insert k v env)
insert_pair (k ∷ []) env = crash
insert_pair [] env = crash

-- The host's variables that begin with `prefix`.
unfoldable pub import_env : Bytes → List Bytes → Dict Bytes → Go (Dict Bytes)
unfolding insert_pair split
import_env prefix [] env = pure env
import_env prefix (str ∷ strs) env = do
  env' ← if has_prefix str prefix then insert_pair (split b'=' str) env else pure env
  import_env prefix strs env'

-- The host's variables that go to the file .env.
unfoldable pub host_lines : List Bytes → List Bytes
host_lines [] = []
host_lines (str ∷ strs) =
    let rest = host_lines strs in
    if contains b'{' str
      || contains b'}' str
      || contains b'(' str
      || contains b')' str
      || not (contains b'=' str)
    then rest
    else str ∷ rest

-- fmt.Fprintln of every line
unfoldable pub printed : List Bytes → Bytes
printed [] = []
printed (line ∷ lines) = line ++ 10 ∷ printed lines

unfoldable pub env_text : List Bytes → Bytes
unfolding host_lines printed itoa
env_text strs = printed (itoa (pos (length (host_lines strs))) ∷ host_lines strs)

-- The file .env: after an error of os.Create nothing is written.
unfoldable pub write_env : Bytes → List Bytes → Go (Unit {0})
unfolding file_exist ignoring remove_file opens write_file env_text
write_env env_path strs = do
  λ w. (if file_exist w env_path then ignoring (remove_file env_path) else pure tt) w
  λ w. (ok tt, if opens w env_path then write_file w env_path (env_text strs) else w)

-- env[k], which is empty without such a key.
unfoldable pub or_no_text : Option Bytes → Bytes
or_no_text none = []
or_no_text (some s) = s

unfoldable pub exclude_root : Option Bytes → Dict Bytes → Dict Bytes
unfolding insert lookup or_no_text split join
exclude_root none env = env
exclude_root (some sk) env =
    insert (codes "FAKECHROOT_EXCLUDE_PATH")
      (join b':'
        (split b':' (or_no_text (lookup (codes "FAKECHROOT_EXCLUDE_PATH") env)) ++ sk ∷ []))
      env

unfoldable pub engine_env : Environ → Bytes → Option Bytes → Dict Bytes → Go (Dict Bytes)
unfolding insert import_env exclude_root
engine_env o engine none env = pure env
engine_env o [] (some v) env = pure env
engine_env o (c ∷ engine) (some v) env = do
  env' ← import_env (c ∷ engine) o.environ (
      insert (codes "FAKECHROOT_ENGINE_TYPE") (c ∷ engine)
        (insert (codes "FAKECHROOT_ENGINE") (codes "TRUE") env))
  pure (exclude_root (o.lookup_env ((c ∷ engine) ++ codes "_ROOT")) env')

-- The loop over envmap.
unfoldable pub with_given : Dict Bytes → Dict Bytes → Dict Bytes
unfolding insert
with_given env [] = env
with_given env ((k, v) ∷ envmap) =
    with_given (if eqb k (codes "engine") then env else insert k v env) envmap

-- genEnv
unfoldable pub gen_env : Host → Environ → Container → Dict Bytes → Go (Dict Bytes)
unfolding get_config_dir own_env machine_env export_env add_library_path elf_loader exclude_paths
    import_env write_env engine_env with_given lookup
gen_env h o con envmap = do
  currdir ← get_config_dir h
  env ←
      export_env con (lookup (codes "export_env") con.setting_conf)
        (machine_env con currdir o.executable (own_env con))
  env' ←
      elf_loader con (lookup (codes "fakechroot_elfloader") con.setting_conf)
        (add_library_path (sys_dir currdir) env)
  env'' ← exclude_paths (lookup (codes "fakechroot_exclude_ex_path") con.setting_conf) env'
  env3 ← import_env (codes "FAKECHROOT_") o.environ env''
  write_env (below con.config_path (codes ".env")) o.environ
  env4 ← engine_env o con.engine (lookup (codes "engine") envmap) env3
  pure (with_given env4 envmap)
