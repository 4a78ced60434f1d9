-- ===== src/Container/Initial.antt =====
-- Reset and DockerReset of container/container.go, the test that Update begins with, and Init,
-- which makes the registry: what Init does to the variables of its own process is left out, since
-- it ends with that process.
use lpmx.Base.{Bool, true, false, ◌||◌, Option, none, some, List, [], ◌∷◌, ◌++◌, if◌then◌else◌}
use lpmx.Base.Text.{Bytes, codes, contains, split}
use lpmx.Base.Numbers.{itoa}
use lpmx.Base.Paths.{below, path_base, path_dir}
use lpmx.Base.Dict.{Dict, lookup}
use lpmx.Base.Result.{Kind, Error, Result, ok, err, panic, err_new}
use lpmx.Base.World.{Go, pure, fail, crash, ◌>>=◌, ◌>>◌, ignoring}
use lpmx.Utils.Files.{file_exist, folder_exist}
use lpmx.Utils.Folders.{make_dir, remove_all, remove_file}
use lpmx.Utils.Untar.{Archives, untar}
use lpmx.Paeudo.{Exec}
use lpmx.Pid.{Processes, pid_is_active, pid_value, by_file}
use lpmx.Docker.{
  Web, setting_url, direct_download_file_from_github, download_file_from_github_plus,
  get_host_os_info,
}
use lpmx.Container.Config.{Host, get_config_dir}
use lpmx.Container.Sys.{Scalar, Entry, fields, scalar, Sys, Codec, unmarshal_obj, info_of}
use lpmx.Container.Append.{Container, save}
use lpmx.Container.Destroy.{pid_file}
use lpmx.Container.Generate.Links.{make_missing}
use lpmx.Container.Images.{Image, text_or_none}
use lpmx.Container.Maps.{sys_dir, as_text}
use lpmx.Container.Resume.{or_false, or_zero}

unfoldable pub or_default : Bytes → Bytes
or_default [] = codes "default"
or_default (c ∷ s) = c ∷ s

-- dist and release
unfoldable pub known : Result (Bytes × Bytes) → Go (Bytes × Bytes)
unfolding or_default
known (ok (dist, release)) = pure (or_default dist, or_default release)
known (err e) = pure (codes "default", codes "default")
known panic = crash

module _ (web : Web) (run : Exec) (a : Archives) where
  -- The download of dependency.tar.gz.
  unfoldable pub fetch_plus : Bytes → Bytes → Bytes → Go (Unit {0})
  unfolding get_host_os_info known download_file_from_github_plus setting_url
  fetch_plus dist release root_dir =
      download_file_from_github_plus web dist release (codes "dependency.tar.gz") setting_url
        root_dir (below root_dir (codes "distro.management.yml"))

  unfoldable pub host_os : Go (Bytes × Bytes)
  unfolding get_host_os_info known
  host_os w = let (r, w') = get_host_os_info web run w in known r w'

  unfoldable pub fetch_dependency : Bool → Bytes → Bytes → Bytes → Go (Unit {0})
  unfolding fetch_plus direct_download_file_from_github setting_url
  fetch_dependency true dist release root_dir = fetch_plus dist release root_dir
  fetch_dependency false dist release root_dir =
      direct_download_file_from_github web (codes "dependency.tar.gz")
        (below setting_url (codes "default.dependency.tar.gz")) root_dir

  -- Reset
  unfoldable pub reset : Host → Codec Sys → Bool → Go (Unit {0})
  unfolding get_config_dir unmarshal_obj host_os file_exist remove_file ignoring fetch_dependency
      untar
  reset h c use_new_glibc = do
    currdir ← get_config_dir h
    sys ← unmarshal_obj c (sys_dir currdir)
    (dist, release) ← host_os
    λ w.
        (if file_exist w (below sys.root_dir (codes "dependency.tar.gz"))
            then ignoring (remove_file (below sys.root_dir (codes "dependency.tar.gz")))
            else pure tt)
          w
    fetch_dependency use_new_glibc dist release sys.root_dir
    untar a (below sys.root_dir (codes "dependency.tar.gz")) sys.root_dir

  -- The path of the archive of Init.
  unfoldable pub dep_path : Bytes → Bytes → Bytes
  dep_path [] root_dir = below root_dir (codes "dependency.tar.gz")
  dep_path (d ∷ deppath) root_dir = d ∷ deppath

  -- The `else` of Init.
  unfoldable pub set_up_sys : Bytes → Bytes → Bool → Sys → Go Sys
  unfolding make_dir host_os dep_path file_exist fetch_dependency untar
  set_up_sys currdir deppath use_new_glibc sys = do
    make_dir sys.root_dir
    make_dir sys.log_path
    make_dir (below currdir (codes "bin"))
    (dist, release) ← host_os
    λ w.
        (if file_exist w (dep_path deppath sys.root_dir)
            then pure tt
            else fetch_dependency use_new_glibc dist release sys.root_dir)
          w
    untar a (dep_path deppath sys.root_dir) sys.root_dir
    pure (record sys { containers = [] })

  unfoldable pub load_or_set_up_sys : Codec Sys → Bytes → Bytes → Bool → Sys → Go Sys
  unfolding file_exist unmarshal_obj set_up_sys
  load_or_set_up_sys c currdir deppath use_new_glibc sys w =
      (if file_exist w (info_of sys.root_dir)
          then unmarshal_obj c sys.root_dir
          else set_up_sys currdir deppath use_new_glibc sys)
        w

-- sys, as it stands when the deferred function of Init runs.
unfoldable pub kept_sys : Sys → Result Sys → Sys
kept_sys sys (ok sys') = sys'
kept_sys sys (err e) = sys
kept_sys sys panic = sys

unfoldable pub done_if : Result Sys → Result (Unit {0})
done_if (ok sys) = ok tt
done_if (err e) = err e
done_if panic = panic

unfoldable pub initial_sys : Bytes → Sys
initial_sys currdir = record {
  root_dir = sys_dir currdir;
  containers = [];
  log_path = below (sys_dir currdir) (codes "log");
}

module _ (web : Web) (run : Exec) (a : Archives) (h : Host) (c : Codec Sys) where
  -- The body of Init and its deferred function, which stores sys also after an error.
  unfoldable pub init_body : Bytes → Bytes → Bool → Go (Unit {0})
  unfolding load_or_set_up_sys kept_sys done_if initial_sys ignoring save
  init_body currdir deppath use_new_glibc w =
      let sys = initial_sys currdir in
      let (r, w') = load_or_set_up_sys web run a c currdir deppath use_new_glibc sys w in
      let (s, w'') = ignoring (save c (kept_sys sys r)) w' in (done_if r, w'')

  -- Init
  unfoldable pub init : Bool → Bytes → Bool → Go (Unit {0})
  unfolding get_config_dir remove_all init_body
  init reset deppath use_new_glibc = do
    currdir ← get_config_dir h
    if reset || use_new_glibc then remove_all (sys_dir currdir) else pure tt
    init_body currdir deppath use_new_glibc

-- One round of the loop of DockerReset: the folder of a layer is made anew from its archive.
unfoldable pub reset_layer : Archives → Bytes → Bytes → Bytes → Go (Unit {0})
unfolding folder_exist ignoring remove_all make_missing untar
reset_layer a image_dir base k = do
  λ w. (if folder_exist w (below base k) then ignoring (remove_all (below base k)) else pure tt) w
  ignoring (make_missing (below base k))
  untar a (below image_dir k) (below base k)

-- The loop; name_data["base"] is looked at in every round.
unfoldable pub reset_layers : Archives → Bytes → Option Scalar → List Bytes → Go (Unit {0})
unfolding as_text path_base reset_layer
reset_layers a image_dir base [] = pure tt
reset_layers a image_dir base (k ∷ layers) = do
  b ← as_text base
  reset_layer a image_dir b (path_base k)
  reset_layers a image_dir base layers

no_name : Bytes → Error
unfolding err_new
no_name name = err_new Kind.n_exist (codes "name: " ++ name ++ codes " is not found")

unfoldable pub reset_image : Archives → Bytes → Option Entry → Go (Unit {0})
unfolding text_or_none as_text reset_layers split no_name
reset_image a name (some (fields m)) = do
  layer_order ← as_text (lookup (codes "layer_order") m)
  reset_layers a (text_or_none (lookup (codes "image") m)) (lookup (codes "base") m)
      (split b':' layer_order)
reset_image a name (some (scalar s)) = fail (no_name name)
reset_image a name none = fail (no_name name)

-- The name with a tag.
unfoldable pub tagged : Bytes → Bytes
unfolding contains
tagged name = if contains b':' name then name else name ++ codes ":latest"

-- DockerReset
unfoldable pub docker_reset : Archives → Host → Codec Image → Bytes → Go (Unit {0})
unfolding get_config_dir unmarshal_obj reset_image tagged
docker_reset a h ci name = do
  currdir ← get_config_dir h
  doc ← unmarshal_obj ci (currdir ++ codes "/.lpmxdata")
  reset_image a (tagged name) (lookup (tagged name) doc.images)

untyped_container : Error
unfolding err_new
untyped_container = err_new Kind.type_error (codes "container type is not map[string]interface{}")

-- The containers that Update goes through: it stops at one that runs.
unfoldable pub check_stopped : Processes → Codec Container → Dict Entry → Go (Unit {0})
unfolding as_text unmarshal_obj pid_file path_dir or_false or_zero pid_is_active pid_value
    untyped_container err_new itoa
check_stopped ps c [] = pure tt
check_stopped ps c ((k, fields m) ∷ containers) =
    let rest = check_stopped ps c containers in
    (do
      config_path ← as_text (lookup (codes "ConfigPath") m)
      con ← unmarshal_obj c config_path
      λ w.
          (if or_false (pid_is_active ps (by_file (pid_file (path_dir con.root_path))) w).0
              then fail (
                  err_new Kind.exist (
                    codes "conatiner is running with pid: "
                    ++ itoa (or_zero (pid_value (pid_file (path_dir con.root_path)) w).0)
                    ++ codes
                        ", can't update(please stop all running containers in order to update libraries)"))
              else rest)
            w)
check_stopped ps c ((k, scalar s) ∷ containers) = fail untyped_container
