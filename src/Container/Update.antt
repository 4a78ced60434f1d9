-- ===== src/Container/Update.antt =====
-- Update of container/container.go.
use lpmx.Base.{◌++◌, if◌then◌else◌}
use lpmx.Base.Text.{Bytes, codes}
use lpmx.Base.Paths.{below}
use lpmx.Base.Result.{Kind, Error, err_new}
use lpmx.Base.World.{Go, pure, fail, ◌>>=◌, ◌>>◌, deferring}
use lpmx.Utils.Files.{file_exist, folder_exist}
use lpmx.Utils.Folders.{remove_file}
use lpmx.Utils.Moving.{create_temp_dir, rename}
use lpmx.Utils.Untar.{untar}
use lpmx.Docker.{setting_url, download_file_from_github_plus}
use lpmx.Container.Config.{get_config_dir}
use lpmx.Container.Sys.{Sys, unmarshal_obj}
use lpmx.Container.Initial.{host_os, check_stopped}
use lpmx.Container.Install.{Supplies, drop_temp}
use lpmx.Container.Maps.{sys_dir}

unfoldable pub no_config : Bytes → Error
unfolding err_new
no_config currdir = err_new Kind.n_exist (
    codes "could not find config folder in "
    ++ currdir
    ++ codes ", something goes wrong, please uninstall and reset")

module _ (s : Supplies) where
  -- The library is taken out of the archive by way of a folder.
  unfoldable pub replace_library : Bytes → Bytes → Go (Unit {0})
  unfolding untar rename
  replace_library config temp = do
    untar s.archives (below config (codes "dependency.tar.gz")) temp
    rename (below temp (codes "libfakechroot.so")) (below config (codes "libfakechroot.so"))

  -- Where no archive is there any longer.
  unfoldable pub fetch_library : Bytes → Bytes → Bytes → Bytes → Go (Unit {0})
  unfolding download_file_from_github_plus setting_url create_temp_dir deferring drop_temp
      replace_library
  fetch_library config root_dir dist release = do
    download_file_from_github_plus s.web dist release (codes "dependency.tar.gz") setting_url config
        (below root_dir (codes "distro.management.yml"))
    temp ← create_temp_dir s.machine config
    deferring (drop_temp temp) (replace_library config temp)

  unfoldable pub update_stopped : Bytes → Sys → Go (Unit {0})
  unfolding check_stopped host_os file_exist remove_file fetch_library err_new
  update_stopped config sys = do
    check_stopped s.processes s.con_codec sys.containers
    (dist, release) ← host_os s.web s.exec s.archives
    λ w.
        (if file_exist w (below config (codes "dependency.tar.gz"))
            then remove_file (below config (codes "dependency.tar.gz"))
            else pure tt)
          w
    λ w.
        (if file_exist w (below config (codes "dependency.tar.gz"))
            then fail (
                err_new Kind.exist (
                  codes "could not find "
                  ++ below config (codes "dependency.tar.gz")
                  ++ codes ", terminated"))
            else fetch_library config sys.root_dir dist release)
          w

  -- Update
  unfoldable pub update : Go (Unit {0})
  unfolding get_config_dir folder_exist unmarshal_obj update_stopped no_config
  update = do
    currdir ← get_config_dir s.host
    λ w. (if folder_exist w (sys_dir currdir) then pure tt else fail (no_config currdir)) w
    sys ← unmarshal_obj s.sys_codec (sys_dir currdir)
    update_stopped (sys_dir currdir) sys
