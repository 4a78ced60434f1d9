-- ===== src/Container/Layer.antt =====
-- The layer that DockerCommit of container/container.go makes of what a container has changed: what
-- is left out of it, and what stands in its place.
use lpmx.Base.{List, [], ◌∷◌, ◌++◌, if◌then◌else◌}
use lpmx.Base.Text.{Bytes, codes, join, split}
use lpmx.Base.Paths.{below}
use lpmx.Base.Result.{ok}
use lpmx.Base.World.{
  Go, pure, ◌>>=◌, ◌>>◌, opens, write_file, os_mkdir, os_mkdir_all, os_remove_all, os_rename,
  os_symlink, ignoring,
}
use lpmx.Utils.Files.{file_exist, folder_exist}
use lpmx.Utils.Folders.{explain, remove_all, remove_file}
use lpmx.Utils.Moving.{rename}
use lpmx.Compose.Run.{two_parts}
use lpmx.Container.Append.{Container}

unfoldable pub drop_folder : Bytes → Go (Unit {0})
unfolding folder_exist ignoring remove_all
drop_folder p w = (if folder_exist w p then ignoring (remove_all p) else pure tt) w

unfoldable pub drop_file : Bytes → Go (Unit {0})
unfolding file_exist ignoring remove_file
drop_file p w = (if file_exist w p then ignoring (remove_file p) else pure tt) w

-- A file moves if it is there.
unfoldable pub move_existing : Bytes → Bytes → Go (Unit {0})
unfolding file_exist rename
move_existing p q w = (if file_exist w p then rename p q else pure tt) w

-- The link of an item host=place.
unfoldable pub drop_data_link : Bytes → List Bytes → Go (Unit {0})
unfolding ignoring os_remove_all
drop_data_link root (host ∷ (c ∷ place) ∷ []) = ignoring (os_remove_all (root ++ c ∷ place))
drop_data_link root v = pure tt

unfoldable pub drop_data_links : Bytes → List Bytes → Go (Unit {0})
unfolding drop_data_link split
drop_data_links root [] = pure tt
drop_data_links root (kv ∷ kvs) = do drop_data_link root (split b'=' kv); drop_data_links root kvs

-- An item that is not empty is linked again; without an equals sign it panics.
unfoldable pub data_link : Bytes → Bytes → Go (Unit {0})
unfolding two_parts explain os_symlink
data_link root [] = pure tt
data_link root (c ∷ kv) = do
  (host, place) ← two_parts b'=' (c ∷ kv)
  explain (codes "could not symlink, oldpath: " ++ host ++ codes ", newpath: " ++ place)
      (os_symlink host (root ++ place))

unfoldable pub data_links : Bytes → List Bytes → Go (Unit {0})
unfolding data_link
data_links root [] = pure tt
data_links root (kv ∷ kvs) = do data_link root kv; data_links root kvs

-- Step 0: what does not go to the layer is removed, or moves to `temp`.
unfoldable pub clear_layer : Container → Bytes → Go (Unit {0})
unfolding move_existing drop_folder drop_file drop_data_links split
clear_layer con temp = do
  move_existing (below con.root_path (codes "etc/group")) (below temp (codes "etc/group"))
  move_existing (below con.root_path (codes "etc/passwd")) (below temp (codes "etc/passwd"))
  drop_folder (below con.root_path (codes "tmp"))
  drop_file (below con.root_path (codes ".wh.tmp"))
  drop_data_links con.root_path (split b':' con.data_sync_map)
  drop_folder (below con.root_path (codes "var/lib/apt/lists"))
  drop_folder (below con.root_path (codes "var/lib/dpkg"))

unfoldable pub rename_as : Bytes → Bytes → Bytes → Go (Unit {0})
unfolding explain os_rename
rename_as p q shown =
    explain (codes "could not rename(move): " ++ p ++ codes " to " ++ shown) (os_rename p q)

-- strings.Split(con.Layers, ":")[1:]
unfoldable pub lower_layers : List Bytes → List Bytes
lower_layers [] = []
lower_layers (rw ∷ layers) = layers

unfoldable pub committed_layers : Bytes → Bytes → Bytes
unfolding join split lower_layers
committed_layers shasum layers =
    join b':' (codes "rw" ∷ (shasum ++ codes ".tar.gz") ∷ lower_layers (split b':' layers))

-- con, as it moves to the folder of the new image.
unfoldable pub moved_con : Container → Bytes → Bytes → Container
moved_con con dir id = record con {
  root_path = below (below (below dir (codes "workspace")) id) (codes "rw");
  setting_path = below dir (codes "setting.yml");
  config_path = below (below (below dir (codes "workspace")) id) (codes ".lpmx");
  log_path = below (below (below (below dir (codes "workspace")) id) (codes ".lpmx")) (codes "log");
  patched_elf_loader = below (below (below dir (codes "workspace")) id) (codes "ld.so.patch");
}

-- os.Create and Close: an error of os.Create is not looked at.
unfoldable pub touch : Bytes → Go (Unit {0})
unfolding opens write_file
touch p w = (ok tt, if opens w p then write_file w p [] else w)

-- step 3: the new layer for writing
unfoldable pub new_layer : Container → Bytes → Go (Unit {0})
unfolding explain os_mkdir data_links split move_existing ignoring os_mkdir_all touch
new_layer con temp = do
  explain (codes "could not make new folder: " ++ con.root_path) (os_mkdir con.root_path)
  data_links con.root_path (split b':' con.data_sync_map)
  move_existing (below temp (codes "etc/group")) (below con.root_path (codes "etc/group"))
  move_existing (below temp (codes "etc/passwd")) (below con.root_path (codes "etc/passwd"))
  ignoring (os_mkdir_all (below con.root_path (codes "tmp")))
  touch (below con.root_path (codes ".wh.tmp"))

unfoldable pub make_workspace : Bytes → Go (Unit {0})
unfolding folder_exist explain os_mkdir_all
make_workspace p w =
    (if folder_exist w p
        then pure tt
        else explain (codes "could not make dir " ++ p) (os_mkdir_all p))
      w
