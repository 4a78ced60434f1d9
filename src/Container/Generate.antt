-- ===== src/Container/Generate.antt =====
-- generateContainer of container/container.go: a new container from an image.
use lpmx.Base.{
  ℕ, ◌≡◌, Bool, true, false, not, ◌&&◌, ◌||◌, Option, none, some, List, [], ◌∷◌, ◌++◌, map,
  if◌then◌else◌,
}
use lpmx.Base.Text.{Bytes, codes, split, join}
use lpmx.Base.Strings.{to_upper}
use lpmx.Base.Paths.{below}
use lpmx.Base.Dict.{Dict, lookup}
use lpmx.Base.Result.{Kind, Error, Result, ok, err, panic, err_new}
use lpmx.Base.World.{World, Go, pure, fail, ◌>>=◌, ◌>>◌, opens, write_file}
use lpmx.Utils.Files.{file_exist}
use lpmx.Utils.Folders.{explain, ensure_folder, reject_if}
use lpmx.Container.Config.{get_config_dir}
use lpmx.Container.Sys.{Scalar, Entry, fields, scalar, Codec, unmarshal_obj}
use lpmx.Container.Images.{Image, text_or_none}
use lpmx.Container.Method.{add_msg}
use lpmx.Container.Run.{RunMap}
use lpmx.Container.Shell.{Outside}
use lpmx.Container.Generate.Links.{
  reverse_str_array, find_string_array, engine_type, make_missing, link_layers, mounted,
  volume_items, with_default, sync_text,
}
use lpmx.Container.Generate.Accounts.{
  ld, layer_with, loader_in, patch_loader, Account, patch_passwd, patch_group,
}
pub mod Links
pub mod Accounts

-- What is asked for: the parameters of generateContainer behind the name of the image.
pub record Wanted : Type 0 where
  pub container_name : Bytes
  pub volume_map : Bytes
  pub engine : Bytes
  pub mountfile : Bytes

-- configmap["elf_loader"]
unfoldable pub loader : (Bytes → Go ℕ) → Bytes → List Bytes → Bytes → Go (Option Bytes)
unfolding file_exist loader_in ld patch_loader
loader permission base layers new w =
    (if file_exist w new
        then pure (some new)
        else patch_loader permission new (loader_in w base layers ld))
      w

-- f, _ := os.Create(p), and f.Close()
unfoldable pub create_empty : Bytes → Go (Unit {0})
unfolding opens write_file
create_empty p w = (ok tt, if opens w p then write_file w p [] else w)

abbrev unaccounted : Bytes
unaccounted = codes "could not find /etc/passwd or /etc/group to patch"

module _ (o : Outside) (permission : Bytes → Go ℕ) (account : Result Account)
    (ci : Codec Image) where
  -- /etc/passwd and /etc/group of the container, and the file that hides /tmp.
  unfoldable pub add_accounts : Bytes → List Bytes → Bytes → Go (Unit {0})
  unfolding explain patch_passwd patch_group layer_with reject_if create_empty
  add_accounts base layers dir = do
    user ← explain (codes "can't get current user info") (λ w. (account, w))
    passwd_patch ← λ w. patch_passwd user dir (layer_with w base layers (codes "/etc/passwd")) w
    group_patch ← λ w. patch_group user dir (layer_with w base layers (codes "/etc/group")) w
    reject_if (not passwd_patch || not group_patch) Kind.n_exist unaccounted
    create_empty (below dir (codes ".wh.tmp"))

  -- The map, by the folder of the container, the names of its layers and what the steps before gave.
  unfoldable pub generated :
      Dict Scalar
      → Bytes
      → Wanted
      → Bytes
      → Bytes
      → List Bytes
      → Option Bytes
      → Bytes
      → List Bytes
      → Option Bytes
      → RunMap
  unfolding text_or_none find_string_array engine_type sync_text
  generated m name want id rootfolder layers mountfile volume_map sync_folder elf_loader = record {
    dir = rootfolder ++ codes "/rw";
    config = text_or_none (lookup (codes "config") m);
    parent_dir = rootfolder;
    id = id;
    imagetype = text_or_none (lookup (codes "imagetype") m);
    image = name;
    layers = join b':' layers;
    baselayerpath = text_or_none (lookup (codes "base") m);
    sync_folder = sync_text sync_folder;
    sync_ori_folder = volume_map;
    engine = if find_string_array want.engine engine_type then map to_upper want.engine else [];
    container_name = want.container_name;
    passive = false;
    enable_engine = find_string_array want.engine engine_type;
    execmaps = none;
    mountfile = mountfile;
    elf_loader = elf_loader;
  }

  -- The container of an image with the fields `m`.
  unfoldable pub generate_from : Bytes → Bytes → Wanted → Dict Scalar → Go RunMap
  unfolding text_or_none make_missing link_layers reverse_str_array mounted ensure_folder
      with_default volume_items loader add_accounts generated split
  generate_from currdir name want m = do
    id ← o.random_string
    let base = text_or_none (lookup (codes "base") m)
    let rootfolder = below (text_or_none (lookup (codes "workspace") m)) id
    let sync = below (currdir ++ codes "/sync") id
    let volume_map = with_default sync want.volume_map
    make_missing rootfolder
    keys ← link_layers base rootfolder (split b':' (text_or_none (lookup (codes "layer_order") m)))
    let layers = reverse_str_array (keys ++ codes "rw" ∷ [])
    make_missing (rootfolder ++ codes "/rw")
    mountfile ← mounted rootfolder want.mountfile
    ensure_folder sync
    sync_folder ← volume_items rootfolder (split b':' volume_map)
    elf_loader ← loader permission base layers (rootfolder ++ codes "/ld.so.patch")
    add_accounts base layers (rootfolder ++ codes "/rw")
    pure (generated m name want id rootfolder layers mountfile volume_map sync_folder elf_loader)

  no_image : Bytes → Error
  unfolding err_new
  no_image name = err_new Kind.n_exist (codes "image " ++ name ++ codes " doesn't exist")

  unfoldable pub generate_entry : Bytes → Bytes → Wanted → Option Entry → Go RunMap
  unfolding generate_from no_image
  generate_entry currdir name want (some (fields m)) = generate_from currdir name want m
  generate_entry currdir name want (some (scalar s)) = fail (no_image name)
  generate_entry currdir name want none = fail (no_image name)

  -- `if err.Err == ErrNExist { err.AddMsg(…) }`
  unfoldable pub hinted {ℓ} : {A : Type ℓ} → Bytes → Result A → Result A
  unfolding add_msg
  hinted name (ok a) = ok a
  hinted name (err e) = err (elim e.kind [
    | Kind.n_exist ↦
        add_msg
          (codes "image " ++ name ++ codes " does not exist, you may need to download it firstly") e
    | _ ↦ e
  ])
  hinted name panic = panic

  -- generateContainer
  unfoldable pub generate_container : Bytes → Wanted → Go RunMap
  unfolding get_config_dir unmarshal_obj hinted generate_entry
  generate_container name want = do
    currdir ← get_config_dir o.host
    doc ←
        λ w. let (r, w') = unmarshal_obj ci (currdir ++ codes "/.lpmxdata") w in (hinted name r, w')
    generate_entry currdir name want (lookup name doc.images)
