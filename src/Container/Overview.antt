-- ===== src/Container/Overview.antt =====
-- List, CommonList and Uninstall of container/container.go.
use lpmx.Base.{Bool, not, ◌&&◌, Option, none, some, List, [], ◌∷◌, ◌++◌, if◌then◌else◌}
use lpmx.Base.Text.{Bytes, codes, eqb}
use lpmx.Base.Numbers.{ℤ, negsuc, itoa}
use lpmx.Base.Paths.{below, path_dir}
use lpmx.Base.Dict.{Dict, lookup}
use lpmx.Base.Result.{Kind, Error, Result, ok, err, panic, err_new}
use lpmx.Base.World.{World, Go, pure, fail, crash, ◌>>=◌, ◌>>◌}
use lpmx.Utils.Folders.{remove_all}
use lpmx.Pid.{Processes, eq_int}
use lpmx.Container.Config.{Host, get_config_dir}
use lpmx.Container.Sys.{Scalar, text, other, Entry, fields, scalar, Sys, Codec, unmarshal_obj}
use lpmx.Container.Destroy.{running_pid, pid_file}
use lpmx.Container.Images.{Image}
use lpmx.Container.Maps.{sys_dir, as_text}

-- A line that List prints, before it is filled up with spaces.
pub record Row : Type 0 where
  pub container_id : Bytes
  pub container_name : Bytes
  pub status : Bytes
  pub pid : Bytes
  pub rpc : Bytes
  pub base_type : Bytes
  pub image : Bytes

untyped_containers : Error
unfolding err_new
untyped_containers = err_new Kind.type_error (codes "sys.Containers type error")

-- cmap["RPC"]: the port, or none if the container has no service.
unfoldable pub rpc_port_of : Option Scalar → Go (Option Bytes)
rpc_port_of none = pure none
rpc_port_of (some (text port)) = pure (if eqb port (codes "0") then none else some port)
rpc_port_of (some (other s)) = crash

unfoldable pub row_of : Bytes → Bytes → ℤ → Bytes → Bytes → Bytes → Row
unfolding eq_int itoa
row_of id name pid rpc base_type image = record {
  container_id = id;
  container_name = name;
  status = if eq_int pid (negsuc 0) then codes "STOPPED" else codes "RUNNING";
  pid = if eq_int pid (negsuc 0) then codes "NA" else itoa pid;
  rpc = rpc;
  base_type = base_type;
  image = image;
}

-- net.DialTimeout to the port of this machine: does it answer?
module _ (h : Host) (ps : Processes) (answers : Bytes → World → Bool) (c : Codec Sys) where
  -- The line of a container whose service, if it has one, answers.
  unfoldable pub shown_row : Bytes → Dict Scalar → Bytes → Bytes → Bytes → Go (List Row)
  unfolding as_text running_pid pid_file row_of
  shown_row id m name root rpc = do
    base_type ← as_text (lookup (codes "BaseType") m)
    image ← as_text (lookup (codes "Image") m)
    λ w. (ok (row_of id name (running_pid ps (pid_file root) w) rpc base_type image ∷ []), w)

  -- A container with a service is left out if the service does not answer.
  unfoldable pub row_for : Bytes → Dict Scalar → Bytes → Bytes → Option Bytes → Go (List Row)
  unfolding shown_row
  row_for id m name root none w = shown_row id m name root (codes "NA") w
  row_for id m name root (some port) w =
      (if answers port w then shown_row id m name root port else pure []) w

  unfoldable pub listed_row : Bytes → Dict Scalar → Bytes → Go (List Row)
  unfolding as_text path_dir rpc_port_of row_for
  listed_row id m name = do
    root ← as_text (lookup (codes "RootPath") m)
    port ← rpc_port_of (lookup (codes "RPC") m)
    row_for id m name (path_dir root) port

  unfoldable pub is_filtered : Bytes → Bytes → Bool
  is_filtered name list_name =
      not (eqb name []) && not (eqb list_name []) && not (eqb name list_name)

  -- The loop over sys.Containers: the lines up to an error are printed, too, but not returned.
  unfoldable pub list_rows : Bytes → Dict Entry → Go (List Row)
  unfolding as_text is_filtered listed_row untyped_containers
  list_rows list_name [] = pure []
  list_rows list_name ((id, fields m) ∷ containers) = do
    name ← as_text (lookup (codes "ContainerName") m)
    first ← if is_filtered name list_name then pure [] else listed_row id m name
    rest ← list_rows list_name containers
    pure (first ++ rest)
  list_rows list_name ((id, scalar s) ∷ containers) = fail untyped_containers

  -- List: the lines that it prints when it succeeds.
  unfoldable pub list : Bytes → Go (List Row)
  unfolding get_config_dir unmarshal_obj list_rows
  list list_name = do
    currdir ← get_config_dir h
    sys ← unmarshal_obj c (sys_dir currdir)
    list_rows list_name sys.containers

  -- The loop over UNSTALL_FOLDER.
  unfoldable pub remove_folders : Bytes → List Bytes → Go (Unit {0})
  unfolding remove_all
  remove_folders currdir [] = pure tt
  remove_folders currdir (i ∷ folders) = do
    remove_all (below currdir i)
    remove_folders currdir folders

  -- Uninstall
  unfoldable pub uninstall : Go (Unit {0})
  unfolding get_config_dir remove_folders
  uninstall = do
    currdir ← get_config_dir h
    remove_folders currdir
        (codes ".lpmxsys" ∷ codes "sync" ∷ codes "bin" ∷ codes ".lpmxdata" ∷ codes "package" ∷ [])

-- The loop of CommonList
unfoldable pub names_of : Bytes → Dict Entry → Go (List Bytes)
unfolding as_text
names_of imagetype [] = pure []
names_of imagetype ((k, fields m) ∷ images) = do
  type ← as_text (lookup (codes "imagetype") m)
  rest ← names_of imagetype images
  pure (if eqb type imagetype then k ∷ rest else rest)
names_of imagetype ((k, scalar s) ∷ images) = names_of imagetype images

-- `if err.Err != ErrNExist { return err }`
unfoldable pub unless_missing : Bytes → Result Image → Go (List Bytes)
unfolding names_of
unless_missing imagetype (ok doc) = names_of imagetype doc.images
unless_missing imagetype (err e) = elim e.kind [ Kind.n_exist ↦ pure [] | _ ↦ fail e ]
unless_missing imagetype panic = crash

-- CommonList: the names that it prints.
unfoldable pub common_list : Host → Codec Image → Bytes → Go (List Bytes)
unfolding get_config_dir unmarshal_obj unless_missing
common_list h ci imagetype = do
  currdir ← get_config_dir h
  λ w.
      let (r, w') = unmarshal_obj ci (currdir ++ codes "/.lpmxdata") w in
      unless_missing imagetype r w'
