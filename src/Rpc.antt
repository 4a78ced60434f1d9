-- ===== src/Rpc.antt =====
-- The service of a passive container: type Request and type Response of rpc/rpc.go, and RPCExec,
-- RPCQuery and RPCDelete of container/container.go, on both sides.
use lpmx.Base.{◌≡◌, Bool, true, false, Option, none, some, List, [], ◌∷◌, ◌++◌, if◌then◌else◌}
use lpmx.Base.Text.{Bytes, codes}
use lpmx.Base.Numbers.{ℤ, pos}
use lpmx.Base.Paths.{is_abs, path_join}
use lpmx.Base.Dict.{Dict}
use lpmx.Base.Result.{Kind, Error, Result, ok, err, panic, err_new}
use lpmx.Base.World.{World, Go, pure, fail, crash, ◌>>=◌, ◌>>◌}
use lpmx.Utils.Folders.{explain}
use lpmx.Pid.{eq_int}
use lpmx.Paeudo.{Shells, process_context_env}
pub mod Laws
mod Tests

-- Maps from process ids to commands.
abbrev pub Commands : Type 0
Commands = List (ℤ × Bytes)

pub record Request : Type 0 where
  pub timeout : Bytes
  pub cmd : Bytes
  pub args : List Bytes
  pub pid : ℤ

pub record Response : Type 0 where
  pub u_id : Bytes
  pub pid : ℤ
  pub rpc_map : Commands

-- type RPC struct, with the RPCMap of its container
pub record Server : Type 0 where
  pub env : Dict Bytes
  pub dir : Bytes
  pub rpc_map : Commands

unfoldable pub command_of : ℤ → Commands → Option Bytes
unfolding eq_int
command_of n [] = none
command_of n ((k, cmd) ∷ m) = if eq_int k n then some cmd else command_of n m

unfoldable pub set_command : ℤ → Bytes → Commands → Commands
unfolding eq_int
set_command n cmd [] = (n, cmd) ∷ []
set_command n cmd ((k, old) ∷ m) =
    if eq_int k n then (n, cmd) ∷ m else (k, old) ∷ set_command n cmd m

unfoldable pub delete_command : ℤ → Commands → Commands
unfolding eq_int
delete_command n [] = []
delete_command n ((k, cmd) ∷ m) =
    let rest = delete_command n m in if eq_int k n then rest else (k, cmd) ∷ rest

-- os.FindProcess, and the interrupt that is sent to the process.
pub record Found : Type 0 where
  pub find_process : ℤ → World → Result (Unit {0})
  pub interrupt : ℤ → Go (Unit {0})

-- The command as it is run: below the server's folder unless it is absolute.
unfoldable pub command_path : Bytes → Bytes → Bytes
unfolding is_abs path_join
command_path dir cmd = if is_abs cmd then cmd else path_join (path_join dir (codes "/")) cmd

-- `return err.Err`
unfoldable pub bare {ℓ} : {A : Type ℓ} → Result A → Result A
bare (ok a) = ok a
bare (err e) = err (record e { msg = [] })
bare panic = panic

-- RPCExec of the server: the response, and the server that it leaves.
unfoldable pub rpc_exec : Shells → Go Bytes → Server → Request → Go (Response × Server)
unfolding process_context_env command_path set_command bare
rpc_exec x random_string server req = do
  n ← λ w.
      let (r, w') =
        process_context_env x (command_path server.dir req.cmd) server.env server.dir req.timeout
          req.args w in
      (bare r, w')
  uid ← random_string
  let server' = record server {
    rpc_map = set_command n (command_path server.dir req.cmd) server.rpc_map;
  }
  pure (record { u_id = uid; pid = n; rpc_map = [] }, server')

-- What the loop of RPCQuery keeps of an entry.
unfoldable pub kept_if_found : Result (Unit {0}) → (ℤ × Bytes) → Commands → Commands
kept_if_found (ok u) entry rest = entry ∷ rest
kept_if_found (err e) entry rest = rest
kept_if_found panic entry rest = rest

unfoldable pub found_commands : Found → World → Commands → Commands
unfolding kept_if_found
found_commands f w [] = []
found_commands f w ((n, cmd) ∷ m) =
    kept_if_found (f.find_process n w) (n, cmd) (found_commands f w m)

-- RPCQuery of the server
unfoldable pub rpc_query : Found → Server → Request → Go (Response × Server)
unfolding found_commands
rpc_query f server req w =
    let left = found_commands f w server.rpc_map in
    (ok (record { u_id = []; pid = pos 0; rpc_map = left }, record server { rpc_map = left }), w)

unfoldable pub stop_found : Found → Server → ℤ → Result (Unit {0}) → Go Server
unfolding delete_command
stop_found f server n (ok u) = do
  f.interrupt n
  pure (record server { rpc_map = delete_command n server.rpc_map })
stop_found f server n (err e) = pure (record server { rpc_map = delete_command n server.rpc_map })
stop_found f server n panic = crash

unfoldable pub stop_listed : Found → Server → ℤ → Option Bytes → Go Server
unfolding stop_found
stop_listed f server n none w = (ok server, w)
stop_listed f server n (some cmd) w = stop_found f server n (f.find_process n w) w

-- RPCDelete of the server; its response is left as it is. After an error the server is as before.
unfoldable pub rpc_delete : Found → Server → Request → Go Server
unfolding stop_listed command_of
rpc_delete f server req = stop_listed f server req.pid (command_of req.pid server.rpc_map)

-- rpc.Dial and client.Call, by the address and the name of the method.
pub record Dialer : Type 0 where
  pub dial : Bytes → Go (Unit {0})
  pub call : Bytes → Bytes → Request → Go Response

abbrev pub no_request : Request
no_request = record { timeout = []; cmd = []; args = []; pid = pos 0 }

-- fmt.Sprintf("%s:%s", ip, port)
unfoldable pub address : Bytes → Bytes → Bytes
address ip port = ip ++ b':' ∷ port

unfoldable pub called : Dialer → Bytes → Bytes → Request → Go Response
unfolding explain
called d addr service_method req = do
  explain (codes "tcp dial error") (d.dial addr)
  explain (codes "rpc call encounters error") (d.call addr service_method req)

-- RPCQuery of the client
unfoldable pub query : Dialer → Bytes → Bytes → Go Response
unfolding called address
query d ip port = called d (address ip port) (codes "RPC.RPCQuery") no_request

-- RPCDelete of the client
unfoldable pub delete : Dialer → Bytes → Bytes → ℤ → Go Response
unfolding called address
delete d ip port n =
    called d (address ip port) (codes "RPC.RPCDelete") (record no_request { pid = n })
