-- ===== src/Rpc/Laws.antt =====
-- What the service of a passive container keeps of its commands.
use lpmx.Base.{◌≡◌, refl, none, some, [], ◌∷◌, arith, if◌then◌else◌}
use lpmx.Base.Numbers.{ℤ}
use lpmx.Base.Text.{Bytes}
use lpmx.Base.Result.{ok}
use lpmx.Base.World.{World, >>=-ok}
use lpmx.Pid.{eq_int}
use lpmx.Pid.Laws.{eq_int_iff}
use lpmx.Rpc.{
  Commands, Server, Request, Found, found_commands, kept_if_found, rpc_query, rpc_delete,
  stop_listed, stop_found, command_of, delete_command,
}

found_commands_all :
    (f : Found) (w : World) (m : Commands)
    → ((n : ℤ) → f.find_process n w ≡ ok tt)
    → found_commands f w m ≡ m
unfolding found_commands kept_if_found
found_commands_all f w [] h = refl
found_commands_all f w ((n, cmd) ∷ m) h = rw (h n, found_commands_all f w m h) refl

-- Where os.FindProcess finds every process, as it does on Unix, RPCQuery of the server answers with
-- all the commands that it has, and keeps them all, whether their processes run or not.
rpc_query_keeps :
    (f : Found) (server : Server) (req : Request) (w : World)
    → ((n : ℤ) → f.find_process n w ≡ ok tt)
    → rpc_query f server req w
      ≡ (ok (record { u_id = []; pid = ℤ.pos 0; rpc_map = server.rpc_map }, server), w)
unfolding rpc_query
rpc_query_keeps f server req w h = rw (found_commands_all f w server.rpc_map h) refl

command_of-delete_command :
    (n k : ℤ) (m : Commands)
    → command_of k (delete_command n m) ≡ (if eq_int n k then none else command_of k m)
unfolding command_of delete_command
command_of-delete_command n k [] = ground arith
command_of-delete_command n k ((j, cmd) ∷ m) =
    ground (arith, eq_int_iff n k, eq_int_iff j n, eq_int_iff j k, command_of-delete_command n k m)

-- RPCDelete of the server, for a command that it has and whose process takes the interrupt: it
-- succeeds, the interrupt is all that happens to the machine, and the server then has every command
-- that it had but this one.
pub rpc_delete_lem :
    (f : Found) (server : Server) (req : Request) (cmd : Bytes) (w w' : World)
    → command_of req.pid server.rpc_map ≡ some cmd
    → f.find_process req.pid w ≡ ok tt
    → f.interrupt req.pid w ≡ (ok tt, w')
    → (server' : Server) × (rpc_delete f server req w ≡ (ok server', w'))
      × ((k : ℤ)
          → command_of k server'.rpc_map
            ≡ (if eq_int req.pid k then none else command_of k server.rpc_map))
unfolding rpc_delete stop_listed stop_found
rpc_delete_lem f server req cmd w w' c p i = (
  record server { rpc_map = delete_command req.pid server.rpc_map },
  rw (c, p) (>>=-ok (f.interrupt req.pid) _ w tt w' i),
  λ k. command_of-delete_command req.pid k server.rpc_map,
)
