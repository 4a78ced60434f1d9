-- ===== src/Rpc/Tests.antt =====
-- A service with two commands.
use lpmx.Base.{◌≡◌, refl, Bool, none, some, [], ◌∷◌, if◌then◌else◌}
use lpmx.Base.Text.{codes}
use lpmx.Base.Numbers.{ℤ, pos}
use lpmx.Base.Result.{ok}
use lpmx.Base.World.{World, pure}
use lpmx.Pid.{eq_int}
use lpmx.Rpc.{Server, Request, Found, rpc_delete, command_of}
use lpmx.Rpc.Laws.{rpc_delete_lem}

abbrev server : Server
server = record {
  env = [];
  dir = codes "/rw";
  rpc_map = (pos 5, codes "/rw/a") ∷ (pos 6, codes "/bin/b") ∷ [];
}

abbrev request : Request
request = record { timeout = []; cmd = []; args = []; pid = pos 6 }

abbrev found : Found
found = record { find_process = λ n w. ok tt; interrupt = λ n. pure tt }

abbrev world : World
world = record {
  node = λ p. none;
  readable = λ p. Bool.true;
  writable = λ p. Bool.true;
  removable = λ p. Bool.true;
  room = λ p. 1000;
}

has_second : command_of (pos 6) server.rpc_map ≡ some (codes "/bin/b")
unfolding command_of eq_int
has_second = refl

rpc_delete_lem_example :
    (server' : Server) × (rpc_delete found server request world ≡ (ok server', world))
    × ((k : ℤ)
        → command_of k server'.rpc_map
          ≡ (if eq_int request.pid k then none else command_of k server.rpc_map))
rpc_delete_lem_example =
    rpc_delete_lem found server request (codes "/bin/b") world world has_second refl refl
