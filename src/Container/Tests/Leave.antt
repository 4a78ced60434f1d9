-- ===== src/Container/Tests/Leave.antt =====
-- A run in the background that finds no port for its service.
use lpmx.Base.{◌≡◌, refl, true, some, [], arith, if◌then◌else◌}
use lpmx.Base.Text.{Bytes, codes, eqb, split, cons_head, has_prefix}
use lpmx.Base.Dict.{lookup}
use lpmx.Base.Result.{Kind, ok, err, err_new}
use lpmx.Base.World.{World, file, dir, resolve, read_file, opens}
use lpmx.Utils.Files.{
  or_file_io, file_exist, file_type, folder_exist, regular_file_exist, read_from_file,
}
use lpmx.Container.Config.{get_config_dir, get_curr_dir, locate, is_system}
use lpmx.Container.Sys.{Codec, fields, Sys, unmarshal_obj, unmarshal_obj-marshal, struct_unmarshal}
use lpmx.Container.Maps.{sys_dir}
use lpmx.Container.Append.{entry_for, renew_entry}
use lpmx.Container.Method.{add_msg, adding, adding_msg}
use lpmx.Container.Registry.{IsRegistry}
use lpmx.Container.Leave.{stopped, IsOwn, run_from_leaves}
use lpmx.Container.Run.{run_body, run_from, load_or_set_up, load_con, inject_execmaps, serve}
use lpmx.Container.Shell.{Outside}
use lpmx.Container.Tests.Encoding.{sys_codec}
use lpmx.Container.Tests.Containers.{con_codec}
use lpmx.Container.Tests.Commands.{con, entry, sys, host}
use lpmx.Container.Tests.Held.{outside}

abbrev portless : Outside
portless = record outside { random_port = λ w. (err (err_new Kind.n_exist []), w) }

abbrev world : World
world = record {
  node = λ p. some (
      if eqb p (codes "/k/.lpmx")
      then dir
      else file (
          if eqb p (codes "/c/.lpmxsys/.info")
          then sys_codec.marshal sys
          else con_codec.marshal con));
  readable = λ p. true;
  writable = λ p. true;
  removable = λ p. true;
  room = λ p. 1000;
}

struct_unmarshal-marshal :
    {A : Type 0} (c : Codec A) (a : A) → struct_unmarshal c (c.marshal a) ≡ ok a
unfolding struct_unmarshal
struct_unmarshal-marshal c a = rw (c.unmarshal-marshal a, struct_unmarshal) refl

fails : run_body portless true [] [] con world ≡ (err (err_new Kind.n_exist []), con, world)
unfolding run_body load_or_set_up load_con inject_execmaps serve folder_exist file_exist file_type
    read_from_file or_file_io adding_msg adding add_msg read_file resolve eqb codes
fails = rw (struct_unmarshal-marshal con_codec con) refl

registered : IsRegistry host sys_codec (codes "/c") sys world
unfolding get_config_dir get_curr_dir locate is_system has_prefix regular_file_exist file_type
    read_file resolve file_exist opens eqb codes split cons_head
registered = record {
  found = refl;
  loaded = unmarshal_obj-marshal sys_codec (sys_dir (codes "/c")) sys world refl refl;
  placed = refl;
  can_write = refl;
  can_read = refl;
  elsewhere = λ cwd e. (ground arith, (ground arith, tt));
}

owned : IsOwn host (codes "/c") con.config_path world
unfolding resolve opens eqb codes split cons_head
owned = record {
  can_write = refl;
  can_read = refl;
  apart = record { path = ground arith; target = ground arith };
  apart_back = record { path = ground arith; target = ground arith };
  elsewhere = λ cwd e. (ground arith, (ground arith, tt));
}

renews : entry_for (stopped con) (lookup con.id sys.containers) ≡ ok (renew_entry con entry)
unfolding entry_for lookup eqb codes renew_entry
renews = refl

run_from_leaves_example :
    ((run_from portless con true [] [] world).0 ≡ err (err_new Kind.n_exist []))
    × ((sys' : Sys) × IsRegistry host sys_codec
          (codes "/c")
          sys'
          (run_from portless con true [] [] world).1
        × ((k : Bytes)
            → lookup k sys'.containers ≡ (
                if eqb con.id k
                then some (fields (renew_entry con entry))
                else lookup k sys.containers)))
    × ((unmarshal_obj con_codec con.config_path (run_from portless con true [] [] world).1).0
        ≡ ok (stopped con))
run_from_leaves_example =
    run_from_leaves portless con true [] [] world (err (err_new Kind.n_exist [])) con world fails
      (codes "/c") sys registered owned (renew_entry con entry) renews
