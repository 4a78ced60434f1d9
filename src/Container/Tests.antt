-- ===== src/Container/Tests.antt =====
-- A registry with one container, and its two cache files.
mod Encoding
mod Containers
mod Lifecycle
mod Commands
mod Held
mod Leave
mod Started
mod Supplied
mod Fetched
use lpmx.Container.Tests.Encoding.{
  sys_codec, decoded, codec_of, dec_text, enc_items, dec_items, dec_list, enc_scalar, dec_scalar,
  enc_entry, dec_entry,
}
use lpmx.Base.{◌≡◌, refl, true, some, [], ◌∷◌, ◌++◌, map, if◌then◌else◌, arith, inl}
use lpmx.Base.Text.{codes, eqb, split, cons_head, has_prefix, contains}
use lpmx.Base.Strings.{to_lower, trim_space, trim_left}
use lpmx.Base.Dict.{lookup}
use lpmx.Base.Result.{ok}
use lpmx.Base.World.{World, file, resolve, read_file, opens}
use lpmx.Utils.Files.{file_exist, file_type, regular_file_exist, read_from_file}
use lpmx.FileCache.Access.{IsPlain}
use lpmx.Container.Config.{Host, get_config_dir, get_curr_dir, locate, is_system}
use lpmx.Container.Sys.{text, fields, Sys, Codec, unmarshal_obj, struct_unmarshal}
use lpmx.Container.Maps.{add_map, add_exec, mapmap, execmap, set, get_map, get_exec}
use lpmx.Container.Settings.{IsListed, IsUsable, get_map-set}

abbrev sys : Sys
sys = record {
  root_dir = codes "/c/.lpmxsys";
  containers = (codes "id", fields ((codes "ConfigPath", text (codes "/k")) ∷ [])) ∷ [];
  log_path = [];
}

abbrev codec : Codec Sys
codec = sys_codec

-- Every path is a file.
abbrev world : World
unfolding sys_codec
world = record {
  node = λ p.
      some
        (file (if eqb p (codes "/c/.lpmxsys/.info") then sys_codec.marshal sys else codes "a=b"));
  readable = λ p. true;
  writable = λ p. true;
  removable = λ p. true;
  room = λ p. 1000;
}

abbrev host : Host
host = record {
  filename = codes "lpmx";
  cwd = ok (codes "/c");
  path = codes "/p";
  current_user = ok (record { uid = []; home_dir = [] });
}

listed : IsListed host codec (codes "id") (codes "/k") (codes "/c") world
unfolding get_config_dir get_curr_dir locate is_system has_prefix regular_file_exist file_type
    unmarshal_obj struct_unmarshal read_from_file read_file resolve file_exist lookup eqb codes
    sys_codec decoded codec_of dec_text enc_items dec_items dec_list enc_scalar dec_scalar enc_entry
    dec_entry
listed = record {
  sys = sys;
  found = refl;
  loaded = refl;
  entry = (codes "ConfigPath", text (codes "/k")) ∷ [];
  listed = refl;
  config = refl;
}

IsUsable-map :
    IsUsable host codec (codes "id") (codes "/k") (codes "/c") world (codes "/k" ++ mapmap)
unfolding resolve codes split cons_head eqb world
IsUsable-map = record {
  ready = inl (
    codes "a=b",
    unfold read_file opens in record { reads = refl; can_read = refl; can_write = refl },
  );
  apart = record { path = ground arith; target = ground arith };
  elsewhere = λ cwd e. (ground arith, (ground arith, tt));
}

x-IsPlain : IsPlain (codes "x")
unfolding codes
x-IsPlain = record { no_colon = ground arith; no_equals = ground arith }

spaced_map : map to_lower (trim_space (codes " Add_MAP")) ≡ add_map
unfolding to_lower trim_space trim_left contains add_map codes
spaced_map = refl

get_map-set_example :
    ((set host codec (codes "id") (codes " Add_MAP") (codes "x") (codes "x") world).0 ≡ ok tt)
    × ((get_map host codec
          (codes "id")
          (codes "a")
          (set host codec (codes "id") (codes " Add_MAP") (codes "x") (codes "x") world).1).0
        ≡ (if eqb (codes "x") (codes "a")
            then ok (codes "x")
            else (get_map host codec (codes "id") (codes "a") world).0))
get_map-set_example =
    get_map-set host codec (codes "id") (codes "/k") (codes "/c") (codes " Add_MAP") (codes "x")
      (codes "x") (codes "a") world listed spaced_map IsUsable-map x-IsPlain x-IsPlain
