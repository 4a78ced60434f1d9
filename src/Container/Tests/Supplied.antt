-- ===== src/Container/Tests/Supplied.antt =====
-- What the functions on images rely on, and their runs: a container that runs is neither committed
-- nor updated.
use lpmx.Base.{ℕ, ◌≡◌, ◌≢◌, ◌⊎◌, refl, true, false, Option, none, some, [], ◌∷◌, All}
use lpmx.Base.Text.{Bytes, codes}
use lpmx.Base.Paths.{below}
use lpmx.Base.Dict.{Dict}
use lpmx.Base.Numbers.{pos}
use lpmx.Base.Result.{ok}
use lpmx.Base.World.{pure, is_within}
use lpmx.Utils.Moving.{Machine}
use lpmx.Utils.Untar.{eof}
use lpmx.Docker.{Web}
use lpmx.Docker.Layers.{Hub}
use lpmx.Container.Sys.{Entry, fields, Codec}
use lpmx.Container.Install.{ImageInfo, Supplies}
use lpmx.Container.Commit.{docker_commit}
use lpmx.Container.Guarded.{docker_commit_spares}
use lpmx.Container.Stopped.{IsStopped, update_spares}
use lpmx.Container.Update.{update}
use lpmx.Container.Tests.Encoding.{
  Encoding, text_encoding, pair_encoding, list_encoding, codec_of, sys_codec, image_codec,
}
use lpmx.Container.Tests.Containers.{con_codec}
use lpmx.Container.Tests.Commands.{host, exec}
use lpmx.Container.Tests.Held.{world, kept}

unfoldable pub dec_number : Bytes → Option (ℕ × Bytes)
dec_number [] = none
dec_number (n ∷ r) = some (n, r)

pub number_law : (n : ℕ) (r : Bytes) → dec_number (n ∷ r) ≡ some (n, r)
unfolding dec_number
number_law n r = refl

abbrev number_encoding : Encoding ℕ
number_encoding = record { enc = λ n r. n ∷ r; dec = dec_number; dec-enc = number_law }

abbrev sizes_encoding : Encoding (Dict ℕ)
sizes_encoding = list_encoding (pair_encoding text_encoding number_encoding)

abbrev sizes_codec : Codec (Dict ℕ)
sizes_codec = codec_of sizes_encoding (λ d. d) (λ d. d) (λ d. refl)

abbrev info_codec : Codec ImageInfo
info_codec =
    codec_of
      (pair_encoding text_encoding
        (pair_encoding text_encoding (pair_encoding sizes_encoding text_encoding)))
      (λ i. (i.name, (i.image_type, (i.layers_map, i.layers))))
      (λ x. record { name = x.0; image_type = x.1.0; layers_map = x.1.1.0; layers = x.1.1.1 })
      (λ i. refl)

abbrev machine : Machine
machine = record { sha256 = λ c. c; other_size = λ n. 0; random = λ w i. b'r' ∷ i ∷ []; rounds = 3 }

-- A hub with an image of one layer.
abbrev pub hub : Hub
hub = record {
  connect = λ user pass. pure tt;
  repositories = pure [];
  tags = λ name. pure [];
  manifest_digest = λ name tag. pure [];
  delete_manifest = λ name digest. pure tt;
  manifest_v2 = λ name tag. pure (record { digest = codes "sha256:ab"; size = 3 } ∷ []);
  download_blob = λ name digest. pure (record { content = codes "abc"; failure = none });
}

-- A server that has everything.
abbrev web : Web
web = record {
  get = λ url. pure (record { status_code = 200; body = codes "x"; failure = none });
  viper = λ dirs name w. ok (record { names = none; versions = none });
  is_numeric = λ s. false;
}

abbrev pub supplies : Supplies
supplies = record {
  host = host;
  sys_codec = sys_codec;
  con_codec = con_codec;
  image_codec = image_codec;
  info_codec = info_codec;
  sizes_codec = sizes_codec;
  processes = record { own = pos 7; reached = λ n. true };
  machine = machine;
  packer = record { tar = λ hs. []; gzip = λ c. c; visits = λ w p. [] };
  archives = record { tar = λ s. eof; gzip = λ s. ok s };
  web = web;
  hub = hub;
  json = record { save_infos = λ b. ok []; skopeo_digests = λ b. ok [] };
  sif = record { load_container = λ p w. ok []; unload_nil = pure tt };
  exec = exec;
  abs = λ p. ok p;
}

docker_commit_spares_example :
    IsStopped supplies.processes con_codec world (fields kept.entry)
    ⊎ (((docker_commit supplies (codes "id") (codes "new") (codes "tag") world).0 ≢ ok tt)
        × ((q : Bytes)
            → is_within (below kept.dir (codes ".temp")) q ≡ false
            → (docker_commit supplies (codes "id") (codes "new") (codes "tag") world).1.node q
              ≡ world.node q))
docker_commit_spares_example =
    docker_commit_spares supplies world (codes "id") (codes "new") (codes "tag") kept.dir kept.sys
      kept.entry kept.found kept.loaded kept.listed

update_spares_example :
    All
      (λ (kv : Bytes × Entry). IsStopped supplies.processes con_codec world kv.1)
      kept.sys.containers
    ⊎ (((update supplies world).1 ≡ world) × ((update supplies world).0 ≢ ok tt))
update_spares_example = update_spares supplies kept.dir kept.sys world kept.found kept.loaded
