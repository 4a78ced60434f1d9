-- ===== src/Container/Tests/Started.antt =====
-- Init where there is a registry with a container in it.
use lpmx.Base.{true, false, none, some, []}
use lpmx.Base.Result.{ok}
use lpmx.Base.World.{World, file, pure}
use lpmx.Utils.Untar.{Archives, eof}
use lpmx.Docker.{Web}
use lpmx.Container.Tests.Encoding.{sys_codec}
use lpmx.Container.Tests.Commands.{sys}

abbrev world : World
world = record {
  node = λ p. some (file (sys_codec.marshal sys));
  readable = λ p. true;
  writable = λ p. true;
  removable = λ p. true;
  room = λ p. 1000;
}

abbrev web : Web
web = record {
  get = λ url. pure (record { status_code = 404; body = []; failure = none });
  viper = λ dirs name w. ok (record { names = none; versions = none });
  is_numeric = λ s. false;
}

abbrev archives : Archives
archives = record { tar = λ s. eof; gzip = λ s. ok s }
