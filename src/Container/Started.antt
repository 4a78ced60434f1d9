-- ===== src/Container/Started.antt =====
-- Init of container/container.go where there is a registry already.
use lpmx.Base.Result.{Result}
use lpmx.Base.World.{World}
use lpmx.Container.Sys.{Sys}
