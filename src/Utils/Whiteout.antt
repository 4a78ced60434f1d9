-- ===== src/Utils/Whiteout.antt =====
-- The whiteout files of a layer that UntarLayer of utils/utils.go extracts.
use lpmx.Base.Result.{Result}
use lpmx.Base.World.{World}
