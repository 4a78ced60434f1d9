-- ===== src/Container/Common.antt =====
-- CommonFastRun, CommonComposeRun and CommonCreate of container/container.go.
use lpmx.Base.{ℕ, some, List, [], ◌∷◌}
use lpmx.Base.Text.{Bytes, split}
use lpmx.Base.Dict.{Dict}
use lpmx.Base.Result.{Result, ok, err, panic}
use lpmx.Base.World.{Go, pure, crash, ◌>>=◌}
use lpmx.Container.Sys.{Codec}
use lpmx.Container.Images.{Image}
use lpmx.Container.Destroy.{destroy}
use lpmx.Container.Run.{RunMap, run}
use lpmx.Container.Shell.{Outside}
use lpmx.Container.Generate.{Wanted, generate_container}
use lpmx.Container.Generate.Accounts.{Account}

-- `if len(execmaps) > 0 { (*configmap)["execmaps"] = execmaps }`
unfoldable pub with_execmaps : Bytes → RunMap → RunMap
with_execmaps [] m = m
with_execmaps (c ∷ execmaps) m = record m { execmaps = some (c ∷ execmaps) }

-- A call whose error is not looked at, or replaced; a panic goes on.
unfoldable pub settled {ℓ} : {A : Type ℓ} → Result (Unit {0}) → Go A → Go A
settled (ok u) rest = rest
settled (err e) rest = rest
settled panic rest = crash

module _ (o : Outside) (permission : Bytes → Go ℕ) (account : Result Account)
    (ci : Codec Image) where
  -- CommonFastRun behind the making of the container
  unfoldable pub fast_run : RunMap → Dict Bytes → List Bytes → Go (Unit {0})
  unfolding run destroy settled
  fast_run m env args w =
      let (r, w') = run o m env args w in settled r (destroy o.host o.processes o.sys_codec m.id) w'

  -- CommonFastRun
  unfoldable pub common_fast_run : Bytes → Bytes → Wanted → Dict Bytes → List Bytes → Go (Unit {0})
  unfolding generate_container fast_run with_execmaps
  common_fast_run name execmaps want env args = do
    m ← generate_container o permission account ci name want
    fast_run (with_execmaps execmaps m) env args

  -- CommonComposeRun behind the making of the container: the id, whatever Run returns
  unfoldable pub compose_run : RunMap → Dict Bytes → Bytes → Go Bytes
  unfolding run settled split
  compose_run m env command w =
      let (r, w') = run o m env (split 32 command) w in settled r (pure m.id) w'

  -- CommonComposeRun
  unfoldable pub common_compose_run : Bytes → Bytes → Wanted → Bytes → Dict Bytes → Go Bytes
  unfolding generate_container compose_run with_execmaps
  common_compose_run name execmaps want command env = do
    m ← generate_container o permission account ci name want
    compose_run (with_execmaps execmaps m) env command

  -- CommonCreate
  unfoldable pub common_create : Bytes → Bytes → Wanted → Dict Bytes → Go (Unit {0})
  unfolding generate_container run with_execmaps
  common_create name execmaps want env = do
    m ← generate_container o permission account ci name want
    run o (with_execmaps execmaps m) env []
