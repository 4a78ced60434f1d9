-- ===== src/Compose/Run.antt =====
-- Compose, runComposeApp, autoDownload and convertMapValue of container/container.go: a compose
-- file is validated, and its apps are run one after the other.
use lpmx.Base.{ℕ, none, some, List, [], ◌∷◌, ◌++◌, map, ◌==◌, if◌then◌else◌}
use lpmx.Base.Text.{Bytes, codes, eqb, split, join}
use lpmx.Base.Dict.{Dict, lookup, insert}
use lpmx.Base.Result.{Result, ok, err, panic}
use lpmx.Base.World.{Go, pure, fail, crash, ◌>>=◌, ◌>>◌}
use lpmx.FileCache.Items.{second}
use lpmx.Compose.Vendor.{Vendor}
use lpmx.Compose.Validate.{AppLevel, TopLevel, Apps, Plan, type_docker, type_singularity, validate}

-- strings.ReplaceAll(value, ":", "=")
unfoldable pub replace_colons : Bytes → Bytes
replace_colons [] = []
replace_colons (c ∷ s) = (if c == b':' then b'=' else c) ∷ replace_colons s

-- convertMapValue
unfoldable pub convert_map_value : List Bytes → Bytes
unfolding replace_colons join
convert_map_value [] = []
convert_map_value (x ∷ xs) = join b':' (map replace_colons (x ∷ xs))

-- `xs[0]`
unfoldable pub first : List Bytes → Result Bytes
first [] = panic
first (x ∷ xs) = ok x

unfoldable pub lift {ℓ} : {A : Type ℓ} → Result A → Go A
lift r w = (r, w)

-- strings.Split(s, sep)[0], strings.Split(s, sep)[1]
unfoldable pub two_parts : ℕ → Bytes → Go (Bytes × Bytes)
unfolding first second lift
two_parts sep s = do a ← lift (first (split sep s)); b ← lift (second (split sep s)); pure (a, b)

-- The loop that fills envmap.
unfoldable pub fill_env : List Bytes → Dict Bytes → Go (Dict Bytes)
unfolding two_parts
fill_env [] m = pure m
fill_env (e ∷ es) m = do (k, x) ← two_parts b'=' e; fill_env es (insert k x m)

-- A call whose error the caller looks at.
unfoldable pub attempt {ℓ} : {A : Type ℓ} → Go A → Go (Result A)
attempt m w = let (r, w') = m w in (ok r, w')

-- The functions of container/container.go and docker/docker.go that runComposeApp calls.
pub record Engine : Type 0 where
  pub docker_download : Bytes → Go (Unit {0})
  pub singularity_load : Bytes → Bytes → Bytes → Go (Unit {0})
  pub get_config_dir : Go Bytes
  -- unmarshalObj of the image list below a directory; the images by name
  pub load_images : Bytes → Go (Dict Bytes)
  pub common_compose_run : Bytes → Bytes → Bytes → Bytes → Bytes → Bytes → Dict Bytes → Go Bytes
  pub expose : Bytes → Bytes → Bytes → Go (Unit {0})

module _ (g : Engine) where
  open g use {
    docker_download, singularity_load, get_config_dir, load_images, common_compose_run, expose,
  }

  -- The image is fetched by its type; the name under which it can be run then.
  unfoldable pub fetch : AppLevel → Go Bytes → Go Bytes
  fetch e otherwise =
      if eqb e.image_type type_docker
      then (do docker_download e.image; pure e.image)
      else if eqb e.image_type type_singularity
      then (do singularity_load e.image e.name (codes "latest"); pure (e.name ++ codes ":latest"))
      else otherwise

  unfoldable pub download_if_missing : AppLevel → Result (Dict Bytes) → Go Bytes
  unfolding fetch
  download_if_missing e (ok images) = elim (lookup e.image images) [
    | none ↦ fetch e (pure [])
    | some i ↦ pure []
  ]
  download_if_missing e (err x) = fetch e (fail x)
  download_if_missing e panic = crash

  -- autoDownload: the empty name if the image is there already.
  unfoldable pub auto_download : AppLevel → Go Bytes
  unfolding attempt download_if_missing
  auto_download e = do
    dir ← get_config_dir
    images ← attempt (load_images (dir ++ codes "/.lpmxdata"))
    download_if_missing e images

  unfoldable pub expose_all : Bytes → List Bytes → Go (Unit {0})
  unfolding two_parts
  expose_all id [] = pure tt
  expose_all id (x ∷ xs) = do (path, name) ← two_parts b':' x; expose id path name; expose_all id xs

  -- runComposeApp
  unfoldable pub run_compose_app : AppLevel → Go (Unit {0})
  unfolding fill_env auto_download expose_all convert_map_value
  run_compose_app e = do
    envmap ← fill_env e.env []
    name ← auto_download e
    id ←
        common_compose_run name e.name (convert_map_value e.share) (convert_map_value e.inject) []
          e.command envmap
    expose_all id e.expose

-- A loop of Compose over names: `if targetApp, tok := (*appMap)[name]; tok`.
unfoldable pub run_names : (AppLevel → Go (Unit {0})) → Apps → List Bytes → Go (Unit {0})
run_names run m [] = pure tt
run_names run m (k ∷ ks) = elim (lookup k m) [
  | some e ↦ (do run e; run_names run m ks)
  | none ↦ run_names run m ks
]

unfoldable pub run_plan : (AppLevel → Go (Unit {0})) → Result Plan → Go (Unit {0})
unfolding run_names
run_plan run (ok p) = do run_names run p.apps_map p.depends; run_names run p.apps_map p.remains
run_plan run (err x) = fail x
run_plan run panic = crash

-- Compose, from the file that yaml.Unmarshal has read.
unfoldable pub compose : Vendor → (AppLevel → Go (Unit {0})) → TopLevel → Go (Unit {0})
unfolding run_plan
compose v run top = run_plan run (validate v top)
