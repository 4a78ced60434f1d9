-- ===== src/Compose/Validate.antt =====
-- compose/type.go: the compose file and its validation.
use lpmx.Base.{ℕ, ◌+◌, ◌%◌, Bool, not, ◌||◌, List, [], ◌∷◌, ◌++◌, map, ltb, if◌then◌else◌}
use lpmx.Base.Strings.{trim_space}
use lpmx.Base.Text.{Bytes, codes, eqb}
use lpmx.Base.Result.{Kind, Result, ok, err, err_new, ◌>>=◌, ◌>>◌}
use lpmx.Compose.Vendor.{Vendor}

-- type AppLevel struct
pub record AppLevel : Type 0 where
  pub name : Bytes
  pub image : Bytes
  pub image_type : Bytes
  pub expose : List Bytes
  pub port : List Bytes
  pub share : List Bytes
  pub inject : List Bytes
  pub depends_on : List Bytes
  pub env : List Bytes
  pub command : Bytes

-- type TopLevel struct
pub record TopLevel : Type 0 where
  pub version : Bytes
  pub apps : List AppLevel

unfoldable pub type_docker : Bytes
type_docker = codes "docker"

unfoldable pub type_singularity : Bytes
type_singularity = codes "singularity"

-- `if !b { return e }`
unfoldable pub guard : Bool → Kind → Bytes → Result (Unit {0})
unfolding err_new
guard b k m = if b then ok tt else err (err_new k m)

-- The map that counts the dependents of each name: int8 values as bit patterns, in the order of insertion.
abbrev pub Counts : Type 0
Counts = List (Bytes × ℕ)

-- dependMap[k] = v + 1, or 1
unfoldable pub bump : Bytes → Counts → Counts
bump k [] = (k, 1) ∷ []
bump k ((j, n) ∷ m) = if eqb j k then (j, (n + 1) % 256) ∷ m else (j, n) ∷ bump k m

-- dependMap[k] as the integer that its bits stand for, plus 128
unfoldable pub rank : Counts → Bytes → ℕ
rank [] k = 128
rank ((j, n) ∷ m) k = if eqb j k then (n + 128) % 256 else rank m k

-- sort.Slice with `dependMap[keys[i]] > dependMap[keys[j]]`
unfoldable pub place : Counts → Bytes → List Bytes → List Bytes
unfolding rank
place m k [] = k ∷ []
place m k (x ∷ xs) = if ltb (rank m k) (rank m x) then x ∷ place m k xs else k ∷ x ∷ xs

unfoldable pub sort_slice : Counts → List Bytes → List Bytes
unfolding place
sort_slice m [] = []
sort_slice m (x ∷ xs) = place m x (sort_slice m xs)

-- appsMap[element.Name] = topLevel.Apps[idx]
abbrev pub Apps : Type 0
Apps = List (Bytes × AppLevel)

-- What Validate returns: depended-on names in order, the other names, and the apps by name.
pub record Plan : Type 0 where
  pub depends : List Bytes
  pub remains : List Bytes
  pub apps_map : Apps

module _ (v : Vendor) where
  open v use {is_empty, contains_text, NameSet, new_set, add, has, difference, to_slice, shuffle}

  -- A loop over one list of the app that wants a separator in each item.
  unfoldable pub each : List Bytes → ℕ → Bytes → Result (Unit {0})
  unfolding guard
  each [] sep m = ok tt
  each (x ∷ xs) sep m = guard (contains_text x (sep ∷ [])) Kind.n_exist m >> each xs sep m

  -- The checks of one app, in the order of the source.
  unfoldable pub check_fields : AppLevel → Result (Unit {0})
  unfolding each guard type_docker type_singularity
  check_fields e = do
    guard (not (is_empty e.name)) Kind.n_exist (codes "name is a mandatory field")
    guard (not (is_empty e.image)) Kind.n_exist (codes "image is a mandatory field")
    guard (not (is_empty e.image_type)) Kind.n_exist (codes "image type is a mandatory field")
    guard (eqb e.image_type type_docker || eqb e.image_type type_singularity) Kind.mismatch
        (codes "image type should be 'docker' or 'singularity'")
    each e.expose b':' (codes "expose should contain ':'")
    each e.port b':' (codes "port should contain ':'")
    each e.share b':' (codes "share should contain ':'")
    each e.inject b':' (codes "inject should contain ':'")
    each e.env b'=' (codes "env should contain '=")

  -- The first loop: nameSet, with the apps by name.
  unfoldable pub collect : NameSet → Apps → List AppLevel → Result (NameSet × Apps)
  unfolding check_fields
  collect names m [] = ok (names, m)
  collect names m (e ∷ es) = do
    check_fields e
    guard (not (has names e.name)) Kind.exist
        (e.name ++ codes " is already defined in yaml, should not have duplicated name")
    collect (add names e.name) (m ++ (e.name, e) ∷ []) es

  -- The second loop: dependMap.
  unfoldable pub count_items : NameSet → Counts → List Bytes → Result Counts
  unfolding guard bump
  count_items names m [] = ok m
  count_items names m (d ∷ ds) =
      guard (has names d) Kind.mismatch (d ++ codes " is not defined in yaml file")
      >> count_items names (bump d m) ds

  unfoldable pub count_depends : NameSet → Counts → List AppLevel → Result Counts
  unfolding count_items
  count_depends names m [] = ok m
  count_depends names m (e ∷ es) =
      count_items names m e.depends_on >>= λ m'. count_depends names m' es

  unfoldable pub add_all : NameSet → List Bytes → NameSet
  add_all s [] = s
  add_all s (k ∷ ks) = add_all (add s k) ks

  -- The end of the function: the sorted keys, and the names that are no keys.
  unfoldable pub plan : NameSet → Apps → Counts → Plan
  unfolding add_all sort_slice
  plan names m [] = record { depends = []; remains = to_slice names; apps_map = m }
  plan names m (c ∷ cs) =
      let keys = shuffle (map (λ kn. kn.0) (c ∷ cs)) in
      record {
        depends = sort_slice (c ∷ cs) keys;
        remains = to_slice (difference names (add_all new_set keys));
        apps_map = m;
      }

  unfoldable pub check_version : TopLevel → Result (Unit {0})
  unfolding guard trim_space
  check_version top =
      guard (not (is_empty top.version || not (eqb (trim_space top.version) (b'1' ∷ []))))
        Kind.n_exist (codes "version in yaml file does not exist or is not correct")

  -- Validate behind its first loop.
  unfoldable pub plan_from : TopLevel → NameSet × Apps → Result Plan
  unfolding count_depends plan
  plan_from top (names, m) = count_depends names [] top.apps >>= λ counts. ok (plan names m counts)

  -- Validate
  unfoldable pub validate : TopLevel → Result Plan
  unfolding check_version collect plan_from
  validate top = do check_version top; found ← collect new_set [] top.apps; plan_from top found
