-- ===== src/Compose/Tests.antt =====
-- A compose file with two apps, run with mapset and stringUtils as lists and texts.
use lpmx.Base.{
  ℕ, ◌≤◌, ◌<◌, ◌≡◌, ◌≢◌, ◌↔◌, refl, Bool, true, false, not, ◌&&◌, ◌||◌, none, List, [], ◌∷◌, ◌++◌,
  if◌then◌else◌, arith, ◌==◌,
}
use lpmx.Base.Text.{Bytes, codes, eqb, eqb_iff, contains, has_prefix}
use lpmx.Base.Strings.{trim_space, trim_left}
use lpmx.Base.Result.{ok}
use lpmx.Base.World.{◌>>=◌, World, Go, pure}
use lpmx.Compose.Vendor.{Vendor, count}
use lpmx.Compose.Validate.{
  AppLevel, TopLevel, Plan, validate, check_version, check_fields, guard, each, collect,
  count_items, count_depends, plan, plan_from, add_all, sort_slice, place, rank, bump, type_docker,
  type_singularity,
}
use lpmx.Compose.Order.{names_of, dependents, validate_order}
use lpmx.Compose.Rank.{Descends, all_depends, validate_priority, order_ignores_chains}
use lpmx.Compose.Checks.{IsApp, IsValid, validate_iff}
use lpmx.Compose.Fields.{AreParts, variables, expose_pairs, run_compose_app_lem}
use lpmx.Compose.Run.{run_compose_app, Engine, auto_download, convert_map_value, compose}
use lpmx.Compose.Steps.{Schedule, run_apps, compose-run_apps}

mem : List Bytes → Bytes → Bool
mem [] k = false
mem (x ∷ xs) k = if eqb x k then true else mem xs k

once : List Bytes → List Bytes
unfolding mem
once [] = []
once (x ∷ xs) = let rest = once xs in if mem xs x then rest else x ∷ rest

without : List Bytes → List Bytes → List Bytes
unfolding mem
without [] t = []
without (x ∷ xs) t = let rest = without xs t in if mem t x then rest else x ∷ rest

finds : Bytes → Bytes → Bool
finds [] p = has_prefix [] p
finds (c ∷ s) p = has_prefix (c ∷ s) p || finds s p

finds_byte : (s : Bytes) (b : ℕ) → finds s (b ∷ []) ≡ contains b s
unfolding finds has_prefix contains
finds_byte [] b = refl
finds_byte (c ∷ s) b = ground (arith, finds_byte s b)

count-once : (s : List Bytes) (k : Bytes) → count k (once s) ≡ (if mem s k then 1 else 0)
unfolding count once mem
count-once [] k = refl
count-once (x ∷ xs) k = ground (arith, count-once xs k, eqb_iff x k)

mem-without : (s t : List Bytes) (k : Bytes) → mem (without s t) k ≡ (mem s k && not (mem t k))
unfolding mem without
mem-without [] t k = refl
mem-without (x ∷ xs) t k = ground (arith, mem-without xs t k, eqb_iff x k)

abbrev vendor : Vendor
vendor = record {
  is_empty = λ s. eqb s [];
  is_empty_lem = λ s. refl;
  contains_text = finds;
  contains_text_lem = finds_byte;
  NameSet = List Bytes;
  new_set = [];
  add = λ s k. k ∷ s;
  has = mem;
  difference = without;
  to_slice = once;
  has-new_set = λ k. unfold mem in refl;
  has-add = λ s j k. unfold mem in refl;
  has-difference = mem-without;
  count-to_slice = count-once;
  shuffle = λ xs. xs;
  count-shuffle = λ xs k. refl;
}

abbrev db : AppLevel
db = record {
  name = codes "db";
  image = codes "i";
  image_type = codes "docker";
  expose = [];
  port = [];
  share = codes "/a:/b" ∷ [];
  inject = [];
  depends_on = [];
  env = codes "k=v" ∷ [];
  command = [];
}

abbrev web : AppLevel
web = record db { name = codes "web"; expose = codes "/x:y" ∷ []; depends_on = codes "db" ∷ [] }

abbrev top : TopLevel
top = record { version = codes "1"; apps = web ∷ db ∷ [] }

abbrev result : Plan
result = record {
  depends = codes "db" ∷ [];
  remains = codes "web" ∷ [];
  apps_map = (codes "web", web) ∷ (codes "db", db) ∷ [];
}

accepted : validate vendor top ≡ ok result
unfolding validate check_version check_fields guard each collect count_items count_depends plan
    plan_from add_all sort_slice place rank bump type_docker type_singularity trim_space trim_left
    mem once without finds has_prefix contains eqb codes
accepted = refl

validate_order_example :
    (count (codes "db") (result.depends ++ result.remains) ≡ count (codes "db") (names_of top.apps))
    × (count (codes "db") (names_of top.apps) ≤ 1)
validate_order_example = validate_order vendor top result accepted (codes "db")

few_dependents : (k : Bytes) → dependents k top.apps < 128
unfolding dependents count
few_dependents k = ground arith

validate_priority_example :
    Descends (λ k. dependents k top.apps) result.depends
    × ((k : Bytes) → count k result.depends ≡ (if dependents k top.apps == 0 then 0 else 1))
validate_priority_example = validate_priority vendor top result accepted few_dependents

-- Three apps of which `c` is wanted by `b`, and `b` by `a`.
abbrev chain : TopLevel
chain = record {
  version = codes "1";
  apps =
      record db { name = codes "a"; depends_on = codes "b" ∷ [] }
      ∷ record db { name = codes "b"; depends_on = codes "c" ∷ [] }
      ∷ record db { name = codes "c" }
      ∷ [];
}

abbrev chain_result : Plan
chain_result = record {
  depends = codes "b" ∷ codes "c" ∷ [];
  remains = codes "a" ∷ [];
  apps_map =
      (codes "a", record db { name = codes "a"; depends_on = codes "b" ∷ [] })
      ∷ (codes "b", record db { name = codes "b"; depends_on = codes "c" ∷ [] })
      ∷ (codes "c", record db { name = codes "c" })
      ∷ [];
}

chain_accepted : validate vendor chain ≡ ok chain_result
unfolding validate check_version check_fields guard each collect count_items count_depends plan
    plan_from add_all sort_slice place rank bump type_docker type_singularity trim_space trim_left
    mem once without finds has_prefix contains eqb codes
chain_accepted = refl

b-ne-c : codes "b" ≢ codes "c"
unfolding codes
b-ne-c = ground arith

order_ignores_chains_example : chain_result.depends ≡ codes "b" ∷ codes "c" ∷ []
unfolding all_depends
order_ignores_chains_example =
    order_ignores_chains vendor chain chain_result (codes "b") (codes "c") chain_accepted refl
      b-ne-c refl

validate_iff_example : ((p : Plan) × (validate vendor top ≡ ok p)) ↔ IsValid top
validate_iff_example = validate_iff vendor top

abbrev run : AppLevel → Go (Unit {0})
run e = pure tt

compose-run_apps_example :
    (es : List AppLevel) × Schedule (result.depends ++ result.remains) top.apps es
    × (compose vendor run top ≡ run_apps run es)
compose-run_apps_example = compose-run_apps vendor run top result accepted

abbrev engine : Engine
engine = record {
  docker_download = λ i. pure tt;
  singularity_load = λ i n t. pure tt;
  get_config_dir = pure (codes "/c");
  load_images = λ d. pure ((codes "i", codes "1") ∷ []);
  common_compose_run = λ n c v x f k m. pure (codes "id");
  expose = λ i p n. pure tt;
}

abbrev empty_world : World
empty_world = record {
  node = λ p. none;
  readable = λ p. true;
  writable = λ p. true;
  removable = λ p. true;
  room = λ p. 1000;
}

web-IsApp : IsApp web
web-IsApp = ((validate_iff vendor top).0 (result, accepted)).apps_valid.0

run_compose_app_lem_example :
    (envs : List (Bytes × Bytes)) × (exposes : List (Bytes × Bytes)) × AreParts b'=' web.env envs
    × AreParts b':' web.expose exposes
    × (run_compose_app engine web
        ≡ auto_download engine web >>= λ name.
            engine.common_compose_run name web.name
              (convert_map_value web.share)
              (convert_map_value web.inject)
              []
              web.command
              (variables envs [])
            >>= λ id. expose_pairs engine id exposes)
run_compose_app_lem_example = run_compose_app_lem engine web web-IsApp
