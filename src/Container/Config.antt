-- ===== src/Container/Config.antt =====
-- Where lpmx keeps its state: GetCurrDir of utils/utils.go and GetConfigDir of
-- container/container.go.
use lpmx.Base.{◌≡◌, ◌≢◌, refl, ap, Bool, ◌||◌, List, [], ◌∷◌, arith, All, if◌then◌else◌}
use lpmx.Base.Text.{Bytes, codes, eqb, eqb_iff, has_prefix, split}
use lpmx.Base.Paths.{below}
use lpmx.Base.Result.{Kind, Error, Result, ok, err, panic, err_new, ◌>>=◌}
use lpmx.Base.World.{World, Go, write_file, put, resolve}
use lpmx.Utils.Files.{regular_file_exist}

pub record User : Type 0 where
  pub uid : Bytes
  pub home_dir : Bytes

-- What the operating system tells the process: the base name of os.Args[0], the directory of
-- os.Executable, $PATH, and user.Current.
pub record Host : Type 0 where
  pub filename : Bytes
  pub cwd : Result Bytes
  pub path : Bytes
  pub current_user : Result User

not_located : Error
unfolding err_new
not_located =
    err_new Kind.n_exist
      (codes "can't locate lpmx among PATH, caller directory and current directroy")

-- The loop over searchPaths.
unfoldable pub locate : Bytes → List Bytes → World → Result Bytes
unfolding not_located
locate filename [] w = err not_located
locate filename (dir ∷ dirs) w =
    if regular_file_exist w (below dir filename) then ok dir else locate filename dirs w

-- GetCurrDir
unfoldable pub get_curr_dir : Host → World → Result Bytes
unfolding locate
get_curr_dir h w = h.cwd >>= λ cwd. locate h.filename (cwd ∷ split b':' h.path) w

unfoldable pub is_system : Bytes → Bool
is_system dir =
    has_prefix dir (codes "/usr/bin")
    || has_prefix dir (codes "/usr/local/bin")
    || has_prefix dir (codes "/bin")
    || has_prefix dir (codes "/sbin")

home_of : User → Result Bytes
unfolding err_new
home_of u =
    if eqb u.uid (codes "0")
    then err (err_new Kind.permission_root (codes "should not use root to start LPMX"))
    else ok u.home_dir

unfoldable pub config_of : Host → Bytes → Result Bytes
unfolding home_of is_system
config_of h dir = if is_system dir then h.current_user >>= home_of else ok dir

-- GetConfigDir
unfoldable pub get_config_dir : Host → Go Bytes
unfolding get_curr_dir config_of
get_config_dir h w = (get_curr_dir h w >>= config_of h, w)

-- The program is not looked for at `q`.
abbrev pub IsElsewhere : Host → Bytes → Type 0
IsElsewhere h q =
    (cwd : Bytes) → h.cwd ≡ ok cwd → All (λ dir. below dir h.filename ≢ q) (cwd ∷ split b':' h.path)

locate-write_file :
    (filename : Bytes) (dirs : List Bytes) (w : World) (p c : Bytes)
    → All (λ dir. below dir filename ≢ resolve w p) dirs
    → locate filename dirs (write_file w p c) ≡ locate filename dirs w
unfolding locate write_file put regular_file_exist
locate-write_file filename [] w p c h = refl
locate-write_file filename (dir ∷ dirs) w p c (n, h) =
    ground
      (arith, eqb_iff (resolve w p) (below dir filename), locate-write_file filename dirs w p c h)

-- A write elsewhere does not move the configuration.
pub get_config_dir-write_file :
    (h : Host) (w : World) (p c : Bytes)
    → IsElsewhere h (resolve w p)
    → (get_config_dir h (write_file w p c)).0 ≡ (get_config_dir h w).0
unfolding get_config_dir get_curr_dir
get_config_dir-write_file h w p c e = by_case h.cwd refl
  where
    by_case :
        (r : Result Bytes)
        → h.cwd ≡ r
        → (r
            >>= (λ cwd. locate h.filename (cwd ∷ split b':' h.path) (write_file w p c))
            >>= config_of h)
          ≡ (r >>= (λ cwd. locate h.filename (cwd ∷ split b':' h.path) w) >>= config_of h)
    by_case (ok cwd) f =
        ap (λ (r : Result Bytes). r >>= config_of h)
          (locate-write_file h.filename (cwd ∷ split b':' h.path) w p c (e cwd f))
    by_case (err x) f = refl
    by_case panic f = refl
