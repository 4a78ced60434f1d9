-- ===== src/Utils/Guess.antt =====
-- GuessPath, GuessPathContainer, GuessPathsContainer and AddConPath of utils/utils.go: where a path
-- of the settings is, below a container's layers.
use lpmx.Base.{
  ℕ, ◌≡◌, refl, Bool, true, not, ◌||◌, ◌&&◌, List, [], ◌∷◌, ◌++◌, arith, ◌==◌, if◌then◌else◌,
  Bool-cases, inl, inr,
}
use lpmx.Base.Text.{Bytes, codes, eqb, has_prefix}
use lpmx.Base.Strings.{trim_space}
use lpmx.Base.Paths.{below, is_abs, path_join}
use lpmx.Base.Result.{Kind, Error, Result, ok, err, panic, err_new}
use lpmx.Base.World.{World}
use lpmx.Utils.Files.{file_exist, folder_exist}

-- strings.Replace(s, string(c), "", -1)
unfoldable pub without : ℕ → Bytes → Bytes
without c [] = []
without c (d ∷ s) = let rest = without c s in if d == c then rest else d ∷ rest

-- (file && FileExist(p)) || (!file && FolderExist(p))
unfoldable pub is_there : World → Bool → Bytes → Bool
is_there w file p = (file && file_exist w p) || (not file && folder_exist w p)

nowhere : Bytes → Error
unfolding err_new
nowhere s = err_new Kind.nil_error (s ++ codes " doesn't exist both in abs path and relative path")

-- What the marks at the start of the text say: a literal text, or a text with whether it is a file.
pub data Marked : Type 0 where
  literal : Bytes → Marked
  sought : Bytes → Bool → Marked

-- `strings.TrimSpace(in) == "all"`
unfoldable pub unless_all : Bytes → Bool → Marked
unless_all s file = if eqb (trim_space s) (codes "all") then literal s else sought s file

unfoldable pub marked : Bytes → Bool → Marked
unfolding without unless_all
marked s file =
    if has_prefix s (b'$' ∷ [])
    then literal (without b'$' s)
    else if has_prefix s (b'^' ∷ [])
    then unless_all (without b'^' s) true
    else unless_all s file

-- The loop of GuessPathContainer over the layers.
unfoldable pub first_layer : World → Bytes → Bytes → Bool → List Bytes → Result Bytes
unfolding is_there nowhere
first_layer w base s file [] = err (nowhere s)
first_layer w base s file (layer ∷ layers) =
    let tpath = below base (below layer s) in
    if is_there w file tpath then ok tpath else first_layer w base s file layers

unfoldable pub guess_in : World → Bytes → List Bytes → Marked → Result Bytes
unfolding first_layer
guess_in w base layers (literal s) = ok s
guess_in w base layers (sought s file) =
    if is_abs s
    then (if is_there w file s then ok s else err (nowhere s))
    else first_layer w base s file layers

-- GuessPathContainer
unfoldable pub guess_path_container : World → Bytes → List Bytes → Bytes → Bool → Result Bytes
unfolding marked guess_in
guess_path_container w base layers s file = guess_in w base layers (marked s file)

-- The loop of GuessPathsContainer
unfoldable pub all_layers : World → Bytes → Bytes → Bool → List Bytes → List Bytes
unfolding is_there
all_layers w base s file [] = []
all_layers w base s file (layer ∷ layers) =
    let tpath = below base (below layer s) in
    let rest = all_layers w base s file layers in
    if is_there w file tpath then tpath ∷ rest else rest

unfoldable pub some_found : Bytes → List Bytes → Result (List Bytes)
unfolding nowhere
some_found s [] = err (nowhere s)
some_found s (p ∷ ps) = ok (p ∷ ps)

unfoldable pub guess_all_in : World → Bytes → List Bytes → Marked → Result (List Bytes)
unfolding all_layers some_found
guess_all_in w base layers (literal s) = ok (s ∷ [])
guess_all_in w base layers (sought s file) = some_found s (
    if is_abs s
    then (if is_there w file s then s ∷ [] else [])
    else all_layers w base s file layers)

-- GuessPathsContainer
unfoldable pub guess_paths_container :
    World → Bytes → List Bytes → Bytes → Bool → Result (List Bytes)
unfolding marked guess_all_in
guess_paths_container w base layers s file = guess_all_in w base layers (marked s file)

unfoldable pub guess_at : World → Bytes → Marked → Result Bytes
unfolding is_there nowhere
guess_at w base (literal s) = ok s
guess_at w base (sought s file) =
    let str = if is_abs s then s else path_join base s in
    if is_there w file str then ok str else err (nowhere str)

-- GuessPath
unfoldable pub guess_path : World → Bytes → Bytes → Bool → Result Bytes
unfolding marked guess_at
guess_path w base s file = guess_at w base (marked s file)

-- AddConPath
unfoldable pub add_con_path : Bytes → Bytes → Bytes
unfolding without
add_con_path base s = if has_prefix s (b'$' ∷ []) then without b'$' s else path_join base s

-- The head of a list that a call returned.
abbrev pub head_of : Result (List Bytes) → Result Bytes
head_of (ok []) = panic
head_of (ok (p ∷ ps)) = ok p
head_of (err e) = err e
head_of panic = panic

first_layer-all_layers :
    (w : World) (base s : Bytes) (file : Bool) (layers : List Bytes)
    → first_layer w base s file layers ≡ head_of (some_found s (all_layers w base s file layers))
unfolding first_layer all_layers some_found
first_layer-all_layers w base s file [] = refl
first_layer-all_layers w base s file (layer ∷ layers) =
    elim (Bool-cases (is_there w file (below base (below layer s)))) [
      | inl e ↦ rw e refl
      | inr e ↦ rw e (first_layer-all_layers w base s file layers)
    ]

guess_in-guess_all_in :
    (w : World) (base : Bytes) (layers : List Bytes) (m : Marked)
    → guess_in w base layers m ≡ head_of (guess_all_in w base layers m)
unfolding guess_in guess_all_in
guess_in-guess_all_in w base layers (literal s) = refl
guess_in-guess_all_in w base layers (sought s file) = elim (Bool-cases (is_abs s)) [
  | inl e ↦ rw e (unfold some_found in ground arith)
  | inr e ↦ rw e (first_layer-all_layers w base s file layers)
]

-- GuessPathContainer returns the first path that GuessPathsContainer returns, and its error if
-- there is none, for every machine, base, layers and text.
pub guess_path_container-guess_paths_container :
    (w : World) (base : Bytes) (layers : List Bytes) (s : Bytes) (file : Bool)
    → guess_path_container w base layers s file
      ≡ head_of (guess_paths_container w base layers s file)
unfolding guess_path_container guess_paths_container
guess_path_container-guess_paths_container w base layers s file =
    guess_in-guess_all_in w base layers (marked s file)
