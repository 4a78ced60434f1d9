-- ===== src/Yaml.antt =====
-- MultiGetMap and LoadConfig of yaml/yaml.go, on the configuration reader that they call.
use lpmx.Base.{List, [], ◌∷◌, ◌++◌, if◌then◌else◌}
use lpmx.Base.Text.{Bytes, codes, eqb}
use lpmx.Base.Strings.{without_suffix}
use lpmx.Base.Paths.{up_to_slash}
use lpmx.Base.Result.{Kind, Result, ok, err, panic, err_new}
use lpmx.Base.World.{World, Go}

-- What a reader with the configuration type yaml gives, by the paths and the name of the
-- configuration: all its settings.
abbrev pub Viper {ℓ} : Type ℓ → Type ℓ
Viper A = List Bytes → Bytes → World → Result A

unfoldable pub or_not_opened {ℓ} : {A : Type ℓ} → Bytes → Result A → Result A
unfolding err_new
or_not_opened file (ok a) = ok a
or_not_opened file (err e) =
    err (err_new Kind.nil_error (codes "can't open file " ++ file ++ codes " in dirs"))
or_not_opened file panic = panic

-- MultiGetMap
unfoldable pub multi_get_map {ℓ} : {A : Type ℓ} → Viper A → Bytes → List Bytes → Go A
unfolding or_not_opened
multi_get_map v file config w = (or_not_opened file (v config file w), w)

-- The second part of filepath.Split.
unfoldable pub behind_slash : Bytes → Bytes
unfolding up_to_slash
behind_slash [] = []
behind_slash (c ∷ s) =
    let rest = behind_slash s in if eqb (up_to_slash (c ∷ s)) [] then c ∷ s else rest

-- LoadConfig
unfoldable pub load_config {ℓ} : {A : Type ℓ} → Viper A → Bytes → Go A
unfolding or_not_opened up_to_slash behind_slash without_suffix
load_config v config w =
    let file = without_suffix (codes ".yml") (behind_slash config) in
    (or_not_opened file (v (up_to_slash config ∷ []) file w), w)
