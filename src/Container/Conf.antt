-- ===== src/Container/Conf.antt =====
-- Con.SettingConf of container/container.go: the values that a container's setting.yml gives, as
-- deep as the code looks into them. A map is listed in the order in which `range` goes through it.
use lpmx.Base.{List, [], ◌∷◌}
use lpmx.Base.Text.{Bytes}
use lpmx.Base.Dict.{Dict}
use lpmx.Base.Result.{Result, ok, err, panic}
use lpmx.Base.World.{World, Go, pure, crash, ◌>>=◌}
use lpmx.Container.Sys.{Scalar, text, other}

-- A value in a map: an []interface{}, or another value.
pub data Field : Type 0 where
  one : Scalar → Field
  many : List Scalar → Field

-- An item of an []interface{}: nil, a map[interface{}]interface{}, a map[string]interface{}, or
-- another value.
pub data Item : Type 0 where
  absent : Item
  keyed : List (Scalar × Field) → Item
  named : Dict Field → Item
  plain : Scalar → Item

-- A value of SettingConf.
pub data Setting : Type 0 where
  single : Scalar → Setting
  items : List Item → Setting

-- s.(string)
unfoldable pub text_of : Scalar → Go Bytes
text_of (text s) = pure s
text_of (other s) = crash

-- The paths of the values for which `guess` finds one; the others are passed over.
unfoldable pub consider : Result Bytes → Go (List Bytes) → Go (List Bytes)
consider (ok p) rest = do libs ← rest; pure (p ∷ libs)
consider (err e) rest = rest
consider panic rest = crash

unfoldable pub guess_each : (World → Bytes → Result Bytes) → List Scalar → Go (List Bytes)
unfolding text_of consider
guess_each guess [] = pure []
guess_each guess (v ∷ vs) = do s ← text_of v; λ w. consider (guess w s) (guess_each guess vs) w
