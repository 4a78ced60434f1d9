-- ===== src/Registry/Challenge/Tests.antt =====
-- Headers that a registry sends, and headers that break the parser.
use lpmx.Base.{◌≡◌, ◌≢◌, refl, none, some, [], ◌∷◌, map, arith}
use lpmx.Base.Text.{codes, contains}
use lpmx.Base.Strings.{to_lower}
use lpmx.Base.Result.{ok, panic}
use lpmx.Registry.Challenge.{
  separators, is_token, expect_token_or_quoted, Params, parse_value_and_params,
}
use lpmx.Registry.Challenge.Quoted.{IsBare, leading_escape_panics}
use lpmx.Registry.Challenge.Params.{
  IsToken, insert_all, print_challenge, parse_value_and_params_total, parse-print,
}

ab-IsBare : IsBare (codes "ab")
unfolding codes
ab-IsBare = ground arith

leading_escape_panics_example : expect_token_or_quoted (b'"' ∷ 92 ∷ codes "ab") ≡ panic
leading_escape_panics_example = leading_escape_panics (codes "ab") ab-IsBare

parse_value_and_params_total_example : parse_value_and_params (codes "Bearer realm=x,") ≢ none
parse_value_and_params_total_example = parse_value_and_params_total (codes "Bearer realm=x,")

abbrev params : Params
params = (codes "ab", codes "ab") ∷ []

ab-IsToken : IsToken (codes "ab")
unfolding codes is_token separators contains
ab-IsToken = (cc, (refl, (refl, tt)))

ab-ne-nil : codes "ab" ≢ []
unfolding codes
ab-ne-nil = cc

parse-print_example :
    parse_value_and_params (print_challenge (codes "ab") params)
    ≡ some (ok (map to_lower (codes "ab"), insert_all [] params))
parse-print_example =
    parse-print (codes "ab") params ab-IsToken (cc) ((ab-IsToken, ab-ne-nil, ab-IsBare), tt)
