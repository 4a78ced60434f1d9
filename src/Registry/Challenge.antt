-- ===== src/Registry/Challenge.antt =====
-- registry/authchallenge.go: the parser of the WWW-Authenticate header, which finds out how a
-- registry wants to be asked for a token. The proofs are in the children.
pub mod Tokens
pub mod Quoted
pub mod Params
mod Tests
use lpmx.Base.Strings.{to_lower}
use lpmx.Base.{
  ℕ, zero, suc, ◌-◌, ◌+◌, ◌≡◌, Bool, true, false, not, ◌&&◌, ◌||◌, Option, none, some, List, [],
  ◌∷◌, ◌++◌, map, ltb, leb, ◌==◌, if◌then◌else◌, length, drop,
}
use lpmx.Base.Text.{Bytes, eqb, contains}
use lpmx.Base.Dict.{Dict, insert}
use lpmx.Base.Result.{Result, ok, err, panic, ◌>>=◌}

-- The separators of RFC 2616 as the source lists them.
unfoldable pub separators : Bytes
separators =
    32 ∷ 9 ∷ b'"' ∷ b'(' ∷ b')' ∷ b',' ∷ b'/' ∷ b':' ∷ b';' ∷ b'<' ∷ b'=' ∷ b'>' ∷ b'?' ∷ b'@'
    ∷ b'[' ∷ b']' ∷ 92 ∷ b'{' ∷ b'}' ∷ []

-- octetTypes[c] & isSpace
unfoldable pub is_space : ℕ → Bool
is_space c = contains c (32 ∷ 9 ∷ 13 ∷ 10 ∷ [])

-- octetTypes[c] & isToken
unfoldable pub is_token : ℕ → Bool
unfolding separators
is_token c = leb c 127 && not (leb c 31 || c == 127) && not (contains c separators)

-- skipSpace
unfoldable pub skip_space : Bytes → Bytes
unfolding is_space
skip_space [] = []
skip_space (c ∷ s) = if is_space c then skip_space s else c ∷ s

-- expectToken: s[:i] and s[i:] for the first byte that no token has.
unfoldable pub expect_token : Bytes → Bytes × Bytes
expect_token [] = ([], [])
expect_token (c ∷ s) =
    let (token, rest) = expect_token s in if is_token c then (c ∷ token, rest) else ([], c ∷ s)

-- p[j] = b; j++ on a slice of `size` bytes, of which `p` is the part written.
unfoldable pub write : ℕ → Bytes → ℕ → Result Bytes
write size p b = if ltb (length p) size then ok (p ++ b ∷ []) else panic

-- The inner loop of expectTokenOrQuoted, on s[i:].
unfoldable pub unescape : ℕ → Bool → Bytes → Bytes → Result (Bytes × Bytes)
unfolding write
unescape size escape p [] = ok ([], [])
unescape size true p (b ∷ s) = write size p b >>= λ p'. unescape size false p' s
unescape size false p (b ∷ s) = elim (b == 92) [
  | true ↦ unescape size true p s
  | false ↦ elim (b == b'"') [
    | true ↦ ok (p, s)
    | false ↦ write size p b >>= λ p'. unescape size false p' s
  ]
]

-- The outer loop: `before` is s[:i]. At a backslash the inner loop begins at i + i.
unfoldable pub quoted : Bytes → Bytes → Bytes → Result (Bytes × Bytes)
unfolding unescape
quoted s before [] = ok ([], [])
quoted s before (c ∷ rest) = elim (c == b'"') [
  | true ↦ ok (before, rest)
  | false ↦ elim (c == 92) [
    | true ↦ unescape (length s - 1) true before (drop (length before + length before) s)
    | false ↦ quoted s (before ++ c ∷ []) rest
  ]
]

-- expectTokenOrQuoted
unfoldable pub expect_token_or_quoted : Bytes → Result (Bytes × Bytes)
unfolding quoted
expect_token_or_quoted [] = ok (expect_token [])
expect_token_or_quoted (c ∷ s) = if c == b'"' then quoted s [] s else ok (expect_token (c ∷ s))

abbrev pub Params : Type 0
Params = Dict Bytes

-- One round of the loop: the parameters, and the text at which the next round begins, if the
-- function has not returned.
pub record Round : Type 0 where
  pub found : Params
  pub rest : Option Bytes

unfoldable pub value_round : Params → Bytes → Bytes × Bytes → Round
unfolding insert
value_round params pkey ([], s) = record { found = params; rest = none }
value_round params pkey (c ∷ v, s) = record {
  found = insert (map to_lower pkey) (c ∷ v) params;
  rest = some (skip_space s);
}

unfoldable pub key_round : Params → Bytes × Bytes → Result Round
unfolding value_round
key_round params ([], s) = ok (record { found = params; rest = none })
key_round params (k ∷ pkey, []) = ok (record { found = params; rest = none })
key_round params (k ∷ pkey, c ∷ s) =
    if c == b'='
    then expect_token_or_quoted s >>= (λ v. ok (value_round params (k ∷ pkey) v))
    else ok (record { found = params; rest = none })

-- What follows a round: `again` makes the next one.
unfoldable pub continue :
    (Params → Bytes → Option (Result Params)) → Result Round → Option (Result Params)
continue again (err e) = some (err e)
continue again panic = some panic
continue again (ok r) = elim r.rest [ none ↦ some (ok r.found) | some s ↦ again r.found s ]

-- `for strings.HasPrefix(s, ",")`; the outer `none` means that the fuel ran out.
unfoldable pub params_loop : ℕ → Params → Bytes → Option (Result Params)
unfolding continue key_round
params_loop zero params s = none
params_loop (suc fuel) params [] = some (ok params)
params_loop (suc fuel) params (c ∷ s) = elim (c == b',') [
  | true ↦ continue (params_loop fuel) (key_round params (expect_token (skip_space s)))
  | false ↦ some (ok params)
]

-- parseValueAndParams
unfoldable pub with_params : Bytes → Option (Result Params) → Option (Result (Bytes × Params))
with_params value none = none
with_params value (some r) = some (r >>= λ params. ok (value, params))

unfoldable pub after_value : Bytes × Bytes → Option (Result (Bytes × Params))
unfolding params_loop with_params
after_value ([], s) = some (ok ([], []))
after_value (c ∷ value, s) =
    let text = b',' ∷ skip_space s in
    with_params (map to_lower (c ∷ value)) (params_loop (suc (length text)) [] text)

unfoldable pub parse_value_and_params : Bytes → Option (Result (Bytes × Params))
unfolding after_value
parse_value_and_params header = after_value (expect_token header)

pub record AuthorizationChallenge : Type 0 where
  pub scheme : Bytes
  pub parameters : Params

-- One header value: a challenge if it has a scheme.
unfoldable pub add_challenge :
    Bytes × Params → List AuthorizationChallenge → List AuthorizationChallenge
add_challenge ([], p) cs = cs
add_challenge (c ∷ v, p) cs = record { scheme = c ∷ v; parameters = p } ∷ cs

-- A panic ends the loop at the header where it happens.
unfoldable pub join_header :
    Option (Result (Bytes × Params))
    → Option (Result (List AuthorizationChallenge))
    → Option (Result (List AuthorizationChallenge))
unfolding add_challenge
join_header none rest = none
join_header (some panic) rest = some panic
join_header (some (err e)) rest = some (err e)
join_header (some (ok vp)) none = none
join_header (some (ok vp)) (some rest) = some (rest >>= λ cs. ok (add_challenge vp cs))

-- parseAuthHeader on the values of the header WWW-Authenticate.
unfoldable pub parse_auth_header : List Bytes → Option (Result (List AuthorizationChallenge))
unfolding parse_value_and_params join_header
parse_auth_header [] = some (ok [])
parse_auth_header (h ∷ hs) = join_header (parse_value_and_params h) (parse_auth_header hs)
