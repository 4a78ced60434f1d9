-- ===== src/Registry/Challenge/Params.antt =====
-- parseValueAndParams of registry/authchallenge.go: its loop ends, and a printed challenge is read
-- back.
use lpmx.Base.{
  ℕ, zero, suc, ◌-◌, ◌+◌, ◌≤◌, ◌<◌, ◌≡◌, refl, ap, ◌∙◌, ◌≢◌, Bool, true, false, [], ◌∷◌, ◌++◌, map,
  arith, length, drop, length-append, All, ◌==◌, Bool-cases, Option-cases, Option, none, some, inl,
  inr,
}
use lpmx.Base.Text.{Bytes, contains}
use lpmx.Base.Dict.{insert}
use lpmx.Base.Result.{Result, ok, err, panic, ◌>>=◌}
use lpmx.Registry.Challenge.{
  write, unescape, quoted, expect_token, expect_token_or_quoted, is_token, is_space, skip_space,
  to_lower, Params, separators, Round, key_round, value_round, continue, params_loop, with_params,
  after_value, parse_value_and_params,
}
use lpmx.Registry.Challenge.Tokens.{
  Stops, length-expect_token, length-skip_space, expect_token-append, skip_space-Stops,
}
use lpmx.Registry.Challenge.Quoted.{IsBare, length-drop, expect_token_or_quoted_bare}

unescape_rest :
    (size : ℕ) (escape : Bool) (p s v r : Bytes)
    → unescape size escape p s ≡ ok (v, r)
    → length r ≤ length s
unfolding unescape write
unescape_rest size escape p [] v r h = ground arith
unescape_rest size true p (b ∷ s) v r h =
    ground (arith, unescape_rest size false (p ++ b ∷ []) s v r)
unescape_rest size false p (b ∷ s) v r h =
    ground (arith, unescape_rest size false (p ++ b ∷ []) s v r, unescape_rest size true p s v r)

quoted_rest :
    (s before rest v r : Bytes)
    → length rest ≤ length s
    → quoted s before rest ≡ ok (v, r)
    → length r ≤ length s
unfolding quoted
quoted_rest s before [] v r k h = ground arith
quoted_rest s before (c ∷ rest) v r k h =
    let n = length before + length before in
    ground (
      arith,
      quoted_rest s (before ++ c ∷ []) rest v r,
      unescape_rest (length s - 1) true before (drop n s) v r,
      length-drop n s,
    )

expect_token_or_quoted_rest :
    (s v r : Bytes) → expect_token_or_quoted s ≡ ok (v, r) → length r ≤ length s
unfolding expect_token_or_quoted
expect_token_or_quoted_rest [] v r h = unfold expect_token in ground arith
expect_token_or_quoted_rest (c ∷ s) v r h =
    ground (arith, quoted_rest s [] s v r, length-expect_token (c ∷ s))

value_round_rest :
    (params : Params) (key : Bytes) (n : ℕ) (vs : Result (Bytes × Bytes)) (m : Params) (r : Bytes)
    → ((v t : Bytes) → vs ≡ ok (v, t) → length t ≤ n)
    → (vs >>= (λ v. ok (value_round params key v))) ≡ ok (record { found = m; rest = some r })
    → length r ≤ n
unfolding value_round
value_round_rest params key n (ok ([], t)) m r k h = ground arith
value_round_rest params key n (ok (c ∷ v, t)) m r k h =
    ground (arith, k (c ∷ v) t refl, length-skip_space t)
value_round_rest params key n (err e) m r k h = ground arith
value_round_rest params key n panic m r k h = ground arith

-- A round that goes on has read something.
key_round_rest :
    (params : Params) (key s : Bytes) (m : Params) (r : Bytes)
    → key_round params (key, s) ≡ ok (record { found = m; rest = some r })
    → length r ≤ length s
unfolding key_round value_round
key_round_rest params [] s m r h = ground arith
key_round_rest params (k ∷ key) [] m r h = ground arith
key_round_rest params (k ∷ key) (c ∷ s) m r h = elim (Bool-cases (c == b'=')) [
  | inl e ↦ omega (
    arith,
    value_round_rest params (k ∷ key) (length s) (expect_token_or_quoted s) m r
        (expect_token_or_quoted_rest s) (rw e at h),
  )
  | inr e ↦ ground (arith, h)
]

key_round_rest' :
    (params : Params) (ks : Bytes × Bytes) (m : Params) (r : Bytes)
    → key_round params ks ≡ ok (record { found = m; rest = some r })
    → length r ≤ length ks.1
key_round_rest' params (key, s) m r = key_round_rest params key s m r

continue_total :
    (again : Params → Bytes → Option (Result Params)) (round : Result Round)
    → ((m : Params) (r : Bytes)
        → round ≡ ok (record { found = m; rest = some r })
        → again m r ≢ none)
    → continue again round ≢ none
unfolding continue
continue_total again (err e) h = cc
continue_total again panic h = cc
continue_total again (ok t) h = elim (Option-cases t.rest) [
  | inl e ↦ rw e (cc)
  | inr (r, e) ↦ rw e (h t.found r (ground arith))
]

-- Each round takes off a comma at least, so as many rounds as the text has bytes are enough.
params_loop_total :
    (fuel : ℕ) (params : Params) (s : Bytes) → length s < fuel → params_loop fuel params s ≢ none
unfolding params_loop continue
params_loop_total zero params s h = absurd (omega arith)
params_loop_total (suc fuel) params [] h = cc
params_loop_total (suc fuel) params (c ∷ s) h =
    let ks = expect_token (skip_space s) in
    elim (Bool-cases (c == b',')) [
      | inl e ↦
          rw (e, params_loop)
            (continue_total (params_loop fuel) (key_round params ks) (λ m r p.
              params_loop_total fuel m r (
                omega (
                  arith,
                  key_round_rest' params ks m r p,
                  length-expect_token (skip_space s),
                  length-skip_space s,
                ))))
      | inr e ↦ rw (e, params_loop) (cc)
    ]

after_value_total : (vs : Bytes × Bytes) → after_value vs ≢ none
unfolding after_value with_params
after_value_total ([], s) = cc
after_value_total (c ∷ v, s) =
    ground (arith, params_loop_total (suc (suc (length (skip_space s)))) [] (b',' ∷ skip_space s))

-- parseValueAndParams always returns or panics: its loop ends.
pub parse_value_and_params_total : (header : Bytes) → parse_value_and_params header ≢ none
unfolding parse_value_and_params
parse_value_and_params_total header = after_value_total (expect_token header)

-- The parameters as a server prints them, each behind a comma: `,key="value"`.
abbrev pub print_params : Params → Bytes
print_params [] = []
print_params ((k, v) ∷ ps) = b',' ∷ k ++ (b'=' ∷ b'"' ∷ (v ++ b'"' ∷ print_params ps))

-- The header value `Scheme key="value",key="value"…`.
abbrev pub print_challenge : Bytes → Params → Bytes
print_challenge scheme ps = scheme ++ 32 ∷ drop 1 (print_params ps)

abbrev pub IsToken : Bytes → Type 0
IsToken s = (s ≢ []) × All (λ c. is_token c ≡ true) s

-- Keys are tokens; values are not empty and need no escape.
abbrev pub IsPrintable : Bytes × Bytes → Type 0
IsPrintable kv = IsToken kv.0 × (kv.1 ≢ []) × IsBare kv.1

-- The parameters as the map that the loop fills.
abbrev pub insert_all : Params → Params → Params
insert_all m [] = m
insert_all m ((k, v) ∷ ps) = insert_all (insert (map to_lower k) v m) ps

token_not_space : (c : ℕ) → is_token c ≡ true → is_space c ≡ false
unfolding is_token is_space contains
token_not_space c h = ground arith

print_params-Stops : (ps : Params) → Stops is_space (print_params ps)
unfolding is_space contains
print_params-Stops [] = tt
print_params-Stops (kv ∷ ps) = refl

-- One printed parameter is read in one round.
key_round_printed :
    (m : Params) (k v rest : Bytes)
    → IsPrintable (k, v)
    → Stops is_space rest
    → key_round m (k, (b'=' ∷ b'"' ∷ (v ++ b'"' ∷ rest)))
      ≡ ok (record { found = insert (map to_lower k) v m; rest = some rest })
unfolding key_round value_round
key_round_printed m [] v rest h stop = absurd (h.0.0 refl)
key_round_printed m (c ∷ k) [] rest h stop = absurd (h.1 refl)
key_round_printed m (c ∷ k) (d ∷ v) rest h stop =
    rw (expect_token_or_quoted_bare (d ∷ v) rest h.2, skip_space-Stops rest stop)

equals_not_token : (s : Bytes) → Stops is_token (b'=' ∷ s)
unfolding is_token separators contains
equals_not_token s = refl

space_not_token : (s : Bytes) → Stops is_token (32 ∷ s)
unfolding is_token separators contains
space_not_token s = refl

token-Stops : (k rest : Bytes) → IsToken k → Stops is_space (k ++ rest)
token-Stops [] rest h = absurd (h.0 refl)
token-Stops (c ∷ k) rest h = token_not_space c h.1.0

abbrev quoted_pair : Bytes → Bytes → Bytes → Bytes
quoted_pair k v rest = k ++ (b'=' ∷ b'"' ∷ (v ++ b'"' ∷ rest))

read_printed :
    (m : Params) (k v rest : Bytes)
    → IsPrintable (k, v)
    → Stops is_space rest
    → key_round m (expect_token (skip_space (quoted_pair k v rest)))
      ≡ ok (record { found = insert (map to_lower k) v m; rest = some rest })
read_printed m k v rest p stop =
    let quote = (b'=' ∷ b'"' ∷ (v ++ b'"' ∷ rest)) in
    rw (
      skip_space-Stops (k ++ quote) (token-Stops k quote p.0),
      expect_token-append k quote p.0.1 (equals_not_token (b'"' ∷ (v ++ b'"' ∷ rest))),
      key_round_printed m k v rest p stop,
    )

length-quoted_pair : (k v rest : Bytes) → length rest ≤ length (quoted_pair k v rest)
length-quoted_pair k v rest =
    omega
      (arith, length-append k ((b'=' ∷ b'"' ∷ (v ++ b'"' ∷ rest))), length-append v (b'"' ∷ rest))

one_round :
    (fuel : ℕ) (m : Params) (s : Bytes) (m' : Params) (rest : Bytes)
    → key_round m (expect_token (skip_space s)) ≡ ok (record { found = m'; rest = some rest })
    → params_loop (suc fuel) m (b',' ∷ s) ≡ params_loop fuel m' rest
unfolding params_loop continue
one_round fuel m s m' rest h = ground arith

params_loop_printed :
    (fuel : ℕ) (m ps : Params)
    → length (print_params ps) < fuel
    → All IsPrintable ps
    → params_loop fuel m (print_params ps) ≡ some (ok (insert_all m ps))
params_loop_printed zero m ps h k = absurd (omega arith)
params_loop_printed (suc fuel) m [] h k = unfold params_loop in refl
params_loop_printed (suc fuel) m ((key, v) ∷ ps) h (p, k) =
    let rest = print_params ps in
    one_round fuel m (quoted_pair key v rest) (insert (map to_lower key) v m) rest
      (read_printed m key v rest p (print_params-Stops ps))
    ∙ params_loop_printed fuel (insert (map to_lower key) v m) ps
        (omega (arith, length-quoted_pair key v rest)) k

skip_one : (s : Bytes) → skip_space (32 ∷ s) ≡ skip_space s
unfolding skip_space is_space contains
skip_one s = refl

-- The first parameter stands behind the space, without a comma.
skip_first :
    (ps : Params)
    → ps ≢ []
    → All IsPrintable ps
    → ◌≡◌ {A = Bytes} (b',' ∷ skip_space (32 ∷ drop 1 (print_params ps))) (print_params ps)
skip_first [] n h = absurd (n refl)
skip_first ((k, v) ∷ ps) n (p, h) =
    let body = k ++ (b'=' ∷ b'"' ∷ (v ++ b'"' ∷ print_params ps)) in
    ap (λ (t : Bytes). b',' ∷ t)
      (skip_one body
        ∙ skip_space-Stops body (token-Stops k (b'=' ∷ b'"' ∷ (v ++ b'"' ∷ print_params ps)) p.0))

read_params :
    (text : Bytes) (ps : Params)
    → text ≡ print_params ps
    → All IsPrintable ps
    → params_loop (suc (length text)) [] text ≡ some (ok (insert_all [] ps))
read_params text ps e h =
    rw e (params_loop_printed (suc (length (print_params ps))) [] ps (omega arith) h)

-- A challenge with a scheme and at least one parameter, all printable, is read back: the scheme in
-- lower case, and the parameters as a map with their keys in lower case.
pub parse-print :
    (scheme : Bytes) (ps : Params)
    → IsToken scheme
    → ps ≢ []
    → All IsPrintable ps
    → parse_value_and_params (print_challenge scheme ps)
      ≡ some (ok (map to_lower scheme, insert_all [] ps))
unfolding parse_value_and_params after_value with_params
parse-print [] ps t n h = absurd (t.0 refl)
parse-print (c ∷ s) ps t n h =
    let body = drop 1 (print_params ps) in
    rw (expect_token-append (c ∷ s) (32 ∷ body) t.1 (space_not_token body)) (
      ap (with_params (map to_lower (c ∷ s)))
        (read_params (b',' ∷ skip_space (32 ∷ body)) ps (skip_first ps n h) h))
