-- ===== src/Auth/WwwAuth/Parser.antt =====
-- `DefaultWwwAuthenticateParser` and the challenges' look-ups, of
-- sdk/auth/include/cxxmcp/auth/www_auth.hpp. Its two loops take fuel; `none` is fuel that ran out.
use mathlib.Core.Option.{map as option_map}
use cxxmcp.Prelude.{
  ℕ, zero, suc, Bool, ◌==◌, if◌then◌else◌, Bytes, text, bytes_eq, Option, none, some, List, [], ◌∷◌,
  Result, ok, err, ◌>>=◌, length,
}
use cxxmcp.Prelude.Dict.{Dict, find, assign}
use cxxmcp.Auth.WwwAuth.Scan.{
  is_token68_char, span, skip_ows, skip_commas, parse_token, ascii_lower, ascii_iequals,
  www_auth_parse_error, parse_quoted_string, is_empty, starts_parameter, comma_starts_parameter,
}

pub record WwwAuthenticateChallenge : Type 0 where
  pub scheme : Bytes
  pub token68 : Option Bytes
  pub parameters : Dict Bytes

abbrev value_or_empty : Option Bytes → Bytes
value_or_empty none = []
value_or_empty (some value) = value

unfoldable pub parameter : Bytes → WwwAuthenticateChallenge → Bytes
parameter key challenge = elim (find key challenge.parameters) [
  | some value ↦ value
  | none ↦ value_or_empty (find (ascii_lower key) challenge.parameters)
]

unfoldable pub bearer : WwwAuthenticateChallenge → Bool
bearer challenge = ascii_iequals challenge.scheme (text "Bearer")

abbrev pub unless_empty : Bytes → Option Bytes
unless_empty [] = none
unless_empty (c ∷ s) = some (c ∷ s)

unfoldable pub resource_metadata_url : WwwAuthenticateChallenge → Option Bytes
resource_metadata_url challenge = unless_empty (parameter (text "resource_metadata") challenge)

unfoldable pub insufficient_scope : WwwAuthenticateChallenge → Bool
insufficient_scope challenge =
    bytes_eq (parameter (text "error") challenge) (text "insufficient_scope")

unfoldable pub first_resource_metadata_url : List WwwAuthenticateChallenge → Option Bytes
first_resource_metadata_url [] = none
first_resource_metadata_url (challenge ∷ challenges) =
    let later = first_resource_metadata_url challenges in
    elim (resource_metadata_url challenge) [ some url ↦ some url | none ↦ later ]

abbrev failed {ℓ} : {A : Type ℓ} → Bytes → Result A
failed message = err (www_auth_parse_error message)

-- a comma or the end
abbrev pub token68_end : Bytes → Bytes → Result (Bytes × Bytes)
token68_end token68 [] = ok (token68, [])
token68_end token68 (ch ∷ s) =
    if ch == b','
    then ok (token68, ch ∷ s)
    else failed (text "unexpected character after WWW-Authenticate token68")

unfoldable pub parse_token68 : Bytes → Result (Bytes × Bytes)
parse_token68 s =
    let (token68, rest) = span is_token68_char s in
    if is_empty token68
    then failed (text "expected WWW-Authenticate token68")
    else token68_end token68 (skip_ows rest)

abbrev pub token_value : Bytes × Bytes → Result (Bytes × Bytes)
token_value (value, rest) =
    if is_empty value
    then failed (text "expected WWW-Authenticate token parameter value")
    else ok (value, rest)

unfoldable pub parse_parameter_value : Bytes → Result (Bytes × Bytes)
parse_parameter_value [] = failed (text "expected WWW-Authenticate parameter value")
parse_parameter_value (ch ∷ s) =
    if ch == b'"' then parse_quoted_string (ch ∷ s) else token_value (parse_token (ch ∷ s))

abbrev pub equals_then_value : Bytes → Result (Bytes × Bytes)
equals_then_value [] = failed (text "expected '=' after WWW-Authenticate parameter name")
equals_then_value (ch ∷ s) =
    if ch == b'='
    then parse_parameter_value (skip_ows s)
    else failed (text "expected '=' after WWW-Authenticate parameter name")

abbrev pub named : Bytes → Bytes → Result ((Bytes × Bytes) × Bytes)
named name s =
    if is_empty name
    then failed (text "expected WWW-Authenticate parameter name")
    else equals_then_value (skip_ows s) >>= λ found. ok ((name, found.0), found.1)

-- One name with its value, and the input behind them.
unfoldable pub parse_parameter : Bytes → Result ((Bytes × Bytes) × Bytes)
parse_parameter s = let (name, rest) = parse_token (skip_ows s) in named name rest

-- Behind a parameter: the end, a comma and another parameter, or a comma and another challenge.
abbrev pub after_parameter :
    (more : Bytes → Option (Result (Dict Bytes × Bytes)))
    → Dict Bytes
    → Bytes
    → Option (Result (Dict Bytes × Bytes))
after_parameter more parameters [] = some (ok (parameters, []))
after_parameter more parameters (ch ∷ s) =
    if ch == b','
    then (if comma_starts_parameter (ch ∷ s) then more s else some (ok (parameters, ch ∷ s)))
    else some (failed (text "expected comma after WWW-Authenticate parameter"))

abbrev pub add_parameter :
    (more : Dict Bytes → Bytes → Option (Result (Dict Bytes × Bytes)))
    → Dict Bytes
    → Result ((Bytes × Bytes) × Bytes)
    → Option (Result (Dict Bytes × Bytes))
add_parameter more parameters (err e) = some (err e)
add_parameter more parameters (ok ((name, value), rest)) =
    let parameters' = assign (ascii_lower name) value parameters in
    after_parameter (more parameters') parameters' (skip_ows rest)

unfoldable pub parse_parameters :
    (fuel : ℕ) → Dict Bytes → Bytes → Option (Result (Dict Bytes × Bytes))
parse_parameters zero parameters s = none
parse_parameters (suc fuel) parameters [] = some (ok (parameters, []))
parse_parameters (suc fuel) parameters (ch ∷ s) =
    add_parameter (parse_parameters fuel) parameters (parse_parameter (ch ∷ s))

abbrev pub bare : Bytes → WwwAuthenticateChallenge
bare scheme = record { scheme = scheme; token68 = none; parameters = [] }

abbrev pub with_parameters :
    Bytes → Result (Dict Bytes × Bytes) → Result (WwwAuthenticateChallenge × Bytes)
with_parameters scheme (err e) = err e
with_parameters scheme (ok (parameters, rest)) =
    ok (record { scheme = scheme; token68 = none; parameters = parameters }, rest)

abbrev pub with_token68 : Bytes → Result (Bytes × Bytes) → Result (WwwAuthenticateChallenge × Bytes)
with_token68 scheme (err e) = err e
with_token68 scheme (ok (token68, rest)) =
    ok (record { scheme = scheme; token68 = some token68; parameters = [] }, rest)

-- A challenge behind its scheme and the blanks.
abbrev pub challenge_body : Bytes → Bytes → Option (Result (WwwAuthenticateChallenge × Bytes))
challenge_body scheme [] = some (ok (bare scheme, []))
challenge_body scheme (ch ∷ s) =
    if ch == b','
    then some (ok (bare scheme, ch ∷ s))
    else (if starts_parameter (ch ∷ s)
        then option_map (with_parameters scheme)
            (parse_parameters (suc (length (ch ∷ s))) [] (ch ∷ s))
        else some (with_token68 scheme (parse_token68 (ch ∷ s))))

unfoldable pub parse_challenge : Bytes → Option (Result (WwwAuthenticateChallenge × Bytes))
parse_challenge s =
    let (scheme, rest) = parse_token s in
    if is_empty scheme
    then some (failed (text "expected WWW-Authenticate auth scheme"))
    else challenge_body scheme (skip_ows rest)

abbrev pub Challenges : Type 0
Challenges = Option (Result (List WwwAuthenticateChallenge))

abbrev pub push_front :
    WwwAuthenticateChallenge
    → Result (List WwwAuthenticateChallenge)
    → Result (List WwwAuthenticateChallenge)
push_front challenge (err e) = err e
push_front challenge (ok challenges) = ok (challenge ∷ challenges)

-- Behind a challenge: the end, or a comma.
abbrev pub after_challenge :
    (more : Bytes → Challenges) → WwwAuthenticateChallenge → Bytes → Challenges
after_challenge more challenge [] = some (ok (challenge ∷ []))
after_challenge more challenge (ch ∷ s) =
    if ch == b','
    then option_map (push_front challenge) (more s)
    else some (failed (text "expected comma after WWW-Authenticate challenge"))

abbrev pub challenge_round :
    (more : Bytes → Challenges) → Option (Result (WwwAuthenticateChallenge × Bytes)) → Challenges
challenge_round more none = none
challenge_round more (some (err e)) = some (err e)
challenge_round more (some (ok (challenge, rest))) = after_challenge more challenge rest

abbrev pub challenges_at : (more : Bytes → Challenges) → Bytes → Challenges
challenges_at more [] = some (ok [])
challenges_at more (ch ∷ s) = challenge_round more (parse_challenge (ch ∷ s))

unfoldable pub parse_challenges : (fuel : ℕ) → Bytes → Challenges
parse_challenges zero s = none
parse_challenges (suc fuel) s = challenges_at (parse_challenges fuel) (skip_commas s)

unfoldable pub parse_www_authenticate : Bytes → Option (Result (List WwwAuthenticateChallenge))
parse_www_authenticate header_value = parse_challenges (suc (length header_value)) header_value
