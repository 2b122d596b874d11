-- ===== src/Auth/WwwAuth/Tests.antt =====
-- Concrete headers.
use cxxmcp.Prelude.{◌≡◌, refl, codes, bytes_eq, none, some, List, [], ◌∷◌, Result, ok}
use cxxmcp.Prelude.Dict.{assign}
use cxxmcp.Auth.WwwAuth.Scan.{
  is_http_token_char, is_token68_char, span, ascii_lower, quoted_rest, parse_quoted_string,
  starts_parameter, comma_starts_parameter,
}
use cxxmcp.Auth.WwwAuth.Parser.{
  WwwAuthenticateChallenge, parse_token68, parse_parameter_value, parse_parameter, parse_parameters,
  parse_challenge, parse_challenges, parse_www_authenticate,
}
use cxxmcp.Auth.WwwAuth.Total.{parse_www_authenticate-Returns}

two_challenges :
    parse_www_authenticate (codes "Basic YWJj==, ,Bearer Realm = \"a\\\"b\" , error=x")
    ≡ some (
        ok (
          record { scheme = codes "Basic"; token68 = some (codes "YWJj=="); parameters = [] }
          ∷ record {
            scheme = codes "Bearer";
            token68 = none;
            parameters = (codes "realm", codes "a\"b") ∷ (codes "error", codes "x") ∷ [];
          }
          ∷ []))
unfolding is_http_token_char is_token68_char span ascii_lower quoted_rest parse_quoted_string
    starts_parameter comma_starts_parameter parse_token68 parse_parameter_value parse_parameter
    parse_parameters parse_challenge parse_challenges parse_www_authenticate assign bytes_eq
two_challenges = refl

parse_www_authenticate-Returns_example :
    (r : Result (List WwwAuthenticateChallenge)) × (parse_www_authenticate (codes "Bearer x=\"")
      ≡ some r)
parse_www_authenticate-Returns_example = parse_www_authenticate-Returns (codes "Bearer x=\"")
