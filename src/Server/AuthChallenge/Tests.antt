-- ===== src/Server/AuthChallenge/Tests.antt =====
-- Headers of concrete configurations.
use cxxmcp.Prelude.{◌≡◌, refl, codes, text, some, [], ◌∷◌, ok, err, arith}
use cxxmcp.Auth.WwwAuth.Scan.{is_http_token_char, ascii_iequals}
use cxxmcp.Auth.WwwAuth.Decision.{split_scopes, analyze_auth_response}
use cxxmcp.Server.AuthChallenge.Decided.{decision, analyze-build_www_authenticate_header}
use cxxmcp.Auth.WwwAuth.Parser.{parse_www_authenticate}
use cxxmcp.Server.AuthChallenge.{AuthChallengeConfig, build_www_authenticate_header}
use cxxmcp.Server.AuthChallenge.ReadBack.{challenge_of, parse-build_www_authenticate_header}
use cxxmcp.Server.AuthChallenge.Refusal.{refusal, empty_url_is_refused}

abbrev config : AuthChallengeConfig
config = record {
  scheme = codes "Bearer";
  resource_metadata_url = some (codes "https://a/b");
  scope = some (codes "read write");
}

header_of_config :
    build_www_authenticate_header config []
    ≡ codes "Bearer resource_metadata=\"https://a/b\", scope=\"read write\""
unfolding build_www_authenticate_header text
header_of_config = refl

parse-build_www_authenticate_header_example :
    parse_www_authenticate (build_www_authenticate_header config [])
    ≡ some (ok (challenge_of config [] ∷ []))
unfolding is_http_token_char
parse-build_www_authenticate_header_example =
    parse-build_www_authenticate_header config [] (ground arith) (ground arith) (ground arith)

empty_url_is_refused_example :
    parse_www_authenticate (
      build_www_authenticate_header
        (record { scheme = []; resource_metadata_url = some []; scope = some (codes "read") })
        (codes "Bearer"))
    ≡ some (err refusal)
unfolding is_http_token_char
empty_url_is_refused_example =
    empty_url_is_refused [] (codes "Bearer") b'r' (codes "ead") (ground arith)

analyze-build_www_authenticate_header_example :
    analyze_auth_response (record {
      status_code = 401;
      headers = (text "WWW-Authenticate", build_www_authenticate_header config []) ∷ [];
    })
    ≡ some (ok (decision config []))
unfolding is_http_token_char ascii_iequals text
analyze-build_www_authenticate_header_example =
    analyze-build_www_authenticate_header config [] (ground arith) refl (ground arith)
      (ground arith)

scopes_of_config : (decision config []).required_scopes ≡ codes "read" ∷ codes "write" ∷ []
unfolding split_scopes
scopes_of_config = refl
