-- ===== src/Server/AuthChallenge/Decided.antt =====
-- What a client does about the server's header.
use cxxmcp.Prelude.{
  ◌≡◌, refl, ap, true, Bytes, text, bytes_eq, Option, none, some, [], ◌∷◌, ◌++◌, ok,
}
use cxxmcp.Prelude.Dict.{find}
use cxxmcp.Auth.WwwAuth.Scan.{ascii_lower, ascii_iequals}
use cxxmcp.Auth.WwwAuth.Parser.{
  WwwAuthenticateChallenge, parameter, bearer, resource_metadata_url, insufficient_scope,
}
use cxxmcp.Auth.WwwAuth.Decision.{
  authorization_required, AuthResponseDecision, header_value, split_scopes, decision_of, decide,
  analyze_auth_response,
}
use cxxmcp.Server.AuthChallenge.{AuthChallengeConfig, scheme_or, build_www_authenticate_header}
use cxxmcp.Server.AuthChallenge.ReadBack.{
  IsToken, IsWritable, member_of, challenge_of, parse-build_www_authenticate_header,
}

abbrev text_of : Option Bytes → Bytes
text_of none = []
text_of (some s) = s

abbrev written : Bytes → Option Bytes → Option Bytes → WwwAuthenticateChallenge
written scheme url scope = record {
  scheme = scheme;
  token68 = none;
  parameters = member_of (text "resource_metadata") url ++ member_of (text "scope") scope;
}

abbrev decision_from : Bytes → Option Bytes → Option Bytes → AuthResponseDecision
decision_from scheme url scope = record {
  action = authorization_required;
  challenge = some (written scheme url scope);
  required_scopes = split_scopes (text_of scope);
  resource_metadata = url;
  error_description = none;
}

abbrev pub decision : AuthChallengeConfig → Bytes → AuthResponseDecision
decision config fallback_scheme =
    decision_from (scheme_or fallback_scheme config.scheme) config.resource_metadata_url
      config.scope

-- What is found among the parameters.
found_lem :
    (scheme : Bytes) (url scope : Option Bytes)
    → IsWritable url
    → IsWritable scope
    → decision_of (written scheme url scope) ≡ decision_from scheme url scope
unfolding parameter find bytes_eq text ascii_lower split_scopes resource_metadata_url
    insufficient_scope
found_lem scheme (some []) scope hu hs = absurd hu
found_lem scheme none (some []) hu hs = absurd hs
found_lem scheme (some (u ∷ url)) (some []) hu hs = absurd hs
found_lem scheme none none hu hs = refl
found_lem scheme none (some (v ∷ scope)) hu hs = refl
found_lem scheme (some (u ∷ url)) none hu hs = refl
found_lem scheme (some (u ∷ url)) (some (v ∷ scope)) hu hs = refl

decide_lem :
    (config : AuthChallengeConfig) (fallback_scheme : Bytes)
    → ascii_iequals (scheme_or fallback_scheme config.scheme) (text "Bearer") ≡ true
    → IsWritable config.resource_metadata_url
    → IsWritable config.scope
    → decide 401 (challenge_of config fallback_scheme ∷ []) ≡ decision config fallback_scheme
unfolding decide bearer
decide_lem config fallback_scheme is_bearer url scope = rw is_bearer (
    found_lem (scheme_or fallback_scheme config.scheme) config.resource_metadata_url config.scope
      url scope)

-- To a 401 with the header that the server builds, a client answers by an authorization, with the URL
-- and the scopes of the server's configuration. It holds if the scheme is Bearer in any case of its
-- letters, and a URL or scope that is given is not empty and has no quote and no backslash.
pub analyze-build_www_authenticate_header :
    (config : AuthChallengeConfig) (fallback_scheme : Bytes)
    → IsToken (scheme_or fallback_scheme config.scheme)
    → ascii_iequals (scheme_or fallback_scheme config.scheme) (text "Bearer") ≡ true
    → IsWritable config.resource_metadata_url
    → IsWritable config.scope
    → analyze_auth_response (record {
      status_code = 401;
      headers =
          (text "WWW-Authenticate", build_www_authenticate_header config fallback_scheme) ∷ [];
    })
      ≡ some (ok (decision config fallback_scheme))
unfolding analyze_auth_response header_value ascii_iequals text
analyze-build_www_authenticate_header config fallback_scheme token is_bearer url scope =
    rw (parse-build_www_authenticate_header config fallback_scheme token url scope)
      (ap (λ d. some (ok d)) (decide_lem config fallback_scheme is_bearer url scope))
