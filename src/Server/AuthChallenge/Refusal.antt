-- ===== src/Server/AuthChallenge/Refusal.antt =====
-- The client's parser on a header with an empty URL.
use cxxmcp.Prelude.{
  ℕ, suc, ◌≡◌, refl, ap, ◌∙◌, Bytes, text, some, [], ◌∷◌, ◌++◌, append_assoc, err, Error, All,
  length, length-append, ◌+◌, arith,
}
use cxxmcp.Auth.WwwAuth.Scan.{
  span, is_http_token_char, is_token68_char, starts_parameter, www_auth_parse_error,
}
use cxxmcp.Auth.WwwAuth.Parser.{
  parse_token68, parse_challenge, parse_challenges, parse_www_authenticate,
}
use cxxmcp.Auth.WwwAuth.Parameters.{
  IsTokenChar, quoted_parameter, parse_challenge-append, parse_challenges-token,
}
use cxxmcp.Server.AuthChallenge.{scheme_or, append_scope, build_www_authenticate_header}
use cxxmcp.Server.AuthChallenge.ReadBack.{IsToken, scope_name}

abbrev pub refusal : Error
refusal = www_auth_parse_error (text "unexpected character after WWW-Authenticate token68")

-- A challenge cannot begin as a parameter does.
scope_is_refused :
    (fuel : ℕ) (scope : Bytes)
    → parse_challenges (suc fuel) (b' ' ∷ quoted_parameter scope_name scope []) ≡ some (err refusal)
unfolding parse_challenges parse_challenge parse_token68 starts_parameter span is_http_token_char
    is_token68_char
scope_is_refused fuel scope = refl

bare_then_scope :
    (c : ℕ) (scheme scope : Bytes)
    → All IsTokenChar (c ∷ scheme)
    → parse_www_authenticate ((c ∷ scheme) ++ (b',' ∷ b' ' ∷ quoted_parameter scope_name scope []))
      ≡ some (err refusal)
unfolding parse_www_authenticate span is_http_token_char
bare_then_scope c scheme scope token =
    let rest = b' ' ∷ quoted_parameter scope_name scope [] in
    let fuel : length (scheme ++ (b',' ∷ rest)) ≡ suc (length scheme + length rest) =
      let sum = length-append scheme (b',' ∷ rest) in omega arith in
    parse_challenges-token _ c _ token.0
    ∙ rw (parse_challenge-append c scheme (b',' ∷ rest) token refl)
        (rw fuel (rw (scope_is_refused (suc (length scheme + length rest)) scope) refl))

-- With an empty URL and a scope that is not empty, the client refuses the header that the server builds,
-- if the scheme is a token.
pub empty_url_is_refused :
    (scheme fallback_scheme : Bytes) (v : ℕ) (scope : Bytes)
    → IsToken (scheme_or fallback_scheme scheme)
    → parse_www_authenticate (
        build_www_authenticate_header
          (record { scheme = scheme; resource_metadata_url = some []; scope = some (v ∷ scope) })
          fallback_scheme)
      ≡ some (err refusal)
unfolding build_www_authenticate_header text
empty_url_is_refused scheme fallback_scheme v scope token =
    by_scheme (scheme_or fallback_scheme scheme) token
  where
    by_scheme :
        (name : Bytes)
        → IsToken name
        → parse_www_authenticate (append_scope (some []) (some (v ∷ scope)) name)
          ≡ some (err refusal)
    by_scheme [] h = absurd h
    by_scheme (c ∷ name) h =
        ap parse_www_authenticate (simp append_assoc) ∙ bare_then_scope c name (v ∷ scope) h
