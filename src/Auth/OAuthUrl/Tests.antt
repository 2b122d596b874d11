-- ===== src/Auth/OAuthUrl/Tests.antt =====
-- Concrete parameters and scopes.
use cxxmcp.Prelude.{text, bytes_eq, true, ◌≡◌, refl, Bytes, codes, List, [], ◌∷◌, arith}
use cxxmcp.Auth.WwwAuth.Decision.{split_scopes}
use cxxmcp.Auth.OAuthUrl.{
  is_unreserved, oauth_url_encode, append_query_param, join_loop, join_scopes,
}
use cxxmcp.Auth.OAuthUrl.Decoding.{character, percent_decode, percent_decode-oauth_url_encode}
use cxxmcp.Auth.OAuthUrl.Reader.{query_parameters}
use cxxmcp.Auth.OAuthUrl.Query.{append_params, query_parameters-append_query_param}
use cxxmcp.Auth.WwwAuth.Scan.{span, ascii_iequals}
use cxxmcp.Auth.OAuthUrl.Parts.{
  redirect_uri_is_secure, url_uses_https, url_uses_loopback_http, url_scheme, url_host,
}
use cxxmcp.Auth.OAuthUrl.Request.{
  AuthorizationUrlRequest, asked_for, authorization_result, build_authorization_url,
  build_authorization_url_lem,
}
use cxxmcp.Auth.OAuthUrl.Scopes.{split_scopes-join_scopes}

two_parameters :
    append_query_param
      (append_query_param (codes "https://a") (codes "x") (codes "a b"))
      (codes "y")
      (codes "/")
    ≡ codes "https://a?x=a%20b&y=%2F"
unfolding append_query_param oauth_url_encode is_unreserved
two_parameters = refl

percent_decode-oauth_url_encode_example :
    percent_decode character (oauth_url_encode (codes "a&b=%")) ≡ codes "a&b=%"
percent_decode-oauth_url_encode_example =
    percent_decode-oauth_url_encode (codes "a&b=%") (ground arith)

abbrev scopes : List Bytes
scopes = codes "read" ∷ [] ∷ codes "write" ∷ []

split_scopes-join_scopes_example :
    split_scopes (join_scopes scopes) ≡ codes "read" ∷ codes "write" ∷ []
split_scopes-join_scopes_example = split_scopes-join_scopes scopes (ground arith)

query_parameters-append_query_param_example :
    query_parameters (
      append_params
        (append_query_param (codes "https://a") (codes "x") (codes "a&b=c"))
        ((codes "y=", codes "?") ∷ []))
    ≡ (codes "x", codes "a&b=c") ∷ (codes "y=", codes "?") ∷ []
query_parameters-append_query_param_example =
    query_parameters-append_query_param (codes "https://a") (codes "x") (codes "a&b=c")
      ((codes "y=", codes "?") ∷ []) refl refl
      ((ground arith, ground arith), ((ground arith, ground arith), tt))

abbrev sample : AuthorizationUrlRequest
sample = record {
  client_id = codes "me";
  redirect_uri = codes "http://[::1]:80/cb";
  authorization_endpoint = codes "HTTPS://as.example/authorize";
  token_endpoint = [];
  resource = [];
  scopes = codes "read" ∷ codes "write" ∷ [];
  pkce = record { code_verifier = codes "v"; code_challenge = codes "c" };
  state = codes "s=1";
  additional_parameters = [];
}

-- A fragment hides the parameters from the reader.
fragment_hides :
    query_parameters (append_query_param (codes "https://a#f") (codes "x") (codes "y")) ≡ []
unfolding append_query_param oauth_url_encode is_unreserved
fragment_hides = refl

build_authorization_url_lem_example :
    (redirect_uri_is_secure sample.redirect_uri ≡ true)
    × (query_parameters (authorization_result sample).url ≡ asked_for sample)
    × ((authorization_result sample).stored ≡ (authorization_result sample).stored)
unfolding build_authorization_url redirect_uri_is_secure url_uses_https url_uses_loopback_http
    url_scheme url_host span ascii_iequals bytes_eq text join_scopes join_loop
build_authorization_url_lem_example =
    build_authorization_url_lem sample (authorization_result sample) refl refl (ground arith) refl
