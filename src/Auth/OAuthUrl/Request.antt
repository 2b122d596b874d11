-- ===== src/Auth/OAuthUrl/Request.antt =====
-- `build_authorization_url` of sdk/auth/include/cxxmcp/auth/lifecycle.hpp.
use cxxmcp.Prelude.{
  ◌≡◌, refl, sym, ap, subst, length, ◌∙◌, Bool, true, false, not, ◌&&◌, ◌||◌, ◌==◌, if◌then◌else◌,
  Bytes, text, List, [], ◌∷◌, ◌++◌, Result, ok, err, ok_injective, guarded, Error, pos, All, arith,
}
use cxxmcp.Prelude.Dict.{Dict}
use cxxmcp.Auth.OAuthUrl.{has_query, append_query_param, join_scopes}
use cxxmcp.Auth.OAuthUrl.Reader.{has_fragment, query_parameters}
use cxxmcp.Auth.OAuthUrl.Query.{append_params, IsParam, query_parameters-append_query_param}
use cxxmcp.Auth.OAuthUrl.Parts.{url_uses_https, url_uses_loopback_http, redirect_uri_is_secure}

pub record PkceChallenge : Type 0 where
  pub code_verifier : Bytes
  pub code_challenge : Bytes

-- The request's fields that the builder reads.
pub record AuthorizationUrlRequest : Type 0 where
  pub client_id : Bytes
  pub redirect_uri : Bytes
  pub authorization_endpoint : Bytes
  pub token_endpoint : Bytes
  pub resource : Bytes
  pub scopes : List Bytes
  pub pkce : PkceChallenge
  pub state : Bytes
  pub additional_parameters : Dict Bytes

-- The fields that the builder sets; the time of creation is left out.
pub record StoredAuthorizationState : Type 0 where
  pub stored_state : Bytes
  pub stored_pkce : PkceChallenge
  pub stored_resource : Bytes
  pub stored_client_id : Bytes
  pub stored_redirect_uri : Bytes
  pub requested_scopes : List Bytes

pub record AuthorizationUrlResult : Type 0 where
  pub url : Bytes
  pub stored : StoredAuthorizationState

abbrev invalid_request : Bytes → Error
invalid_request message = record {
  code = pos 1;
  message = message;
  detail = [];
  category = text "auth";
}

abbrev no_bytes : Bytes → Bool
no_bytes [] = true
no_bytes (_ ∷ _) = false

-- The first condition that holds is the error.
abbrev pub first_failure : List (Bool × Bytes) → Result (Unit {0})
first_failure [] = ok tt
first_failure ((fails, message) ∷ checks) =
    let later = first_failure checks in if fails then err (invalid_request message) else later

-- a parameter that is left out if it is empty
abbrev unless_no_bytes : Bytes → Bytes → Dict Bytes
unless_no_bytes name [] = []
unless_no_bytes name (ch ∷ value) = (name, ch ∷ value) ∷ []

-- The parameters behind the first, in the order in which they are appended.
abbrev pub later_parameters : AuthorizationUrlRequest → Dict Bytes
later_parameters r =
    (text "client_id", r.client_id)
    ∷ (text "redirect_uri", r.redirect_uri)
    ∷ (text "state", r.state)
    ∷ (text "code_challenge", r.pkce.code_challenge)
    ∷ (text "code_challenge_method", text "S256")
    ∷ (unless_no_bytes (text "resource") r.resource
        ++ (unless_no_bytes (text "scope") (join_scopes r.scopes) ++ r.additional_parameters))

abbrev pub authorization_result : AuthorizationUrlRequest → AuthorizationUrlResult
authorization_result r = record {
  url =
      append_params
        (append_query_param r.authorization_endpoint (text "response_type") (text "code"))
        (later_parameters r);
  stored = record {
    stored_state = r.state;
    stored_pkce = r.pkce;
    stored_resource = r.resource;
    stored_client_id = r.client_id;
    stored_redirect_uri = r.redirect_uri;
    requested_scopes = r.scopes;
  };
}

abbrev is_insecure : Bytes → Bool
is_insecure url = not (url_uses_https url) && not (url_uses_loopback_http url)

-- The checks before the URL, in their order.
abbrev pub request_checks : AuthorizationUrlRequest → List (Bool × Bytes)
request_checks r =
    (no_bytes r.authorization_endpoint, text "authorization endpoint is required")
    ∷ (no_bytes r.client_id, text "client_id is required")
    ∷ (no_bytes r.redirect_uri, text "redirect_uri is required")
    ∷ (
      is_insecure r.authorization_endpoint,
      text "authorization endpoint must use HTTPS or loopback HTTP",
    )
    ∷ (
      not (no_bytes r.token_endpoint) && is_insecure r.token_endpoint,
      text "token endpoint must use HTTPS or loopback HTTP",
    )
    ∷ (
      not (redirect_uri_is_secure r.redirect_uri),
      text "redirect_uri must use HTTPS or loopback HTTP",
    )
    ∷ (no_bytes r.state, text "state is required")
    ∷ (
      no_bytes r.pkce.code_challenge || no_bytes r.pkce.code_verifier,
      text "PKCE verifier and challenge are required",
    )
    ∷ []

unfoldable pub build_authorization_url : AuthorizationUrlRequest → Result AuthorizationUrlResult
build_authorization_url r = guarded (first_failure (request_checks r)) (ok (authorization_result r))

guarded-eq-ok :
    {A : Type 0} (m : Result (Unit {0})) (rest : Result A) (a : A)
    → guarded m rest ≡ ok a
    → (m ≡ ok tt) × (rest ≡ ok a)
guarded-eq-ok (err e) rest a h = cc
guarded-eq-ok (ok u) rest a h = (refl, h)

first_failure-eq-ok :
    (checks : List (Bool × Bytes))
    → first_failure checks ≡ ok tt
    → All (λ (c : Bool × Bytes). c.0 ≡ false) checks
first_failure-eq-ok [] h = tt
first_failure-eq-ok ((true, message) ∷ checks) h = absurd (cc h)
first_failure-eq-ok ((false, message) ∷ checks) h = (refl, first_failure-eq-ok checks h)

-- What a client says by its request: the parameters of RFC 6749 4.1.1, RFC 7636 4.3 and RFC 8707.
abbrev if_given : Bytes → Bytes → List (Bytes × Bytes)
if_given name value = if length value == 0 then [] else (name, value) ∷ []

abbrev pub asked_for : AuthorizationUrlRequest → List (Bytes × Bytes)
asked_for r =
    (text "response_type", text "code")
    ∷ (text "client_id", r.client_id)
    ∷ (text "redirect_uri", r.redirect_uri)
    ∷ (text "state", r.state)
    ∷ (text "code_challenge", r.pkce.code_challenge)
    ∷ (text "code_challenge_method", text "S256")
    ∷ (if_given (text "resource") r.resource
        ++ (if_given (text "scope") (join_scopes r.scopes) ++ r.additional_parameters))

unless_no_bytes_lem : (name value : Bytes) → unless_no_bytes name value ≡ if_given name value
unless_no_bytes_lem name [] = refl
unless_no_bytes_lem name (ch ∷ value) = ground arith

parameters_lem :
    (r : AuthorizationUrlRequest)
    → ◌≡◌ {A = List (Bytes × Bytes)}
        ((text "response_type", text "code") ∷ later_parameters r)
        (asked_for r)
parameters_lem r =
    rw
      (
        unless_no_bytes_lem (text "resource") r.resource,
        unless_no_bytes_lem (text "scope") (join_scopes r.scopes),
      )
      refl

-- A request for which an authorization URL is built: its redirect URI uses HTTPS or HTTP to the own
-- machine; the query of the URL, to a reader that decodes it, has exactly these parameters in this
-- order: the response type `code`, the client, the redirect URI, the state, the challenge and its
-- method S256, the resource and the scopes if they are given, and the additional parameters; and the
-- stored state has the state, the challenge, the resource, the client, the redirect URI and the scopes
-- of the request. It holds if the authorization endpoint has no `?` and no `#` and the parameters are
-- texts of bytes.
pub build_authorization_url_lem :
    (r : AuthorizationUrlRequest) (result : AuthorizationUrlResult)
    → has_query r.authorization_endpoint ≡ false
    → has_fragment r.authorization_endpoint ≡ false
    → All IsParam (asked_for r)
    → build_authorization_url r ≡ ok result
    → (redirect_uri_is_secure r.redirect_uri ≡ true)
      × (query_parameters result.url ≡ asked_for r)
      × (result.stored ≡ record {
        stored_state = r.state;
        stored_pkce = r.pkce;
        stored_resource = r.resource;
        stored_client_id = r.client_id;
        stored_redirect_uri = r.redirect_uri;
        requested_scopes = r.scopes;
      })
unfolding build_authorization_url
build_authorization_url_lem r result no_query no_fragment params h =
    let (checked, built) =
      guarded-eq-ok (first_failure (request_checks r)) (ok (authorization_result r)) result h in
    let (_, (_, (_, (_, (_, (secure, _)))))) = first_failure-eq-ok (request_checks r) checked in
    let same = ok_injective built in
    (
      not_false secure,
      ap (λ (x : AuthorizationUrlResult). query_parameters x.url) (sym same)
          ∙ query_parameters-append_query_param r.authorization_endpoint (text "response_type")
              (text "code") (later_parameters r) no_query no_fragment
              (subst (All IsParam) (sym (parameters_lem r)) params)
          ∙ parameters_lem r,
      ap (λ (x : AuthorizationUrlResult). x.stored) (sym same),
    )
  where
    not_false : {b : Bool} → not b ≡ false → b ≡ true
    not_false k = ground arith
