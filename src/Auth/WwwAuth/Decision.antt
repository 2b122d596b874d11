-- ===== src/Auth/WwwAuth/Decision.antt =====
-- `analyze_auth_response` of sdk/auth/include/cxxmcp/auth/lifecycle.hpp.
use mathlib.Core.Option.{map as option_map}
use cxxmcp.Prelude.{
  ℕ, Bool, ◌||◌, ◌&&◌, ◌==◌, leb, if◌then◌else◌, Bytes, text, Option, none, some, List, [], ◌∷◌,
  Result, ok, err,
}
use cxxmcp.Prelude.Dict.{Dict}
use cxxmcp.Auth.WwwAuth.Scan.{ascii_iequals}
use cxxmcp.Auth.WwwAuth.Parser.{
  WwwAuthenticateChallenge, unless_empty, parameter, bearer, resource_metadata_url,
  insufficient_scope, parse_www_authenticate,
}

pub data AuthResponseAction : Type 0 where
  proceed authorization_required scope_upgrade_required : AuthResponseAction

pub record AuthResponseDecision : Type 0 where
  pub action : AuthResponseAction
  pub challenge : Option WwwAuthenticateChallenge
  pub required_scopes : List Bytes
  pub resource_metadata : Option Bytes
  pub error_description : Option Bytes

pub record HttpResponseMetadata : Type 0 where
  pub status_code : ℕ
  pub headers : Dict Bytes

unfoldable pub header_value : Dict Bytes → Bytes → Option Bytes
header_value [] name = none
header_value ((key, value) ∷ headers) name =
    let later = header_value headers name in if ascii_iequals key name then some value else later

abbrev pub is_space : ℕ → Bool
is_space ch = ch == b' ' || (leb 9 ch && leb ch 13)

abbrev pub keep : Bytes → List Bytes → List Bytes
keep [] scopes = scopes
keep (ch ∷ scope) scopes = (ch ∷ scope) ∷ scopes

-- the bytes up to the next space, and the scopes behind it
abbrev pub scopes_from : Bytes → Bytes × List Bytes
scopes_from [] = ([], [])
scopes_from (ch ∷ s) =
    let (scope, scopes) = scopes_from s in
    if is_space ch then ([], keep scope scopes) else (ch ∷ scope, scopes)

unfoldable pub split_scopes : Bytes → List Bytes
split_scopes s = let (scope, scopes) = scopes_from s in keep scope scopes

abbrev by_status : ℕ → AuthResponseAction
by_status status = if status == 401 then authorization_required else scope_upgrade_required

abbrev pub plain_decision : AuthResponseAction → AuthResponseDecision
plain_decision action = record {
  action = action;
  challenge = none;
  required_scopes = [];
  resource_metadata = none;
  error_description = none;
}

abbrev pub decision_of : WwwAuthenticateChallenge → AuthResponseDecision
decision_of challenge = record {
  action = if insufficient_scope challenge then scope_upgrade_required else authorization_required;
  challenge = some challenge;
  required_scopes = split_scopes (parameter (text "scope") challenge);
  resource_metadata = resource_metadata_url challenge;
  error_description = unless_empty (parameter (text "error_description") challenge);
}

-- The loop: the first challenge of the scheme Bearer decides.
unfoldable pub decide : ℕ → List WwwAuthenticateChallenge → AuthResponseDecision
decide status [] = plain_decision (by_status status)
decide status (challenge ∷ challenges) =
    let later = decide status challenges in
    if bearer challenge then decision_of challenge else later

abbrev decided : ℕ → Result (List WwwAuthenticateChallenge) → Result AuthResponseDecision
decided status (err e) = err e
decided status (ok challenges) = ok (decide status challenges)

-- `none` is fuel of the parser that ran out.
unfoldable pub analyze_auth_response : HttpResponseMetadata → Option (Result AuthResponseDecision)
analyze_auth_response response =
    if response.status_code == 401 || response.status_code == 403
    then elim (header_value response.headers (text "WWW-Authenticate")) [
      | none ↦ some (ok (plain_decision (by_status response.status_code)))
      | some header ↦ option_map (decided response.status_code) (parse_www_authenticate header)
    ]
    else some (ok (plain_decision proceed))
