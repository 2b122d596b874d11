-- ===== src/Server/AuthChallenge.antt =====
-- `build_www_authenticate_header` of sdk/server/src/http_transport.cpp.
pub mod ReadBack
pub mod Refusal
pub mod Decided
mod Tests
use cxxmcp.Prelude.{Bool, true, false, Bytes, text, Option, none, some, [], ◌∷◌, ◌++◌}

pub record AuthChallengeConfig : Type 0 where
  pub scheme : Bytes
  pub resource_metadata_url : Option Bytes
  pub scope : Option Bytes

abbrev pub scheme_or : Bytes → Bytes → Bytes
scheme_or fallback_scheme [] = fallback_scheme
scheme_or fallback_scheme (c ∷ scheme) = c ∷ scheme

-- `has_value()`
abbrev has_value : Option Bytes → Bool
has_value none = false
has_value (some _) = true

abbrev append_url : Option Bytes → Bytes → Bytes
append_url none header = header
append_url (some []) header = header
append_url (some (c ∷ url)) header =
    ((header ++ text " resource_metadata=\"") ++ (c ∷ url)) ++ (b'"' ∷ [])

abbrev comma_after : Bool → Bytes → Bytes
comma_after true header = header ++ (b',' ∷ [])
comma_after false header = header

abbrev append_scope : Option Bytes → Option Bytes → Bytes → Bytes
append_scope url none header = header
append_scope url (some []) header = header
append_scope url (some (c ∷ scope)) header =
    ((comma_after (has_value url) header ++ text " scope=\"") ++ (c ∷ scope)) ++ (b'"' ∷ [])

unfoldable pub build_www_authenticate_header :
    AuthChallengeConfig → (fallback_scheme : Bytes) → Bytes
build_www_authenticate_header config fallback_scheme =
    append_scope config.resource_metadata_url config.scope
      (append_url config.resource_metadata_url (scheme_or fallback_scheme config.scheme))
