-- ===== src/Auth/OAuthUrl.antt =====
-- Query parameters and scope lists of sdk/auth/include/cxxmcp/auth/lifecycle.hpp. `isalnum` is that of
-- the "C" locale.
pub mod Decoding
pub mod Scopes
pub mod Reader
pub mod Query
pub mod Parts
pub mod Request
mod Tests
use cxxmcp.Prelude.{
  ℕ, ◌+◌, ◌/◌, ◌%◌, Bool, true, false, not, ◌&&◌, ◌||◌, leb, ltb, ◌==◌, if◌then◌else◌, Bytes, text,
  bytes_eq, List, [], ◌∷◌, ◌++◌,
}

unfoldable pub is_unreserved : ℕ → Bool
is_unreserved ch =
    (leb b'0' ch && leb ch b'9')
    || (leb b'A' ch && leb ch b'Z')
    || (leb b'a' ch && leb ch b'z')
    || ch == b'-'
    || ch == b'_'
    || ch == b'.'
    || ch == b'~'

-- an uppercase digit of `std::hex`
abbrev pub hex_digit : ℕ → ℕ
hex_digit n = if ltb n 10 then n + b'0' else n + 55

-- two digits, the first of which may be the fill character
abbrev pub escape : ℕ → Bytes → Bytes
escape ch rest = b'%' ∷ hex_digit (ch / 16) ∷ hex_digit (ch % 16) ∷ rest

unfoldable pub oauth_url_encode : Bytes → Bytes
oauth_url_encode [] = []
oauth_url_encode (ch ∷ s) =
    let rest = oauth_url_encode s in if is_unreserved ch then ch ∷ rest else escape ch rest

-- `url->find('?') != npos`
abbrev pub has_query : Bytes → Bool
has_query [] = false
has_query (ch ∷ s) = ch == b'?' || has_query s

unfoldable pub append_query_param : Bytes → (name value : Bytes) → Bytes
append_query_param url name value =
    ((url ++ ((if has_query url then b'&' else b'?') ∷ [])) ++ oauth_url_encode name)
    ++ (b'=' ∷ oauth_url_encode value)

abbrev is_empty : Bytes → Bool
is_empty [] = true
is_empty (_ ∷ _) = false

abbrev pub with_space : Bytes → Bytes
with_space [] = []
with_space (ch ∷ s) = (ch ∷ s) ++ b' ' ∷ []

-- The loop, with what is joined so far.
unfoldable pub join_loop : (joined : Bytes) → List Bytes → Bytes
join_loop joined [] = joined
join_loop joined ([] ∷ scopes) = join_loop joined scopes
join_loop joined ((ch ∷ scope) ∷ scopes) = join_loop (with_space joined ++ ch ∷ scope) scopes

unfoldable pub join_scopes : List Bytes → Bytes
join_scopes scopes = join_loop [] scopes

unfoldable pub has_scope : List Bytes → Bytes → Bool
has_scope [] scope = false
has_scope (s ∷ scopes) scope = bytes_eq s scope || has_scope scopes scope

unfoldable pub append_unique : List Bytes → Bytes → List Bytes
append_unique values value =
    if is_empty value || has_scope values value then values else values ++ value ∷ []

abbrev first_given : List Bytes → List Bytes → List Bytes
first_given [] others = others
first_given (s ∷ scopes) others = s ∷ scopes

-- The challenge's scopes, the resource's, the authorization server's, and the defaults.
unfoldable pub select_authorization_scopes :
    (www_authenticate protected_resource authorization_server default : List Bytes) → List Bytes
select_authorization_scopes www_authenticate protected_resource authorization_server default =
    first_given www_authenticate
      (first_given protected_resource (first_given authorization_server default))

unfoldable pub add_offline_access_if_supported :
    List Bytes → (scopes_supported : List Bytes) → List Bytes
add_offline_access_if_supported [] scopes_supported = []
add_offline_access_if_supported (s ∷ scopes) scopes_supported =
    if has_scope (s ∷ scopes) (text "offline_access")
    then s ∷ scopes
    else (if has_scope scopes_supported (text "offline_access")
        then (s ∷ scopes) ++ text "offline_access" ∷ []
        else s ∷ scopes)
