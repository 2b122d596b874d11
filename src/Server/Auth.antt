-- ===== src/Server/Auth.antt =====
-- sdk/server/include/cxxmcp/server/auth.hpp: the provider of static bearer tokens. `isspace` and
-- `tolower` are those of the "C" locale.
pub mod Tokens
pub mod Padded
mod Tests
use cxxmcp.Prelude.{
  ℕ, ◌+◌, ◌-◌, ◌%◌, ◌≡◌, Bool, true, false, not, ◌&&◌, ◌||◌, leb, ltb, ◌==◌, if◌then◌else◌, bit_or,
  bit_xor, Bytes, text, Option, none, some, List, [], ◌∷◌, ◌++◌, Result, ok, err, Error, ErrorCode,
  error_code, length, take, drop,
}
use cxxmcp.Prelude.Dict.{Dict}

abbrev pub lower : ℕ → ℕ
lower ch = if leb b'A' ch && leb ch b'Z' then ch - b'A' + b'a' else ch

unfoldable pub ascii_iequals : Bytes → Bytes → Bool
ascii_iequals [] [] = true
ascii_iequals (a ∷ s) (b ∷ t) = lower a == lower b && ascii_iequals s t
ascii_iequals _ _ = false

-- The loop over the indices below the larger size; `diff` is an `unsigned char`.
unfoldable pub diff_loop : Bytes → Bytes → ℕ → ℕ
diff_loop [] [] diff = diff
diff_loop [] (r ∷ rhs) diff = diff_loop [] rhs (bit_or diff (bit_xor 0 r) % 256)
diff_loop (l ∷ lhs) [] diff = diff_loop lhs [] (bit_or diff (bit_xor l 0) % 256)
diff_loop (l ∷ lhs) (r ∷ rhs) diff = diff_loop lhs rhs (bit_or diff (bit_xor l r) % 256)

unfoldable pub constant_time_string_equal : Bytes → Bytes → Bool
constant_time_string_equal lhs rhs =
    diff_loop lhs rhs (bit_xor (length lhs) (length rhs) % 256) == 0

abbrev pub is_space : ℕ → Bool
is_space ch = ch == b' ' || (leb 9 ch && leb ch 13)

abbrev trim_front : Bytes → Bytes
trim_front [] = []
trim_front (ch ∷ s) = let rest = trim_front s in if is_space ch then rest else ch ∷ s

abbrev kept_end : ℕ → Bytes → Bytes
kept_end ch [] = if is_space ch then [] else ch ∷ []
kept_end ch (next ∷ s) = ch ∷ next ∷ s

abbrev trim_back : Bytes → Bytes
trim_back [] = []
trim_back (ch ∷ s) = kept_end ch (trim_back s)

unfoldable pub trim_ascii : Bytes → Bytes
trim_ascii value = trim_back (trim_front value)

-- what stands behind the scheme: white space, or else nothing
abbrev behind_scheme : Bytes → Bytes
behind_scheme [] = []
behind_scheme (ch ∷ s) = if is_space ch then trim_ascii (ch ∷ s) else []

unfoldable pub bearer_token_from_authorization : Bytes → Bytes
bearer_token_from_authorization authorization =
    let trimmed = trim_ascii authorization in
    if ltb 6 (length trimmed) && ascii_iequals (take 6 trimmed) (text "Bearer")
    then behind_scheme (drop 6 trimmed)
    else []

pub record AuthRequest : Type 0 where
  pub headers : Dict Bytes
  pub remote_address : Bytes
  pub http_method : Option Bytes
  pub http_url : Option Bytes

pub record AuthIdentity : Type 0 where
  pub subject : Bytes
  pub claims : Dict Bytes

unfoldable pub make_auth_error : Bytes → Bytes → Error
make_auth_error message detail = record {
  code = error_code ErrorCode.permission_denied;
  message = message;
  detail = detail;
  category = text "auth";
}

-- `StaticBearerAuthProvider::Entry`
pub record Entry : Type 0 where
  pub token : Bytes
  pub identity : AuthIdentity

unfoldable pub add_token : Bytes → AuthIdentity → List Entry → List Entry
add_token token identity entries = entries ++ record { token = token; identity = identity } ∷ []

unfoldable pub bearer_token : Dict Bytes → Bytes
bearer_token [] = []
bearer_token ((name, value) ∷ headers) =
    let later = bearer_token headers in
    if ascii_iequals name (text "Authorization")
    then bearer_token_from_authorization value
    else later

abbrev pub missing : Result AuthIdentity
missing = err (make_auth_error (text "missing or invalid bearer token") [])

unfoldable pub identity_of : Bytes → List Entry → Result AuthIdentity
identity_of token [] = missing
identity_of token (entry ∷ entries) =
    let later = identity_of token entries in
    if constant_time_string_equal token entry.token then ok entry.identity else later

abbrev identity_of_token : Bytes → List Entry → Result AuthIdentity
identity_of_token [] entries = missing
identity_of_token (ch ∷ token) entries = identity_of (ch ∷ token) entries

unfoldable pub authenticate : List Entry → AuthRequest → Result AuthIdentity
authenticate entries request = identity_of_token (bearer_token request.headers) entries
