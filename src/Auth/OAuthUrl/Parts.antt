-- ===== src/Auth/OAuthUrl/Parts.antt =====
-- The scheme and the host of a URL, and the tests of its security, of
-- sdk/auth/include/cxxmcp/auth/lifecycle.hpp.
use mathlib.Core.Option.{map as option_map}
use cxxmcp.Prelude.{
  Bool, not, ◌&&◌, ◌||◌, ◌==◌, if◌then◌else◌, Bytes, text, bytes_eq, Option, none, some, [], ◌∷◌,
}
use cxxmcp.Auth.WwwAuth.Scan.{span, ascii_iequals}

abbrev after_separator : Bytes → Option Bytes
after_separator (a ∷ b ∷ c ∷ rest) = if a == b':' && b == b'/' && c == b'/' then some rest else none
after_separator _ = none

-- what stands before and behind the first `://`
abbrev split_scheme : Bytes → Option (Bytes × Bytes)
split_scheme [] = none
split_scheme (ch ∷ s) =
    let later = split_scheme s in
    elim (after_separator (ch ∷ s)) [
      | some rest ↦ some ([], rest)
      | none ↦ option_map (λ found. (ch ∷ found.0, found.1)) later
    ]

unfoldable pub url_scheme : Bytes → Bytes
url_scheme url = elim (split_scheme url) [ none ↦ [] | some (scheme, rest) ↦ scheme ]

-- behind the last `@`
abbrev after_userinfo : Bytes → Option Bytes
after_userinfo [] = none
after_userinfo (ch ∷ s) =
    let later = after_userinfo s in
    elim later [ some rest ↦ some rest | none ↦ if ch == b'@' then some s else none ]

abbrev until_bracket : Bytes → Bytes
until_bracket s =
    let (inside, rest) = span (λ ch. not (ch == b']')) s in elim rest [ [] ↦ [] | _ ∷ _ ↦ inside ]

abbrev host_of : Bytes → Bytes
host_of [] = []
host_of (ch ∷ s) = if ch == b'[' then until_bracket s else (span (λ c. not (c == b':')) (ch ∷ s)).0

abbrev authority_of : Bytes → Bytes
authority_of rest = (span (λ ch. not (ch == b'/' || ch == b'?' || ch == b'#')) rest).0

abbrev without_userinfo : Bytes → Bytes
without_userinfo authority = elim (after_userinfo authority) [ some rest ↦ rest | none ↦ authority ]

unfoldable pub url_host : Bytes → Bytes
url_host url = elim (split_scheme url) [
  | none ↦ []
  | some (scheme, rest) ↦ host_of (without_userinfo (authority_of rest))
]

unfoldable pub url_uses_https : Bytes → Bool
url_uses_https url = ascii_iequals (url_scheme url) (text "https")

unfoldable pub url_uses_loopback_http : Bytes → Bool
url_uses_loopback_http url =
    ascii_iequals (url_scheme url) (text "http")
    && (ascii_iequals (url_host url) (text "localhost")
        || bytes_eq (url_host url) (text "127.0.0.1")
        || bytes_eq (url_host url) (text "::1"))

unfoldable pub redirect_uri_is_secure : Bytes → Bool
redirect_uri_is_secure url = url_uses_https url || url_uses_loopback_http url
