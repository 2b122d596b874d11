-- ===== src/Auth/WwwAuth/Scan.antt =====
-- The scanners of sdk/auth/include/cxxmcp/auth/www_auth.hpp. The input from `pos` on is a list; a
-- scanner gives what it took and the list that is left. `isalnum` is that of the "C" locale.
use cxxmcp.Prelude.{
  ℕ, ◌+◌, ◌-◌, Bool, true, false, not, ◌&&◌, ◌||◌, leb, ◌==◌, if◌then◌else◌, Bytes, text, [], ◌∷◌,
  Result, ok, err, Error, pos,
}

abbrev is_alnum : ℕ → Bool
is_alnum ch =
    (leb b'0' ch && leb ch b'9') || (leb b'A' ch && leb ch b'Z') || (leb b'a' ch && leb ch b'z')

unfoldable pub is_http_token_char : ℕ → Bool
is_http_token_char ch =
    is_alnum ch
    || ch == b'!'
    || ch == b'#'
    || ch == b'$'
    || ch == b'%'
    || ch == b'&'
    || ch == 39
    || ch == b'*'
    || ch == b'+'
    || ch == b'-'
    || ch == b'.'
    || ch == b'^'
    || ch == b'_'
    || ch == b'`'
    || ch == b'|'
    || ch == b'~'

unfoldable pub is_token68_char : ℕ → Bool
is_token68_char ch =
    is_alnum ch
    || ch == b'-'
    || ch == b'.'
    || ch == b'_'
    || ch == b'~'
    || ch == b'+'
    || ch == b'/'
    || ch == b'='

abbrev pub is_ows : ℕ → Bool
is_ows ch = ch == b' ' || ch == 9

-- `while (pos < size && p(input[pos])) ++pos;`
unfoldable pub span : (p : ℕ → Bool) → Bytes → Bytes × Bytes
span p [] = ([], [])
span p (c ∷ s) = let (taken, rest) = span p s in if p c then (c ∷ taken, rest) else ([], c ∷ s)

abbrev pub skip_ows : Bytes → Bytes
skip_ows s = (span is_ows s).1

-- `skip_ows` and the loop over commas: every blank and comma
abbrev pub skip_commas : Bytes → Bytes
skip_commas s = (span (λ ch. is_ows ch || ch == b',') s).1

abbrev pub parse_token : Bytes → Bytes × Bytes
parse_token s = span is_http_token_char s

abbrev lower : ℕ → ℕ
lower ch = if leb b'A' ch && leb ch b'Z' then ch - b'A' + b'a' else ch

unfoldable pub ascii_lower : Bytes → Bytes
ascii_lower [] = []
ascii_lower (ch ∷ s) = lower ch ∷ ascii_lower s

unfoldable pub ascii_iequals : Bytes → Bytes → Bool
ascii_iequals [] [] = true
ascii_iequals (a ∷ s) (b ∷ t) = lower a == lower b && ascii_iequals s t
ascii_iequals _ _ = false

abbrev pub www_auth_parse_error : Bytes → Error
www_auth_parse_error message = record {
  code = pos 1;
  message = message;
  detail = [];
  category = text "auth";
}

abbrev pub onto : ℕ → Result (Bytes × Bytes) → Result (Bytes × Bytes)
onto c (err e) = err e
onto c (ok (result, rest)) = ok (c ∷ result, rest)

-- The loop behind the opening quote; `escaped` says that a backslash stands before.
unfoldable pub quoted_rest : (escaped : Bool) → Bytes → Result (Bytes × Bytes)
quoted_rest true [] = err (www_auth_parse_error (text "unterminated WWW-Authenticate escape"))
quoted_rest false [] =
    err (www_auth_parse_error (text "unterminated WWW-Authenticate quoted value"))
quoted_rest true (ch ∷ s) = onto ch (quoted_rest false s)
quoted_rest false (ch ∷ s) =
    let rest = quoted_rest (ch == b'\\') s in
    if ch == b'"' then ok ([], s) else (if ch == b'\\' then rest else onto ch rest)

unfoldable pub parse_quoted_string : Bytes → Result (Bytes × Bytes)
parse_quoted_string [] = err (www_auth_parse_error (text "expected quoted WWW-Authenticate value"))
parse_quoted_string (ch ∷ s) =
    if ch == b'"'
    then quoted_rest false s
    else err (www_auth_parse_error (text "expected quoted WWW-Authenticate value"))

abbrev pub is_empty : Bytes → Bool
is_empty [] = true
is_empty (_ ∷ _) = false

-- a quote or a token behind the blanks
abbrev starts_value : Bytes → Bool
starts_value [] = false
starts_value (ch ∷ s) = ch == b'"' || is_http_token_char ch

abbrev equals_value : Bytes → Bool
equals_value [] = false
equals_value (ch ∷ s) = ch == b'=' && starts_value (skip_ows s)

unfoldable pub starts_parameter : Bytes → Bool
starts_parameter s =
    let (name, rest) = parse_token (skip_ows s) in
    not (is_empty name) && equals_value (skip_ows rest)

-- A comma, and behind it what `starts_parameter` asks for.
unfoldable pub comma_starts_parameter : Bytes → Bool
comma_starts_parameter [] = false
comma_starts_parameter (ch ∷ s) = ch == b',' && starts_parameter s
