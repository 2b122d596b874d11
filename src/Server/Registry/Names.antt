-- ===== src/Server/Registry/Names.antt =====
-- The checks of names and URIs.
use cxxmcp.Prelude.{
  refl, ℕ, ◌≤◌, ◌≡◌, ◌≢◌, ◌↔◌, ◌⊎◌, Bool, true, false, not, ◌&&◌, ◌||◌, Bytes, text, [], ◌∷◌, ◌++◌,
  All, Result, ok, err, Error, ErrorCode, error_code, ltb, leb, ◌==◌, if◌then◌else◌, length, arith,
}
use cxxmcp.Prelude.Decimal.{to_string}

abbrev max_registry_name_bytes : ℕ
max_registry_name_bytes = 1024

abbrev max_tool_name_bytes : ℕ
max_tool_name_bytes = 128

abbrev max_registry_uri_bytes : ℕ
max_registry_uri_bytes = 4096

abbrev is_control : ℕ → Bool
is_control byte = ltb byte 0x20 || byte == 0x7F

unfoldable pub contains_control_character : Bytes → Bool
contains_control_character [] = false
contains_control_character (ch ∷ rest) = is_control ch || contains_control_character rest

abbrev between : ℕ → ℕ → ℕ → Bool
between low high ch = leb low ch && leb ch high

unfoldable pub is_tool_name_char : ℕ → Bool
is_tool_name_char ch =
    between b'A' b'Z' ch
    || between b'a' b'z' ch
    || between b'0' b'9' ch
    || ch == b'.'
    || ch == b'_'
    || ch == b'-'

unfoldable pub registry_name_error : Bytes → Bytes → Error
registry_name_error message detail = record {
  code = error_code ErrorCode.invalid_request;
  message = message;
  detail = detail;
  category = [];
}

unfoldable pub validate_registry_text : Bytes → Bytes → ℕ → Result (Unit {0})
validate_registry_text [] field max_bytes =
    err (registry_name_error (field ++ text " must not be empty") field)
validate_registry_text (ch ∷ rest) field max_bytes =
    if ltb max_bytes (length (ch ∷ rest))
    then err (
        registry_name_error
          (field ++ (text " must not exceed " ++ (to_string max_bytes ++ text " bytes"))) field)
    else if contains_control_character (ch ∷ rest)
    then err (registry_name_error (field ++ text " must not contain control characters") field)
    else ok tt

unfoldable pub validate_registry_name : Bytes → Bytes → Result (Unit {0})
validate_registry_name value field = validate_registry_text value field max_registry_name_bytes

unfoldable pub validate_registry_uri : Bytes → Bytes → Result (Unit {0})
validate_registry_uri value field = validate_registry_text value field max_registry_uri_bytes

-- the loop over the characters
unfoldable pub check_tool_name_chars : Bytes → Result (Unit {0})
check_tool_name_chars [] = ok tt
check_tool_name_chars (ch ∷ rest) =
    let later = check_tool_name_chars rest in
    if not (is_tool_name_char ch)
    then err (
        registry_name_error
          (text "tool name contains invalid character '"
            ++ (ch ∷ [])
            ++ text "'; allowed: [A-Za-z0-9._-]")
          (text "tool name"))
    else later

unfoldable pub validate_tool_name : Bytes → Result (Unit {0})
validate_tool_name [] =
    err (registry_name_error (text "tool name must not be empty") (text "tool name"))
validate_tool_name (ch ∷ rest) =
    if ltb max_tool_name_bytes (length (ch ∷ rest))
    then err (
        registry_name_error
          (text "tool name must not exceed " ++ (to_string max_tool_name_bytes ++ text " bytes"))
          (text "tool name"))
    else check_tool_name_chars (ch ∷ rest)

abbrev pub IsToolNameChar : ℕ → Type 0
IsToolNameChar ch =
    ((b'A' ≤ ch) × (ch ≤ b'Z'))
    ⊎ ((b'a' ≤ ch) × (ch ≤ b'z'))
    ⊎ ((b'0' ≤ ch) × (ch ≤ b'9'))
    ⊎ (ch ≡ b'.')
    ⊎ (ch ≡ b'_')
    ⊎ (ch ≡ b'-')

is_tool_name_char_iff : (ch : ℕ) → (is_tool_name_char ch ≡ true) ↔ IsToolNameChar ch
unfolding is_tool_name_char
is_tool_name_char_iff ch = ground arith

check_tool_name_chars_iff : (s : Bytes) → (check_tool_name_chars s ≡ ok tt) ↔ All IsToolNameChar s
unfolding check_tool_name_chars
check_tool_name_chars_iff [] = (λ _. tt, λ _. refl)
check_tool_name_chars_iff (ch ∷ s) =
    let this = is_tool_name_char_iff ch in
    let later = check_tool_name_chars_iff s in
    (
      λ h. (this.0 (ground arith), later.0 (ground arith)),
      λ (h, hs). let a = this.1 h in let b = later.1 hs in ground arith,
    )

-- A tool name is accepted exactly when it has from 1 to 128 bytes, each a letter or a digit of ASCII,
-- a dot, an underscore or a dash.
pub validate_tool_name_iff :
    (s : Bytes)
    → (validate_tool_name s ≡ ok tt) ↔ ((s ≢ []) × (length s ≤ 128) × All IsToolNameChar s)
unfolding validate_tool_name
validate_tool_name_iff [] = ground arith
validate_tool_name_iff (ch ∷ s) =
    let chars = check_tool_name_chars_iff (ch ∷ s) in
    (
      λ h. (λ e. absurd (cc e), ground arith, chars.0 (ground arith)),
      λ (some_byte, short, all). let a = chars.1 all in ground arith,
    )
