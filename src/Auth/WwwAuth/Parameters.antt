-- ===== src/Auth/WwwAuth/Parameters.antt =====
-- Parameters with quoted values, as the parser reads them.
use cxxmcp.Prelude.{
  ℕ, suc, ◌≡◌, refl, ap, true, false, ◌==◌, ◌||◌, Bytes, some, [], ◌∷◌, ◌++◌, ok, All, arith,
}
use cxxmcp.Prelude.Dict.{Dict, assign}
use cxxmcp.Auth.WwwAuth.Scan.{
  span, is_ows, skip_ows, is_http_token_char, ascii_lower, parse_quoted_string, starts_parameter,
  comma_starts_parameter,
}
use cxxmcp.Auth.WwwAuth.Parser.{
  challenge_body, parse_challenge, challenges_at, parse_challenges, parse_parameter_value,
  parse_parameter, parse_parameters,
}
use cxxmcp.Auth.WwwAuth.Scanned.{Stops, span-append, rest-span, IsPlain, quoted_rest-append}

abbrev pub IsTokenChar : ℕ → Type 0
IsTokenChar c = is_http_token_char c ≡ true

not_ows : (c : ℕ) → IsTokenChar c → is_ows c ≡ false
unfolding is_http_token_char
not_ows c h = ground arith

pub not_comma : (c : ℕ) → IsTokenChar c → (c == b',') ≡ false
unfolding is_http_token_char
not_comma c h = ground arith

not_skipped : (c : ℕ) → IsTokenChar c → (is_ows c || c == b',') ≡ false
unfolding is_http_token_char
not_skipped c h = ground arith

equals-Stops : (s : Bytes) → Stops is_http_token_char (b'=' ∷ s)
unfolding is_http_token_char
equals-Stops s = refl

-- `name="value"` and what stands behind
abbrev pub quoted_parameter : Bytes → Bytes → Bytes → Bytes
quoted_parameter name value rest = name ++ (b'=' ∷ b'"' ∷ (value ++ (b'"' ∷ rest)))

module _ (c : ℕ) (name value : Bytes) (token : All IsTokenChar (c ∷ name))
    (plain : All IsPlain value) where
  skip_blank :
      (rest : Bytes)
      → skip_ows (quoted_parameter (c ∷ name) value rest) ≡ quoted_parameter (c ∷ name) value rest
  skip_blank rest = rest-span is_ows c _ (not_ows c (token.0))

  pub skip_blanks :
      (rest : Bytes)
      → skip_ows (b' ' ∷ quoted_parameter (c ∷ name) value rest)
        ≡ quoted_parameter (c ∷ name) value rest
  unfolding span
  skip_blanks rest = skip_blank rest

  name_read :
      (rest : Bytes)
      → span is_http_token_char (quoted_parameter (c ∷ name) value rest)
        ≡ (c ∷ name, b'=' ∷ b'"' ∷ (value ++ (b'"' ∷ rest)))
  name_read rest = span-append is_http_token_char (c ∷ name) _ token (equals-Stops [])

  pub parse_parameter-quoted :
      (rest : Bytes)
      → parse_parameter (quoted_parameter (c ∷ name) value rest) ≡ ok ((c ∷ name, value), rest)
  unfolding parse_parameter
  parse_parameter-quoted rest = rw (skip_blank rest) (
      rw (name_read rest) (
        unfold span parse_parameter_value parse_quoted_string in
        rw (quoted_rest-append value rest plain) refl))

  pub starts_parameter-quoted :
      (rest : Bytes) → starts_parameter (quoted_parameter (c ∷ name) value rest) ≡ true
  unfolding starts_parameter
  starts_parameter-quoted rest = rw (skip_blank rest) (rw (name_read rest) (unfold span in refl))

pub parse_parameter-blank : (s : Bytes) → parse_parameter (b' ' ∷ s) ≡ parse_parameter s
unfolding parse_parameter span
parse_parameter-blank s = refl

pub starts_parameter-blank : (s : Bytes) → starts_parameter (b' ' ∷ s) ≡ starts_parameter s
unfolding starts_parameter span
starts_parameter-blank s = refl

-- The last parameter, and one with another behind it.
pub parse_parameters_last :
    (fuel : ℕ) (parameters : Dict Bytes) (d : ℕ) (s name value : Bytes)
    → parse_parameter (d ∷ s) ≡ ok ((name, value), [])
    → parse_parameters (suc fuel) parameters (d ∷ s)
      ≡ some (ok (assign (ascii_lower name) value parameters, []))
unfolding parse_parameters span
parse_parameters_last fuel parameters d s name value found = rw found refl

pub parse_parameters_more :
    (fuel : ℕ) (parameters : Dict Bytes) (d : ℕ) (s name value t : Bytes)
    → parse_parameter (d ∷ s) ≡ ok ((name, value), b',' ∷ t)
    → starts_parameter t ≡ true
    → parse_parameters (suc fuel) parameters (d ∷ s)
      ≡ parse_parameters fuel (assign (ascii_lower name) value parameters) t
unfolding parse_parameters span comma_starts_parameter
parse_parameters_more fuel parameters d s name value t found more = rw found (rw more refl)

-- A challenge up to the end of its scheme.
pub parse_challenge-append :
    (c : ℕ) (scheme rest : Bytes)
    → All IsTokenChar (c ∷ scheme)
    → Stops is_http_token_char rest
    → parse_challenge ((c ∷ scheme) ++ rest) ≡ challenge_body (c ∷ scheme) (skip_ows rest)
unfolding parse_challenge
parse_challenge-append c scheme rest token stop =
    rw (span-append is_http_token_char (c ∷ scheme) rest token stop) refl

pub parse_challenges-token :
    (fuel c : ℕ) (s : Bytes)
    → IsTokenChar c
    → parse_challenges (suc fuel) (c ∷ s) ≡ challenges_at (parse_challenges fuel) (c ∷ s)
unfolding parse_challenges
parse_challenges-token fuel c s token =
    ap (challenges_at (parse_challenges fuel)) (rest-span _ c s (not_skipped c token))
