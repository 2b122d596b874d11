-- ===== src/Server/AuthChallenge/ReadBack.antt =====
-- The client's parser on the header that the server builds.
use cxxmcp.Prelude.{
  ℕ, suc, ◌≡◌, refl, sym, ap, ◌∙◌, Bytes, codes, text, bytes_eq, Option, none, some, [], ◌∷◌, ◌++◌,
  append_assoc, append-nil, ok, All, length, arith,
}
use cxxmcp.Prelude.Dict.{Dict, assign}
use cxxmcp.Auth.WwwAuth.Scan.{span, skip_ows, is_http_token_char, ascii_lower}
use cxxmcp.Auth.WwwAuth.Scanned.{Stops, IsPlain}
use cxxmcp.Auth.WwwAuth.Parser.{
  WwwAuthenticateChallenge, parse_parameters, challenge_body, parse_www_authenticate,
}
use cxxmcp.Auth.WwwAuth.Parameters.{
  IsTokenChar, not_comma, quoted_parameter, skip_blanks, parse_parameter-blank,
  starts_parameter-blank, parse_parameter-quoted, starts_parameter-quoted, parse_parameters_last,
  parse_parameters_more, parse_challenge-append, parse_challenges-token,
}
use cxxmcp.Server.AuthChallenge.{
  AuthChallengeConfig, scheme_or, append_url, append_scope, build_www_authenticate_header,
}

-- A name of a scheme: a token, not an empty one.
abbrev pub IsToken : Bytes → Type 0
IsToken [] = ⊥
IsToken (c ∷ s) = All IsTokenChar (c ∷ s)

-- A value that is left out, or is not empty and needs no escape.
abbrev pub IsWritable : Option Bytes → Type 0
IsWritable none = Unit
IsWritable (some []) = ⊥
IsWritable (some (c ∷ s)) = All IsPlain (c ∷ s)

abbrev pub member_of : Bytes → Option Bytes → Dict Bytes
member_of name none = []
member_of name (some value) = (name, value) ∷ []

abbrev pub challenge_of : AuthChallengeConfig → Bytes → WwwAuthenticateChallenge
challenge_of config fallback_scheme = record {
  scheme = scheme_or fallback_scheme config.scheme;
  token68 = none;
  parameters =
      member_of (text "resource_metadata") config.resource_metadata_url
      ++ member_of (text "scope") config.scope;
}

abbrev url_name : Bytes
url_name = codes "resource_metadata"

abbrev pub scope_name : Bytes
scope_name = codes "scope"

is_url_name : All IsTokenChar url_name
unfolding is_http_token_char
is_url_name = ground arith

is_scope_name : All IsTokenChar scope_name
unfolding is_http_token_char
is_scope_name = ground arith

abbrev scheme_alone : Bytes → WwwAuthenticateChallenge
scheme_alone scheme = record { scheme = scheme; token68 = none; parameters = [] }

module _ (c : ℕ) (scheme : Bytes) (token : All IsTokenChar (c ∷ scheme)) where
  -- A header that is one challenge.
  one_challenge :
      (rest : Bytes) (challenge : WwwAuthenticateChallenge)
      → Stops is_http_token_char rest
      → challenge_body (c ∷ scheme) (skip_ows rest) ≡ some (ok (challenge, []))
      → parse_www_authenticate ((c ∷ scheme) ++ rest) ≡ some (ok (challenge ∷ []))
  unfolding parse_www_authenticate
  one_challenge rest challenge stop body =
      parse_challenges-token _ c (scheme ++ rest) token.0
      ∙ rw (parse_challenge-append c scheme rest token stop) (rw body refl)

  -- A challenge with parameters.
  with_parameters_lem :
      (d : ℕ) (name value rest : Bytes) (parameters : Dict Bytes)
      → All IsTokenChar (d ∷ name)
      → All IsPlain value
      → parse_parameters
          (suc (length (quoted_parameter (d ∷ name) value rest)))
          []
          (quoted_parameter (d ∷ name) value rest)
        ≡ some (ok (parameters, []))
      → challenge_body (c ∷ scheme) (quoted_parameter (d ∷ name) value rest)
        ≡ some (ok (record { scheme = c ∷ scheme; token68 = none; parameters = parameters }, []))
  with_parameters_lem d name value rest parameters is_name plain read =
      rw (not_comma d is_name.0)
        (rw (starts_parameter-quoted d name value is_name plain rest) (rw read refl))

  alone_read : parse_www_authenticate (c ∷ scheme) ≡ some (ok (scheme_alone (c ∷ scheme) ∷ []))
  unfolding span
  alone_read =
      ap parse_www_authenticate (sym (append-nil (c ∷ scheme)))
      ∙ one_challenge [] (scheme_alone (c ∷ scheme)) tt refl

  single_read :
      (d : ℕ) (name value : Bytes)
      → All IsTokenChar (d ∷ name)
      → All IsPlain value
      → parse_www_authenticate ((c ∷ scheme) ++ (b' ' ∷ quoted_parameter (d ∷ name) value []))
        ≡ some (
            ok (
              record {
                scheme = c ∷ scheme;
                token68 = none;
                parameters = (ascii_lower (d ∷ name), value) ∷ [];
              }
              ∷ []))
  unfolding assign is_http_token_char
  single_read d name value is_name plain = one_challenge _ _ refl (
      ap (challenge_body (c ∷ scheme)) (skip_blanks d name value is_name plain [])
      ∙ with_parameters_lem d name value [] _ is_name plain (
          parse_parameters_last _ [] d _ (d ∷ name) value
            (parse_parameter-quoted d name value is_name plain [])))

  double_read :
      (url scope : Bytes)
      → All IsPlain url
      → All IsPlain scope
      → parse_www_authenticate (
          (c ∷ scheme)
          ++ (b' '
              ∷ quoted_parameter url_name url (b',' ∷ b' ' ∷ quoted_parameter scope_name scope [])))
        ≡ some (
            ok (
              record {
                scheme = c ∷ scheme;
                token68 = none;
                parameters = (url_name, url) ∷ (scope_name, scope) ∷ [];
              }
              ∷ []))
  unfolding assign is_http_token_char ascii_lower bytes_eq
  double_read url scope plain_url plain_scope =
      let second = quoted_parameter scope_name scope [] in
      one_challenge _ _ refl (
        ap (challenge_body (c ∷ scheme))
          (skip_blanks b'r' (codes "esource_metadata") url is_url_name plain_url _)
        ∙ with_parameters_lem b'r' (codes "esource_metadata") url (b',' ∷ b' ' ∷ second) _
            is_url_name plain_url
            (parse_parameters_more _ [] _ _ url_name url (b' ' ∷ second)
                (parse_parameter-quoted b'r' (codes "esource_metadata") url is_url_name plain_url _)
                (starts_parameter-blank second
                  ∙ starts_parameter-quoted b's' (codes "cope") scope is_scope_name plain_scope [])
              ∙ parse_parameters_last _ _ _ _ scope_name scope (
                  parse_parameter-blank second
                  ∙ parse_parameter-quoted b's' (codes "cope") scope is_scope_name plain_scope [])))

abbrev IsRead : Bytes → WwwAuthenticateChallenge → Type 0
IsRead header challenge = parse_www_authenticate header ≡ some (ok (challenge ∷ []))

-- The headers by their parts.
module _ (c : ℕ) (scheme : Bytes) (token : All IsTokenChar (c ∷ scheme)) where
  built-IsRead :
      (url scope : Option Bytes)
      → IsWritable url
      → IsWritable scope
      → IsRead (append_scope url scope (append_url url (c ∷ scheme))) (record {
        scheme = c ∷ scheme;
        token68 = none;
        parameters = member_of (text "resource_metadata") url ++ member_of (text "scope") scope;
      })
  unfolding text ascii_lower
  built-IsRead (some []) scope hu hs = absurd hu
  built-IsRead none (some []) hu hs = absurd hs
  built-IsRead (some (u ∷ url)) (some []) hu hs = absurd hs
  built-IsRead none none hu hs = alone_read c scheme token
  built-IsRead (some (u ∷ url)) none hu hs =
      ap parse_www_authenticate (simp append_assoc)
      ∙ single_read c scheme token b'r' (codes "esource_metadata") (u ∷ url) is_url_name hu
  built-IsRead none (some (v ∷ scope)) hu hs =
      ap parse_www_authenticate (simp append_assoc)
      ∙ single_read c scheme token b's' (codes "cope") (v ∷ scope) is_scope_name hs
  built-IsRead (some (u ∷ url)) (some (v ∷ scope)) hu hs =
      ap parse_www_authenticate (simp append_assoc)
      ∙ double_read c scheme token (u ∷ url) (v ∷ scope) hu hs

-- The header that the server builds is read by the client as one challenge: its scheme, the URL of the
-- resource's metadata and the scope, as far as they are given, and no other parameter. It holds if the
-- scheme is a token, and a URL or scope that is given is not empty and has no quote and no backslash.
pub parse-build_www_authenticate_header :
    (config : AuthChallengeConfig) (fallback_scheme : Bytes)
    → IsToken (scheme_or fallback_scheme config.scheme)
    → IsWritable config.resource_metadata_url
    → IsWritable config.scope
    → parse_www_authenticate (build_www_authenticate_header config fallback_scheme)
      ≡ some (ok (challenge_of config fallback_scheme ∷ []))
unfolding build_www_authenticate_header
parse-build_www_authenticate_header config fallback_scheme token url scope =
    by_scheme (scheme_or fallback_scheme config.scheme) token
  where
    by_scheme :
        (scheme : Bytes)
        → IsToken scheme
        → IsRead
            (append_scope config.resource_metadata_url config.scope
              (append_url config.resource_metadata_url scheme))
            (record {
              scheme = scheme;
              token68 = none;
              parameters =
                  member_of (text "resource_metadata") config.resource_metadata_url
                  ++ member_of (text "scope") config.scope;
            })
    by_scheme [] h = absurd h
    by_scheme (c ∷ scheme) h =
        built-IsRead c scheme h config.resource_metadata_url config.scope url scope
