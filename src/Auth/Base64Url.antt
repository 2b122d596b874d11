-- ===== src/Auth/Base64Url.antt =====
-- sdk/auth/include/cxxmcp/auth/openssl/base64url.hpp. A byte is a number below 256, and a `char`
-- is its byte: one from 128 on, negative where `char` is signed, is in no range that is tested.
pub mod Symbols
pub mod Encoded
pub mod Decoded
pub mod Canonical
mod Tests
use cxxmcp.Prelude.{
  ℕ, ◌+◌, ◌-◌, ◌*◌, ◌/◌, ◌%◌, ◌^◌, bit_and, bit_or, Bool, true, false, not, ◌&&◌, ◌||◌, Bytes,
  codes, text, List, [], ◌∷◌, ◌++◌, Option, none, some, Result, ok, err, Error, pos, ltb, leb, ◌==◌,
  length, get_or, if◌then◌else◌,
}

pub data JoseErrorCode : Type 0 where
  invalid_base64_url invalid_compact_jws invalid_jose_header invalid_jwk : JoseErrorCode
  unsupported_jose_algorithm signature_verification_failed : JoseErrorCode
  jwt_claim_validation_failed : JoseErrorCode

jose_code : JoseErrorCode → ℕ
jose_code invalid_base64_url = 2001
jose_code invalid_compact_jws = 2002
jose_code invalid_jose_header = 2003
jose_code invalid_jwk = 2004
jose_code unsupported_jose_algorithm = 2005
jose_code signature_verification_failed = 2006
jose_code jwt_claim_validation_failed = 2007

unfoldable pub make_jose_error : JoseErrorCode → Bytes → Bytes → Error
unfolding jose_code
make_jose_error code message detail = record {
  code = pos (jose_code code);
  message = message;
  detail = detail;
  category = text "auth";
}

abbrev pub alphabet : Bytes
alphabet = codes "ABCDEFGHIJKLMNOPQRSTUVWXYZabcdefghijklmnopqrstuvwxyz0123456789-_"

unfoldable pub symbol : ℕ → ℕ
symbol i = get_or alphabet i 0

-- One round of the encoder's loop; `b1` and `b2` are 0 where fewer bytes remain.
unfoldable pub encode_round : ℕ → ℕ → ℕ → ℕ → Bytes
encode_round remaining b0 b1 b2 =
    symbol (bit_and (b0 / 4) 0x3F)
    ∷ symbol (bit_or (bit_and b0 0x03 * 16) (bit_and (b1 / 16) 0x0F))
    ∷ ((if ltb 1 remaining
          then symbol (bit_or (bit_and b1 0x0F * 4) (bit_and (b2 / 64) 0x03)) ∷ []
          else [])
        ++ (if ltb 2 remaining then symbol (bit_and b2 0x3F) ∷ [] else []))

unfoldable pub encode_bytes : Bytes → Bytes
encode_bytes [] = []
encode_bytes (b0 ∷ []) = encode_round 1 b0 0 0
encode_bytes (b0 ∷ b1 ∷ []) = encode_round 2 b0 b1 0
encode_bytes (b0 ∷ b1 ∷ b2 ∷ rest) = encode_round 3 b0 b1 b2 ++ encode_bytes rest

-- `none` is the -1 of the source.
unfoldable pub decode_value : ℕ → Option ℕ
decode_value ch =
    if leb b'A' ch && leb ch b'Z'
    then some (ch - b'A')
    else if leb b'a' ch && leb ch b'z'
    then some (ch - b'a' + 26)
    else if leb b'0' ch && leb ch b'9'
    then some (ch - b'0' + 52)
    else if ch == b'-'
    then some 62
    else if ch == b'_'
    then some 63
    else none

abbrev pub malformed {ℓ} : {A : Type ℓ} → Bytes → Bytes → Result A
malformed message detail = err (make_jose_error invalid_base64_url message detail)

-- `accumulator = (accumulator << 6) | value`, a `uint32_t`
unfoldable pub shift_in : ℕ → ℕ → ℕ
shift_in accumulator value = bit_or (accumulator * 64 % 2 ^ 32) value

-- the test of the trailing bits, after the loop
unfoldable pub decode_end : ℕ → ℕ → Bytes → Result Bytes
decode_end accumulator bits output =
    let unused_mask = (if bits == 0 then 0 else 2 ^ bits - 1) in
    if not (bit_and accumulator unused_mask == 0)
    then malformed (text "base64url input contains non-zero trailing bits") []
    else ok output

unfoldable pub decode_loop : Bytes → ℕ → ℕ → Bytes → Result Bytes
decode_loop [] accumulator bits output = decode_end accumulator bits output
decode_loop (ch ∷ rest) accumulator bits output = elim (decode_value ch) [
  | none ↦ malformed (text "base64url input contains an invalid character") (ch ∷ [])
  | some value ↦
      let next = shift_in accumulator value in
      elim (leb 8 (bits + 6)) [
        | true ↦
            decode_loop rest next (bits + 6 - 8)
              (output ++ bit_and (next / 2 ^ (bits + 6 - 8)) 0xFF ∷ [])
        | false ↦ decode_loop rest next (bits + 6) output
      ]
]

unfoldable pub contains_byte : ℕ → Bytes → Bool
contains_byte b [] = false
contains_byte b (c ∷ s) = c == b || contains_byte b s

unfoldable pub decode : Bytes → Result Bytes
decode input =
    if contains_byte b'=' input
    then malformed (text "base64url input must not contain padding") []
    else if length input % 4 == 1
    then malformed (text "base64url input has invalid length") []
    else decode_loop input 0 0 []
