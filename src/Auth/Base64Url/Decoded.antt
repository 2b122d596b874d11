-- ===== src/Auth/Base64Url/Decoded.antt =====
-- The decoder on the encoder's output.
use cxxmcp.Prelude.{
  ℕ, ◌+◌, ◌*◌, ◌/◌, ◌%◌, ◌<◌, ◌≡◌, ◌≢◌, ◌↔◌, refl, ◌∙◌, Bytes, [], ◌∷◌, ◌++◌, none, arith,
  bit_or_four, bit_or_two, and_zero, and_three, and_fifteen, and_sixty_three, append_assoc,
  append-nil, ok, length, All, IsByte, false, ◌==◌,
}
use cxxmcp.Auth.Base64Url.{
  symbol, shift_in, decode_value, decode_loop, decode_end, encode_round, encode_bytes,
  contains_byte, decode,
}
use cxxmcp.Auth.Base64Url.Symbols.{decode_value-symbol}
use cxxmcp.Auth.Base64Url.Encoded.{
  shift_in_lem, first_byte, second_byte, third_byte, decode_two_symbols, decode_three_symbols,
  decode_four_symbols,
}

pub encode_one :
    (b0 : ℕ) → IsByte b0 → encode_round 1 b0 0 0 ≡ symbol (b0 / 4) ∷ symbol (b0 % 4 * 16) ∷ []
unfolding encode_round
encode_one b0 h0 = ground (
  arith,
  and_sixty_three (b0 / 4),
  and_three b0,
  and_fifteen 0,
  bit_or_four (b0 % 4) 0 (omega arith),
)

pub encode_two :
    (b0 b1 : ℕ)
    → IsByte b0
    → IsByte b1
    → encode_round 2 b0 b1 0
      ≡ symbol (b0 / 4) ∷ symbol (b0 % 4 * 16 + b1 / 16) ∷ symbol (b1 % 16 * 4) ∷ []
unfolding encode_round
encode_two b0 b1 h0 h1 = ground (
  arith,
  and_sixty_three (b0 / 4),
  and_three b0,
  and_fifteen (b1 / 16),
  bit_or_four (b0 % 4) (b1 / 16) (omega arith),
  and_fifteen b1,
  bit_or_two (b1 % 16) 0 (omega arith),
)

pub encode_three :
    (b0 b1 b2 : ℕ)
    → IsByte b0
    → IsByte b1
    → IsByte b2
    → encode_round 3 b0 b1 b2
      ≡ symbol (b0 / 4)
        ∷ symbol (b0 % 4 * 16 + b1 / 16)
        ∷ symbol (b1 % 16 * 4 + b2 / 64)
        ∷ symbol (b2 % 64)
        ∷ []
unfolding encode_round
encode_three b0 b1 b2 h0 h1 h2 = ground (
  arith,
  and_sixty_three (b0 / 4),
  and_three b0,
  and_fifteen (b1 / 16),
  bit_or_four (b0 % 4) (b1 / 16) (omega arith),
  and_fifteen b1,
  and_three (b2 / 64),
  bit_or_two (b1 % 16) (b2 / 64) (omega arith),
  and_sixty_three b2,
)

-- What the test of the trailing bits asks after 0, 4 and 2 pending bits.
pub decode_end_zero : (a : ℕ) (out : Bytes) → decode_loop [] a 0 out ≡ ok out
unfolding decode_loop decode_end
decode_end_zero a out = ground (arith, and_zero a)

pub decode_end_four :
    (a : ℕ) (out r : Bytes) → (decode_loop [] a 4 out ≡ ok r) ↔ ((a % 16 ≡ 0) × (out ≡ r))
unfolding decode_loop decode_end
decode_end_four a out r = ground (arith, and_fifteen a)

pub decode_end_two :
    (a : ℕ) (out r : Bytes) → (decode_loop [] a 2 out ≡ ok r) ↔ ((a % 4 ≡ 0) × (out ≡ r))
unfolding decode_loop decode_end
decode_end_two a out r = ground (arith, and_three a)

-- Every byte sequence decodes from its encoding, whatever the accumulator's high bits hold.
decode_loop-encode_bytes :
    (bytes : Bytes) (a : ℕ) (out : Bytes)
    → All IsByte bytes
    → decode_loop (encode_bytes bytes) a 0 out ≡ ok (out ++ bytes)
unfolding encode_bytes
decode_loop-encode_bytes [] a out h = decode_end_zero a out ∙ rw append-nil
decode_loop-encode_bytes (b0 ∷ []) a out (h0, _) =
    let v0 = b0 / 4 in
    let v1 = b0 % 4 * 16 in
    rw (encode_one b0 h0) (
      decode_two_symbols _ _ v0 v1 (decode_value-symbol v0 (omega arith))
        (decode_value-symbol v1 (omega arith)) (omega arith) (omega arith) [] a out
      ∙ (decode_end_four (shift_in (shift_in a v0) v1) _ _).1
          (omega (arith, shift_in_lem (shift_in a v0) v1 (omega arith)), ground arith))
decode_loop-encode_bytes (b0 ∷ b1 ∷ []) a out (h0, (h1, _)) =
    let v0 = b0 / 4 in
    let v1 = b0 % 4 * 16 + b1 / 16 in
    let v2 = b1 % 16 * 4 in
    rw (encode_two b0 b1 h0 h1) (
      decode_three_symbols _ _ v0 v1 (decode_value-symbol v0 (omega arith))
        (decode_value-symbol v1 (omega arith)) (omega arith) (omega arith) _ v2
        (decode_value-symbol v2 (omega arith)) (omega arith) [] a out
      ∙ (decode_end_two (shift_in (shift_in (shift_in a v0) v1) v2) _ _).1 (
        omega (arith, shift_in_lem (shift_in (shift_in a v0) v1) v2 (omega arith)),
        ground arith,
      ))
decode_loop-encode_bytes (b0 ∷ b1 ∷ b2 ∷ rest) a out (h0, (h1, (h2, h))) =
    let v0 = b0 / 4 in
    let v1 = b0 % 4 * 16 + b1 / 16 in
    let v2 = b1 % 16 * 4 + b2 / 64 in
    let v3 = b2 % 64 in
    let e0 : first_byte v0 v1 ≡ b0 = omega arith in
    let e1 : second_byte v1 v2 ≡ b1 = omega arith in
    let e2 : third_byte v2 v3 ≡ b2 = omega arith in
    rw (encode_three b0 b1 b2 h0 h1 h2) (
      decode_four_symbols _ _ v0 v1 (decode_value-symbol v0 (omega arith))
        (decode_value-symbol v1 (omega arith)) (omega arith) (omega arith) _ v2 _ v3
        (decode_value-symbol v2 (omega arith)) (omega arith) (decode_value-symbol v3 (omega arith))
        (omega arith) (encode_bytes rest) a out
      ∙ decode_loop-encode_bytes rest _ _ h
      ∙ rw (e0, e1, e2, append_assoc))

-- The encoder's output passes the two tests before the loop.
padding_is_no_symbol : (v : ℕ) → v < 64 → (symbol v == b'=') ≡ false
padding_is_no_symbol v h = ground (arith, decode_value-symbol v h, padding_no_value)
  where
    padding_no_value : decode_value b'=' ≡ none
    padding_no_value = unfold decode_value in refl

contains_byte-encode_bytes :
    (bytes : Bytes) → All IsByte bytes → contains_byte b'=' (encode_bytes bytes) ≡ false
unfolding encode_bytes contains_byte
contains_byte-encode_bytes [] h = refl
contains_byte-encode_bytes (b0 ∷ []) (h0, _) =
    ground
      (arith, encode_one b0 h0, padding_is_no_symbol (b0 / 4), padding_is_no_symbol (b0 % 4 * 16))
contains_byte-encode_bytes (b0 ∷ b1 ∷ []) (h0, (h1, _)) = ground (
  arith,
  encode_two b0 b1 h0 h1,
  padding_is_no_symbol (b0 / 4),
  padding_is_no_symbol (b0 % 4 * 16 + b1 / 16),
  padding_is_no_symbol (b1 % 16 * 4),
)
contains_byte-encode_bytes (b0 ∷ b1 ∷ b2 ∷ rest) (h0, (h1, (h2, h))) = ground (
  arith,
  encode_three b0 b1 b2 h0 h1 h2,
  padding_is_no_symbol (b0 / 4),
  padding_is_no_symbol (b0 % 4 * 16 + b1 / 16),
  padding_is_no_symbol (b1 % 16 * 4 + b2 / 64),
  padding_is_no_symbol (b2 % 64),
  contains_byte-encode_bytes rest h,
)

length-encode_bytes : (bytes : Bytes) → length (encode_bytes bytes) % 4 ≢ 1
unfolding encode_bytes encode_round
length-encode_bytes [] = omega arith
length-encode_bytes (b0 ∷ []) = omega arith
length-encode_bytes (b0 ∷ b1 ∷ []) = omega arith
length-encode_bytes (b0 ∷ b1 ∷ b2 ∷ rest) = omega (arith, length-encode_bytes rest)

pub decode-encode_bytes :
    (bytes : Bytes) → All IsByte bytes → decode (encode_bytes bytes) ≡ ok bytes
unfolding decode
decode-encode_bytes bytes h = ground (
  arith,
  contains_byte-encode_bytes bytes h,
  length-encode_bytes bytes,
  decode_loop-encode_bytes bytes 0 [] h,
)
