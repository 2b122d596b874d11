-- ===== src/Auth/Base64Url/Encoded.antt =====
-- What the decoder does with symbols of known values, and the encoder as such symbols.
use cxxmcp.Prelude.{
  ℕ, ◌+◌, ◌*◌, ◌/◌, ◌%◌, ◌<◌, ◌≡◌, ◌∙◌, bit_and, Bytes, [], ◌∷◌, ◌++◌, some, arith, bit_or_six,
  and_255, append_assoc,
}
use cxxmcp.Auth.Base64Url.{shift_in, decode_value, decode_loop}

pub shift_in_lem : (a v : ℕ) → v < 64 → shift_in a v ≡ a * 64 % 4294967296 + v
unfolding shift_in
shift_in_lem a v h = ground (arith, bit_or_six (a % 67108864) v h)

module _ (c v : ℕ) (read : decode_value c ≡ some v) (s : Bytes) (a : ℕ) (out : Bytes) where
  pub decode_loop_zero : decode_loop (c ∷ s) a 0 out ≡ decode_loop s (shift_in a v) 6 out
  unfolding decode_loop
  decode_loop_zero = rw (read, decode_loop)

  pub decode_loop_six :
      decode_loop (c ∷ s) a 6 out
      ≡ decode_loop s (shift_in a v) 4 (out ++ bit_and (shift_in a v / 16) 255 ∷ [])
  unfolding decode_loop
  decode_loop_six = rw (read, decode_loop)

  pub decode_loop_four :
      decode_loop (c ∷ s) a 4 out
      ≡ decode_loop s (shift_in a v) 2 (out ++ bit_and (shift_in a v / 4) 255 ∷ [])
  unfolding decode_loop
  decode_loop_four = rw (read, decode_loop)

  pub decode_loop_two :
      decode_loop (c ∷ s) a 2 out
      ≡ decode_loop s (shift_in a v) 0 (out ++ bit_and (shift_in a v / 1) 255 ∷ [])
  unfolding decode_loop
  decode_loop_two = rw (read, decode_loop)

-- The bytes that the values of consecutive symbols stand for.
abbrev pub first_byte : ℕ → ℕ → ℕ
first_byte v0 v1 = v0 * 4 + v1 / 16

abbrev pub second_byte : ℕ → ℕ → ℕ
second_byte v1 v2 = v1 % 16 * 16 + v2 / 4

abbrev pub third_byte : ℕ → ℕ → ℕ
third_byte v2 v3 = v2 % 4 * 64 + v3

shifted_first :
    (a v0 v1 : ℕ)
    → v0 < 64
    → v1 < 64
    → bit_and (shift_in (shift_in a v0) v1 / 16) 255 ≡ first_byte v0 v1
shifted_first a v0 v1 h0 h1 = omega (
  arith,
  and_255 (shift_in (shift_in a v0) v1 / 16),
  shift_in_lem a v0 h0,
  shift_in_lem (shift_in a v0) v1 h1,
)

shifted_second :
    (a v1 v2 : ℕ)
    → v1 < 64
    → v2 < 64
    → bit_and (shift_in (shift_in a v1) v2 / 4) 255 ≡ second_byte v1 v2
shifted_second a v0 v1 h0 h1 = omega (
  arith,
  and_255 (shift_in (shift_in a v0) v1 / 4),
  shift_in_lem a v0 h0,
  shift_in_lem (shift_in a v0) v1 h1,
)

shifted_third :
    (a v2 v3 : ℕ)
    → v2 < 64
    → v3 < 64
    → bit_and (shift_in (shift_in a v2) v3 / 1) 255 ≡ third_byte v2 v3
shifted_third a v0 v1 h0 h1 = omega (
  arith,
  and_255 (shift_in (shift_in a v0) v1 / 1),
  shift_in_lem a v0 h0,
  shift_in_lem (shift_in a v0) v1 h1,
)

module _ (c0 c1 v0 v1 : ℕ) (r0 : decode_value c0 ≡ some v0) (r1 : decode_value c1 ≡ some v1)
    (h0 : v0 < 64) (h1 : v1 < 64) where
  pub decode_two_symbols :
      (s : Bytes) (a : ℕ) (out : Bytes)
      → decode_loop (c0 ∷ c1 ∷ s) a 0 out
        ≡ decode_loop s (shift_in (shift_in a v0) v1) 4 (out ++ first_byte v0 v1 ∷ [])
  decode_two_symbols s a out =
      decode_loop_zero c0 v0 r0 (c1 ∷ s) a out
      ∙ decode_loop_six c1 v1 r1 s (shift_in a v0) out
      ∙ rw (shifted_first a v0 v1 h0 h1)

  pub decode_three_symbols :
      (c2 v2 : ℕ)
      → decode_value c2 ≡ some v2
      → v2 < 64
      → (s : Bytes) (a : ℕ) (out : Bytes)
      → decode_loop (c0 ∷ c1 ∷ c2 ∷ s) a 0 out
        ≡ decode_loop s
            (shift_in (shift_in (shift_in a v0) v1) v2)
            2
            (out ++ first_byte v0 v1 ∷ second_byte v1 v2 ∷ [])
  decode_three_symbols c2 v2 r2 h2 s a out =
      decode_two_symbols (c2 ∷ s) a out
      ∙ decode_loop_four c2 v2 r2 s (shift_in (shift_in a v0) v1) _
      ∙ rw (shifted_second (shift_in a v0) v1 v2 h1 h2, append_assoc)

  pub decode_four_symbols :
      (c2 v2 c3 v3 : ℕ)
      → decode_value c2 ≡ some v2
      → v2 < 64
      → decode_value c3 ≡ some v3
      → v3 < 64
      → (s : Bytes) (a : ℕ) (out : Bytes)
      → decode_loop (c0 ∷ c1 ∷ c2 ∷ c3 ∷ s) a 0 out
        ≡ decode_loop s
            (shift_in (shift_in (shift_in (shift_in a v0) v1) v2) v3)
            0
            (out ++ first_byte v0 v1 ∷ second_byte v1 v2 ∷ third_byte v2 v3 ∷ [])
  decode_four_symbols c2 v2 c3 v3 r2 h2 r3 h3 s a out =
      decode_three_symbols c2 v2 r2 h2 (c3 ∷ s) a out
      ∙ decode_loop_two c3 v3 r3 s (shift_in (shift_in (shift_in a v0) v1) v2) _
      ∙ rw (shifted_third (shift_in (shift_in a v0) v1) v2 v3 h2 h3, append_assoc)
