-- ===== src/Auth/Base64Url/Canonical.antt =====
-- The decoder accepts nothing but the encoder's output.
use cxxmcp.Prelude.{
  ℕ, ◌+◌, ◌*◌, ◌/◌, ◌%◌, ◌<◌, ◌≡◌, ◌≢◌, ◌↔◌, refl, sym, ◌∙◌, Bytes, [], ◌∷◌, ◌++◌, some, arith,
  append_assoc, append-nil, ok, length, All, IsByte, inl, inr, Option-cases,
}
use cxxmcp.Auth.Base64Url.{symbol, shift_in, decode_value, decode_loop, encode_bytes, decode}
use cxxmcp.Auth.Base64Url.Symbols.{symbol-decode_value}
use cxxmcp.Auth.Base64Url.Encoded.{
  shift_in_lem, decode_loop_zero, first_byte, second_byte, third_byte, decode_two_symbols,
  decode_three_symbols, decode_four_symbols,
}
use cxxmcp.Auth.Base64Url.Decoded.{
  encode_one, encode_two, encode_three, decode_end_zero, decode_end_four, decode_end_two,
  decode-encode_bytes,
}

-- A round of the loop that succeeds has read a symbol.
read_symbol :
    (c : ℕ) (s : Bytes) (a bits : ℕ) (out r : Bytes)
    → decode_loop (c ∷ s) a bits out ≡ ok r
    → (v : ℕ) × (decode_value c ≡ some v) × (symbol v ≡ c) × (v < 64)
unfolding decode_loop
read_symbol c s a bits out r h = elim (Option-cases (decode_value c)) [
  | inl e ↦ absurd (cc (rw (e, decode_loop) at h))
  | inr (v, e) ↦ let known = symbol-decode_value c v e in (v, e, known.0, known.1)
]

-- What was written before the loop's end, with the encoding of it as the text that was read.
abbrev Encodes : Bytes → Bytes → Bytes → Type 0
Encodes s out r = (d : Bytes) × (r ≡ out ++ d) × (s ≡ encode_bytes d) × All IsByte d

two_left :
    (c0 c1 a : ℕ) (out r : Bytes)
    → decode_loop (c0 ∷ c1 ∷ []) a 0 out ≡ ok r
    → Encodes (c0 ∷ c1 ∷ []) out r
unfolding encode_bytes
two_left c0 c1 a out r h =
    let (v0, r0, e0, h0) = read_symbol c0 _ a 0 out r h in
    let (v1, r1, e1, h1) =
      read_symbol c1 _ _ 6 out r (sym (decode_loop_zero c0 v0 r0 _ a out) ∙ h) in
    let (zeros, same) =
      (decode_end_four _ _ r).0 (sym (decode_two_symbols c0 c1 v0 v1 r0 r1 h0 h1 [] a out) ∙ h) in
    let low : v1 % 16 ≡ 0 = omega (arith, shift_in_lem (shift_in a v0) v1 h1) in
    let b = first_byte v0 v1 in
    let s0 : b / 4 ≡ v0 = omega arith in
    let s1 : b % 4 * 16 ≡ v1 = omega arith in
    (b ∷ [], sym same, sym (encode_one b (omega arith) ∙ rw (s0, s1, e0, e1)), (omega arith, tt))

three_left :
    (c0 c1 c2 a : ℕ) (out r : Bytes)
    → decode_loop (c0 ∷ c1 ∷ c2 ∷ []) a 0 out ≡ ok r
    → Encodes (c0 ∷ c1 ∷ c2 ∷ []) out r
unfolding encode_bytes
three_left c0 c1 c2 a out r h =
    let (v0, r0, e0, h0) = read_symbol c0 _ a 0 out r h in
    let (v1, r1, e1, h1) =
      read_symbol c1 _ _ 6 out r (sym (decode_loop_zero c0 v0 r0 _ a out) ∙ h) in
    let (v2, r2, e2, h2) =
      read_symbol c2 _ _ 4 _ r
        (sym (decode_two_symbols c0 c1 v0 v1 r0 r1 h0 h1 (c2 ∷ []) a out) ∙ h) in
    let (zeros, same) =
      (decode_end_two _ _ r).0
        (sym (decode_three_symbols c0 c1 v0 v1 r0 r1 h0 h1 c2 v2 r2 h2 [] a out) ∙ h) in
    let low : v2 % 4 ≡ 0 = omega (arith, shift_in_lem (shift_in (shift_in a v0) v1) v2 h2) in
    let b0 = first_byte v0 v1 in
    let b1 = second_byte v1 v2 in
    let s0 : b0 / 4 ≡ v0 = omega arith in
    let s1 : b0 % 4 * 16 + b1 / 16 ≡ v1 = omega arith in
    let s2 : b1 % 16 * 4 ≡ v2 = omega arith in
    (
      b0 ∷ b1 ∷ [],
      sym same,
      sym (encode_two b0 b1 (omega arith) (omega arith) ∙ rw (s0, s1, s2, e0, e1, e2)),
      (omega arith, (omega arith, tt)),
    )

canonical_loop :
    (s : Bytes) (a : ℕ) (out r : Bytes)
    → length s % 4 ≢ 1
    → decode_loop s a 0 out ≡ ok r
    → Encodes s out r
unfolding encode_bytes
canonical_loop [] a out r odd h =
    ([], rw append-nil (sym (ground (arith, decode_end_zero a out))), refl, tt)
canonical_loop (c0 ∷ []) a out r odd h = absurd (odd (omega arith))
canonical_loop (c0 ∷ c1 ∷ []) a out r odd h = two_left c0 c1 a out r h
canonical_loop (c0 ∷ c1 ∷ c2 ∷ []) a out r odd h = three_left c0 c1 c2 a out r h
canonical_loop (c0 ∷ c1 ∷ c2 ∷ c3 ∷ s) a out r odd h =
    let (v0, r0, e0, h0) = read_symbol c0 _ a 0 out r h in
    let (v1, r1, e1, h1) =
      read_symbol c1 _ _ 6 out r (sym (decode_loop_zero c0 v0 r0 _ a out) ∙ h) in
    let (v2, r2, e2, h2) =
      read_symbol c2 _ _ 4 _ r
        (sym (decode_two_symbols c0 c1 v0 v1 r0 r1 h0 h1 (c2 ∷ c3 ∷ s) a out) ∙ h) in
    let (v3, r3, e3, h3) =
      read_symbol c3 _ _ 2 _ r
        (sym (decode_three_symbols c0 c1 v0 v1 r0 r1 h0 h1 c2 v2 r2 h2 (c3 ∷ s) a out) ∙ h) in
    let (d, same, enc, bytes) =
      canonical_loop s _ _ r (omega arith)
        (sym (decode_four_symbols c0 c1 v0 v1 r0 r1 h0 h1 c2 v2 c3 v3 r2 h2 r3 h3 s a out) ∙ h) in
    let b0 = first_byte v0 v1 in
    let b1 = second_byte v1 v2 in
    let b2 = third_byte v2 v3 in
    let s0 : b0 / 4 ≡ v0 = omega arith in
    let s1 : b0 % 4 * 16 + b1 / 16 ≡ v1 = omega arith in
    let s2 : b1 % 16 * 4 + b2 / 64 ≡ v2 = omega arith in
    let s3 : b2 % 64 ≡ v3 = omega arith in
    (
      b0 ∷ b1 ∷ b2 ∷ d,
      same ∙ append_assoc out _ d,
      sym (
          rw (
            encode_three b0 b1 b2 (omega arith) (omega arith) (omega arith),
            s0,
            s1,
            s2,
            s3,
            e0,
            e1,
            e2,
            e3,
            ← enc,
          )),
      (omega arith, (omega arith, (omega arith, bytes))),
    )

-- The decoder returns `bytes` for a text exactly when the text is the encoding of `bytes` and these
-- are bytes; so padding, other characters, a length of 1 modulo 4 and non-zero trailing bits are
-- all refused, and no two texts decode to the same bytes.
pub decode-eq-ok_iff :
    (input bytes : Bytes)
    → (decode input ≡ ok bytes) ↔ ((input ≡ encode_bytes bytes) × All IsByte bytes)
decode-eq-ok_iff input bytes = (canonical, λ h. cc (h.0, decode-encode_bytes bytes h.1))
  where
    checked :
        decode input ≡ ok bytes → (length input % 4 ≢ 1) × (decode_loop input 0 0 [] ≡ ok bytes)
    checked h = unfold decode in ground arith

    canonical : decode input ≡ ok bytes → (input ≡ encode_bytes bytes) × All IsByte bytes
    canonical h =
        let (odd, run) = checked h in
        let (d, same, enc, all_bytes) = canonical_loop input 0 [] bytes odd run in
        (rw same enc, rw same all_bytes)
