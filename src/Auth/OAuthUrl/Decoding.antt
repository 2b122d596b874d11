-- ===== src/Auth/OAuthUrl/Decoding.antt =====
-- Percent decoding of encoded text.
use cxxmcp.Prelude.{
  ℕ, ◌+◌, ◌-◌, ◌*◌, ◌/◌, ◌%◌, ◌≡◌, ◌<◌, refl, ap, true, false, ◌==◌, ltb, if◌then◌else◌, Bool-cases,
  inl, inr, Bytes, [], ◌∷◌, All, IsByte, arith,
}
use cxxmcp.Auth.OAuthUrl.{is_unreserved, hex_digit, oauth_url_encode}

-- What the decoder expects: a character, the first or the second digit of an escape.
pub data Expected : Type 0 where
  character high : Expected
  low : ℕ → Expected

abbrev digit_value : ℕ → ℕ
digit_value ch = if ltb ch b'A' then ch - b'0' else ch - 55

-- The decoder of RFC 3986, for escapes with uppercase digits.
unfoldable pub percent_decode : Expected → Bytes → Bytes
percent_decode expected [] = []
percent_decode character (ch ∷ s) =
    let rest = percent_decode (if ch == b'%' then high else character) s in
    if ch == b'%' then rest else ch ∷ rest
percent_decode high (ch ∷ s) = percent_decode (low (digit_value ch)) s
percent_decode (low h) (ch ∷ s) = (h * 16 + digit_value ch) ∷ percent_decode character s

not_percent : (ch : ℕ) → is_unreserved ch ≡ true → (ch == b'%') ≡ false
unfolding is_unreserved
not_percent ch h = ground arith

digit_value-hex_digit : (n : ℕ) → n < 16 → digit_value (hex_digit n) ≡ n
digit_value-hex_digit n h = ground arith

digits_lem :
    (ch : ℕ)
    → ch < 256
    → digit_value (hex_digit (ch / 16)) * 16 + digit_value (hex_digit (ch % 16)) ≡ ch
digits_lem ch h =
    rw (digit_value-hex_digit (ch / 16) (omega arith))
      (rw (digit_value-hex_digit (ch % 16) (omega arith)) (omega arith))

-- A text of bytes, encoded for a query, is what a percent decoder gives back.
pub percent_decode-oauth_url_encode :
    (s : Bytes) → All IsByte s → percent_decode character (oauth_url_encode s) ≡ s
unfolding percent_decode oauth_url_encode
percent_decode-oauth_url_encode [] hs = refl
percent_decode-oauth_url_encode (ch ∷ s) (h, hs) =
    let later = percent_decode-oauth_url_encode s hs in
    elim (Bool-cases (is_unreserved ch)) [
      | inl e ↦ rw e (rw (not_percent ch e) (ap (λ r. ch ∷ r) later))
      | inr e ↦ rw e (rw (digits_lem ch h) (ap (λ r. ch ∷ r) later))
    ]
