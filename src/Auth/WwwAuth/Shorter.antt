-- ===== src/Auth/WwwAuth/Shorter.antt =====
-- The length of what is left behind each part of a header.
use cxxmcp.Prelude.{
  ℕ, suc, ◌+◌, ◌≤◌, ◌<◌, ◌≡◌, refl, Bool, true, false, ◌==◌, if◌then◌else◌, Bytes, [], ◌∷◌, Result,
  ok, err, ◌>>=◌, length, arith,
}
use cxxmcp.Auth.WwwAuth.Scan.{
  span, is_ows, skip_ows, parse_token, is_http_token_char, onto, quoted_rest, parse_quoted_string,
  is_empty,
}
use cxxmcp.Auth.WwwAuth.Parser.{parse_parameter_value, equals_then_value, parse_parameter}

pub length-span : (p : ℕ → Bool) (s : Bytes) → length (span p s).0 + length (span p s).1 ≡ length s
unfolding span
length-span p [] = refl
length-span p (c ∷ s) = let rest = length-span p s in ground arith

pub length-span_le : (p : ℕ → Bool) (s : Bytes) → length (span p s).1 ≤ length s
length-span_le p s = let e = length-span p s in omega arith

pub nonempty_length : (s : Bytes) → is_empty s ≡ false → 0 < length s
nonempty_length [] h = absurd (cc h)
nonempty_length (c ∷ s) h = omega arith

-- What is found leaves less than `n` bytes.
abbrev pub Below : {A : Type 0} → ℕ → Result (A × Bytes) → Type 0
Below n (err e) = Unit
Below n (ok r) = length r.1 < n

module _ {A : Type 0} where
  pub Below-le : (n m : ℕ) (found : Result (A × Bytes)) → n ≤ m → Below n found → Below m found
  Below-le n m (err e) le h = tt
  Below-le n m (ok r) le h = omega arith

  pub Below-if :
      (n : ℕ) (b : Bool) (x y : Result (A × Bytes))
      → Below n x
      → Below n y
      → Below n (if b then x else y)
  Below-if n true x y hx hy = hx
  Below-if n false x y hx hy = hy

onto-Below : (n c : ℕ) (found : Result (Bytes × Bytes)) → Below n found → Below n (onto c found)
onto-Below n c (err e) h = tt
onto-Below n c (ok r) h = h

quoted_rest-Below : (escaped : Bool) (s : Bytes) → Below (suc (length s)) (quoted_rest escaped s)
unfolding quoted_rest
quoted_rest-Below true [] = tt
quoted_rest-Below false [] = tt
quoted_rest-Below true (ch ∷ s) =
    Below-le (suc (length s)) _ _ (omega arith)
      (onto-Below _ ch (quoted_rest false s) (quoted_rest-Below false s))
quoted_rest-Below false (ch ∷ s) =
    let rest = quoted_rest-Below (ch == b'\\') s in
    Below-if _ (ch == b'"') (ok ([], s)) _ (omega arith) (
      Below-le (suc (length s)) _ _ (omega arith)
        (Below-if _ (ch == b'\\') _ _ rest (onto-Below _ ch (quoted_rest (ch == b'\\') s) rest)))

pub parse_quoted_string-Below : (s : Bytes) → Below (suc (length s)) (parse_quoted_string s)
unfolding parse_quoted_string
parse_quoted_string-Below [] = tt
parse_quoted_string-Below (ch ∷ s) =
    Below-if _ (ch == b'"') _ (err _)
      (Below-le (suc (length s)) _ _ (omega arith) (quoted_rest-Below false s)) tt

parse_parameter_value-Below : (s : Bytes) → Below (suc (length s)) (parse_parameter_value s)
unfolding parse_parameter_value
parse_parameter_value-Below [] = tt
parse_parameter_value-Below (ch ∷ s) =
    let short = length-span_le is_http_token_char (ch ∷ s) in
    Below-if _ (ch == b'"') _ _ (parse_quoted_string-Below (ch ∷ s)) (
      Below-if _ (is_empty (parse_token (ch ∷ s)).0) (err _) (ok (parse_token (ch ∷ s))) tt
        (omega arith))

-- The `=` is gone in any case.
equals_then_value-Below : (s : Bytes) → Below (length s) (equals_then_value s)
equals_then_value-Below [] = tt
equals_then_value-Below (ch ∷ s) =
    let short = length-span_le is_ows s in
    Below-if _ (ch == b'=') _ (err _)
      (Below-le (suc (length (skip_ows s))) _ _ (omega arith)
        (parse_parameter_value-Below (skip_ows s)))
      tt

paired-Below :
    (n : ℕ) (name : Bytes) (found : Result (Bytes × Bytes))
    → Below n found
    → Below {A = Bytes × Bytes} n (found >>= λ f. ok ((name, f.0), f.1))
paired-Below n name (err e) h = tt
paired-Below n name (ok f) h = h

pub parse_parameter-Below : (s : Bytes) → Below (length s) (parse_parameter s)
unfolding parse_parameter
parse_parameter-Below s =
    let (name, rest) = parse_token (skip_ows s) in
    let short = length-span_le is_ows s in
    let short' = length-span_le is_http_token_char (skip_ows s) in
    let short'' = length-span_le is_ows (parse_token (skip_ows s)).1 in
    Below-if _ (is_empty name) (err _) _ tt (
      paired-Below _ name (equals_then_value (skip_ows rest)) (
        Below-le (length (skip_ows rest)) _ _ (omega arith)
          (equals_then_value-Below (skip_ows rest))))
