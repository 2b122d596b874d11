-- ===== src/Auth/WwwAuth/Total.antt =====
-- The loops of the header parser, and their fuel.
use mathlib.Core.Option.{map as option_map}
use cxxmcp.Prelude.{
  ℕ, zero, suc, ◌≤◌, ◌<◌, ◌≡◌, refl, Bool, true, false, ◌==◌, if◌then◌else◌, Bytes, Option, none,
  some, List, [], ◌∷◌, Result, ok, err, Error, length, arith,
}
use cxxmcp.Prelude.Dict.{Dict, assign}
use cxxmcp.Auth.WwwAuth.Scan.{
  span, is_ows, skip_ows, skip_commas, parse_token, is_token68_char, is_http_token_char, is_empty,
  ascii_lower, comma_starts_parameter, starts_parameter,
}
use cxxmcp.Auth.WwwAuth.Parser.{
  WwwAuthenticateChallenge, token68_end, parse_token68, parse_parameter, after_parameter,
  add_parameter, parse_parameters, bare, with_parameters, with_token68, push_front, challenge_body,
  parse_challenge, after_challenge, challenge_round, challenges_at, parse_challenges,
  parse_www_authenticate,
}
use cxxmcp.Auth.WwwAuth.Shorter.{
  length-span, length-span_le, nonempty_length, Below, Below-le, Below-if, parse_parameter-Below,
}

-- What a loop with enough fuel gives: a result that leaves less than `n` bytes, or an error.
abbrev Ends : {A : Type 0} → ℕ → Option (Result (A × Bytes)) → Type 0
Ends n none = ⊥
Ends n (some found) = Below n found

module _ {A : Type 0} where
  Ends-le : (n m : ℕ) (found : Option (Result (A × Bytes))) → n ≤ m → Ends n found → Ends m found
  Ends-le n m none le h = h
  Ends-le n m (some found) le h = Below-le n m found le h

  Ends-if :
      (n : ℕ) (b : Bool) (x y : Option (Result (A × Bytes)))
      → Ends n x
      → Ends n y
      → Ends n (if b then x else y)
  Ends-if n true x y hx hy = hx
  Ends-if n false x y hx hy = hy

-- The loop that goes on ends on shorter texts.
abbrev Goes : {A : Type 0} → ℕ → (Bytes → Option (Result (A × Bytes))) → Type 0
Goes n more = (t : Bytes) → length t < n → Ends (suc (length t)) (more t)

after_parameter-Ends :
    (more : Bytes → Option (Result (Dict Bytes × Bytes))) (parameters : Dict Bytes) (s : Bytes)
    → Goes (length s) more
    → Ends (suc (length s)) (after_parameter more parameters s)
after_parameter-Ends more parameters [] goes = omega arith
after_parameter-Ends more parameters (ch ∷ s) goes =
    Ends-if _ (ch == b',') _ (some (err _))
      (Ends-if _ (comma_starts_parameter (ch ∷ s)) _ (some (ok (parameters, ch ∷ s)))
        (Ends-le (suc (length s)) _ (more s) (omega arith) (goes s (omega arith))) (omega arith))
      tt

add_parameter-Ends :
    (n : ℕ) (more : Dict Bytes → Bytes → Option (Result (Dict Bytes × Bytes)))
    (parameters : Dict Bytes) (found : Result ((Bytes × Bytes) × Bytes))
    → ((ps : Dict Bytes) → Goes n (more ps))
    → Below n found
    → Ends (suc n) (add_parameter more parameters found)
add_parameter-Ends n more parameters (err e) goes below = tt
add_parameter-Ends n more parameters (ok ((name, value), rest)) goes below =
    let ps = assign (ascii_lower name) value parameters in
    let short = length-span_le is_ows rest in
    Ends-le (suc (length (skip_ows rest))) _ _ (omega arith)
      (after_parameter-Ends (more ps) ps (skip_ows rest) (λ t less. goes ps t (omega arith)))

parse_parameters-Ends :
    (fuel : ℕ) (parameters : Dict Bytes) (s : Bytes)
    → length s < fuel
    → Ends (suc (length s)) (parse_parameters fuel parameters s)
unfolding parse_parameters
parse_parameters-Ends zero parameters s enough = absurd (omega arith)
parse_parameters-Ends (suc fuel) parameters [] enough = omega arith
parse_parameters-Ends (suc fuel) parameters (ch ∷ s) enough =
    add_parameter-Ends (length (ch ∷ s)) (parse_parameters fuel) parameters
      (parse_parameter (ch ∷ s)) (λ ps t less. parse_parameters-Ends fuel ps t (omega arith))
      (parse_parameter-Below (ch ∷ s))

with_parameters-Ends :
    (n : ℕ) (scheme : Bytes) (found : Option (Result (Dict Bytes × Bytes)))
    → Ends n found
    → Ends n (option_map (with_parameters scheme) found)
with_parameters-Ends n scheme none h = h
with_parameters-Ends n scheme (some (err e)) h = tt
with_parameters-Ends n scheme (some (ok (parameters, rest))) h = h

with_token68-Below :
    (n : ℕ) (scheme : Bytes) (found : Result (Bytes × Bytes))
    → Below n found
    → Below n (with_token68 scheme found)
with_token68-Below n scheme (err e) h = tt
with_token68-Below n scheme (ok (token68, rest)) h = h

token68_end-Below : (token68 s : Bytes) → Below (suc (length s)) (token68_end token68 s)
token68_end-Below token68 [] = omega arith
token68_end-Below token68 (ch ∷ s) =
    Below-if _ (ch == b',') (ok (token68, ch ∷ s)) (err _) (omega arith) tt

parse_token68-Below : (s : Bytes) → Below (suc (length s)) (parse_token68 s)
unfolding parse_token68
parse_token68-Below s =
    let (token68, rest) = span is_token68_char s in
    let short = length-span_le is_token68_char s in
    let short' = length-span_le is_ows (span is_token68_char s).1 in
    Below-if _ (is_empty token68) (err _) _ tt (
      Below-le (suc (length (skip_ows rest))) _ _ (omega arith)
        (token68_end-Below token68 (skip_ows rest)))

challenge_body-Ends : (scheme s : Bytes) → Ends (suc (length s)) (challenge_body scheme s)
challenge_body-Ends scheme [] = omega arith
challenge_body-Ends scheme (ch ∷ s) =
    Ends-if _ (ch == b',') (some (ok (bare scheme, ch ∷ s))) _ (omega arith) (
      Ends-if _ (starts_parameter (ch ∷ s)) _ _
        (with_parameters-Ends _ scheme _
          (parse_parameters-Ends (suc (length (ch ∷ s))) [] (ch ∷ s) (omega arith)))
        (with_token68-Below _ scheme _ (parse_token68-Below (ch ∷ s))))

-- The scheme is gone in any case.
parse_challenge-Ends : (s : Bytes) → Ends (length s) (parse_challenge s)
unfolding parse_challenge
parse_challenge-Ends s = by_scheme _ (is_empty (parse_token s).0) refl
  where
    by_scheme :
        (failure : Error) (b : Bool)
        → is_empty (parse_token s).0 ≡ b
        → Ends (length s) (
            if b
            then some (err failure)
            else challenge_body (parse_token s).0 (skip_ows (parse_token s).1))
    by_scheme failure true e = tt
    by_scheme failure false e =
        let there = nonempty_length (parse_token s).0 e in
        let sum = length-span is_http_token_char s in
        let short = length-span_le is_ows (parse_token s).1 in
        Ends-le (suc (length (skip_ows (parse_token s).1))) _ _ (omega arith)
          (challenge_body-Ends (parse_token s).0 (skip_ows (parse_token s).1))

abbrev Returns : {A : Type 0} → Option A → Type 0
Returns none = ⊥
Returns (some a) = Unit

module _ {A B : Type 0} where
  Returns-map : (f : A → B) (o : Option A) → Returns o → Returns (option_map f o)
  Returns-map f none h = h
  Returns-map f (some a) h = tt

after_challenge-Returns :
    (more : Bytes → Option (Result (List WwwAuthenticateChallenge)))
    (challenge : WwwAuthenticateChallenge) (s : Bytes)
    → ((t : Bytes) → length t < length s → Returns (more t))
    → Returns (after_challenge more challenge s)
after_challenge-Returns more challenge [] goes = tt
after_challenge-Returns more challenge (ch ∷ s) goes = by_comma _ (ch == b',')
  where
    by_comma :
        (failure : Error) (b : Bool)
        → Returns (if b then option_map (push_front challenge) (more s) else some (err failure))
    by_comma failure true = Returns-map (push_front challenge) (more s) (goes s (omega arith))
    by_comma failure false = tt

challenge_round-Returns :
    (n : ℕ) (more : Bytes → Option (Result (List WwwAuthenticateChallenge)))
    (found : Option (Result (WwwAuthenticateChallenge × Bytes)))
    → Ends n found
    → ((t : Bytes) → length t < n → Returns (more t))
    → Returns (challenge_round more found)
challenge_round-Returns n more none ends goes = ends
challenge_round-Returns n more (some (err e)) ends goes = tt
challenge_round-Returns n more (some (ok (challenge, rest))) ends goes =
    after_challenge-Returns more challenge rest (λ t less. goes t (omega arith))

challenges_at-Returns :
    (n : ℕ) (more : Bytes → Option (Result (List WwwAuthenticateChallenge))) (t : Bytes)
    → ((u : Bytes) → length u < n → Returns (more u))
    → length t ≤ n
    → Returns (challenges_at more t)
challenges_at-Returns n more [] goes le = tt
challenges_at-Returns n more (ch ∷ t) goes le =
    challenge_round-Returns (length (ch ∷ t)) more (parse_challenge (ch ∷ t))
      (parse_challenge-Ends (ch ∷ t)) (λ u less. goes u (omega arith))

parse_challenges-Returns :
    (fuel : ℕ) (s : Bytes) → length s < fuel → Returns (parse_challenges fuel s)
unfolding parse_challenges
parse_challenges-Returns zero s enough = absurd (omega arith)
parse_challenges-Returns (suc fuel) s enough =
    challenges_at-Returns (length s) (parse_challenges fuel) (skip_commas s)
      (λ u less. parse_challenges-Returns fuel u (omega arith)) (length-span_le _ s)

-- The parser ends on every header: with challenges or with an error.
pub parse_www_authenticate-Returns :
    (header_value : Bytes)
    → (r : Result (List WwwAuthenticateChallenge)) × (parse_www_authenticate header_value ≡ some r)
unfolding parse_www_authenticate
parse_www_authenticate-Returns header_value =
    returned (parse_challenges (suc (length header_value)) header_value)
      (parse_challenges-Returns (suc (length header_value)) header_value (omega arith))
  where
    returned :
        (o : Option (Result (List WwwAuthenticateChallenge)))
        → Returns o
        → (r : Result (List WwwAuthenticateChallenge)) × (o ≡ some r)
    returned none h = absurd h
    returned (some r) h = (r, refl)
