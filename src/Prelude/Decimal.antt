-- ===== src/Prelude/Decimal.antt =====
-- `std::to_string` of an unsigned number.
use Prim.Native.Nat.{ℕ, zero, suc, ◌+◌, ◌-◌, ◌*◌, ◌/◌, ◌%◌, ◌<◌, ◌≤◌}
use mathlib.Core.Path.{◌≡◌, sym, ap, ◌∙◌}
use mathlib.Core.Bool.{true, false}
use mathlib.Core.List.{[], ◌∷◌}
use mathlib.Core.Logic.{inl, inr}
use native.Mathlib.Omega.{arith}
use cxxmcp.Prelude.Text.{Bytes}
use cxxmcp.Prelude.Preds.{All}
use cxxmcp.Prelude.Tests.{◌==◌, Bool-cases}

-- One digit a round; `n + 1` rounds are enough for `n`.
to_digits : ℕ → ℕ → Bytes → Bytes
to_digits zero n out = out
to_digits (suc rounds) n out = elim (n / 10 == 0) [
  | true ↦ (b'0' + n % 10) ∷ out
  | false ↦ to_digits rounds (n / 10) ((b'0' + n % 10) ∷ out)
]

unfoldable pub to_string : ℕ → Bytes
unfolding to_digits
to_string n = to_digits (suc n) n []

-- A reader of digits, from the left, with `m` read so far. `read` keeps the meaning of a list if
-- a digit takes it from `m` to `10 m + d`, as long as no number passes `bound`.
module _ {A : Type 0} (read : Bytes → ℕ → A) (bound : ℕ) where
  abbrev pub ReadsDigits : Type 0
  ReadsDigits =
      (s : Bytes) (m d : ℕ)
      → d < 10
      → m * 10 + d ≤ bound
      → read ((b'0' + d) ∷ s) m ≡ read s (m * 10 + d)

  read-to_digits :
      ReadsDigits
      → (rounds n : ℕ) (out : Bytes) → n < rounds
      → n ≤ bound
      → read (to_digits rounds n out) 0 ≡ read out n
  unfolding to_digits
  read-to_digits step zero n out h fits = absurd (omega arith)
  read-to_digits step (suc rounds) n out h fits = elim (Bool-cases (n / 10 == 0)) [
    | inl last ↦ ground (arith, step out 0 (n % 10) (omega arith))
    | inr more ↦ ground (
      arith,
      read-to_digits step rounds (n / 10) ((b'0' + n % 10) ∷ out),
      step out (n / 10) (n % 10),
    )
  ]

  pub read-to_string : ReadsDigits → (n : ℕ) → n ≤ bound → read (to_string n) 0 ≡ read [] n
  unfolding to_string
  read-to_string step n fits = read-to_digits step (suc n) n [] (omega arith) fits

-- Different numbers have different texts.
abbrev pub IsDigit : ℕ → Type 0
IsDigit c = b'0' ≤ c

to_digits-All :
    (rounds n : ℕ) (out : Bytes) → All IsDigit out → All IsDigit (to_digits rounds n out)
unfolding to_digits
to_digits-All zero n out h = h
to_digits-All (suc rounds) n out h =
    let more : All IsDigit ((b'0' + n % 10) ∷ out) = (omega arith, h) in
    ground (arith, to_digits-All rounds (n / 10) ((b'0' + n % 10) ∷ out) more, more)

pub to_string-All : (n : ℕ) → All IsDigit (to_string n)
unfolding to_string
to_string-All n = to_digits-All (suc n) n [] tt

read_digits : Bytes → ℕ → ℕ
read_digits [] m = m
read_digits (c ∷ s) m = read_digits s (m * 10 + (c - b'0'))

pub to_string_injective : (m n : ℕ) → to_string m ≡ to_string n → m ≡ n
unfolding read_digits
to_string_injective m n e =
    let step : (k : ℕ) → ReadsDigits read_digits k =
      λ k s a d h fits. ap (read_digits s) (omega arith) in
    sym (read-to_string read_digits m (step m) m (omega arith))
    ∙ ap (λ s. read_digits s 0) e
    ∙ read-to_string read_digits n (step n) n (omega arith)
