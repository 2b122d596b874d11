-- ===== src/Prelude/Bits.antt =====
-- `|` of disjoint fields and `&` with a mask of low bits, as arithmetic.
use Prim.Native.Nat.{ℕ, zero, suc, ◌+◌, ◌-◌, ◌*◌, ◌/◌, ◌%◌, ◌≤◌, ◌<◌, min, max, bit_and, bit_or}
use Prim.Native.Nat.{digits, bit_and-bitwise, bit_or-bitwise}
use mathlib.Core.Path.{◌≡◌, refl, sym, ap, ◌∙◌}
use native.Mathlib.Omega.{arith}

-- The native operations stand for a recursion on binary digits with a count of digits, which is the
-- first number; any larger count gives the same.
suc_of_sum : (m n : ℕ) → suc m + n ≡ suc (m + n)
suc_of_sum m n = omega arith

module _ (z : ℕ → ℕ) (f : ℕ → ℕ → ℕ) where
  no_digits : (count b : ℕ) → digits z f count 0 b ≡ z b
  no_digits zero b = refl
  no_digits (suc count) b = refl

  pub enough_digits :
      (a b count more : ℕ) → a ≤ count → digits z f (count + more) a b ≡ digits z f count a b
  enough_digits zero b count more h = no_digits (count + more) b ∙ sym (no_digits count b)
  enough_digits (suc a) b zero more h = absurd (omega arith)
  enough_digits (suc a) b (suc count) more h =
      ap (λ n. digits z f n (suc a) b) (suc_of_sum count more)
      ∙ omega (arith, enough_digits (suc a / 2) (b / 2) count more (omega arith))

pub halves : (a : ℕ) → suc a / 2 + (a - suc a / 2) ≡ a
halves a = omega arith

pub or_digit : (a b : ℕ) → bit_or a b ≡ bit_or (a / 2) (b / 2) * 2 + max (a % 2) (b % 2)
or_digit zero b =
    let whole = bit_or-bitwise 0 b in
    let half = bit_or-bitwise 0 (b / 2) in omega (arith, half, whole)
or_digit (suc a) b = omega (
  arith,
  bit_or-bitwise (suc a) b,
  bit_or-bitwise (suc a / 2) (b / 2),
  ap (λ n. digits (λ y. y) max n (suc a / 2) (b / 2)) (halves a),
  enough_digits (λ y. y) max (suc a / 2) (b / 2) (suc a / 2) (a - suc a / 2) (omega arith),
)

and_digit : (a b : ℕ) → bit_and a b ≡ bit_and (a / 2) (b / 2) * 2 + min (a % 2) (b % 2)
and_digit zero b =
    let whole = bit_and-bitwise 0 b in
    let half = bit_and-bitwise 0 (b / 2) in omega (arith, half, whole)
and_digit (suc a) b = omega (
  arith,
  bit_and-bitwise (suc a) b,
  bit_and-bitwise (suc a / 2) (b / 2),
  ap (λ n. digits (λ y. 0) min n (suc a / 2) (b / 2)) (halves a),
  enough_digits (λ y. 0) min (suc a / 2) (b / 2) (suc a / 2) (a - suc a / 2) (omega arith),
)

or_nothing_within : (a n : ℕ) → a < n → bit_or a 0 ≡ a
or_nothing_within a zero h = absurd (omega arith)
or_nothing_within zero (suc n) h = refl
or_nothing_within (suc a) (suc n) h =
    let half = or_nothing_within (suc a / 2) n (omega arith) in
    ground (arith, or_digit (suc a) 0, half)

and_nothing_within : (a n : ℕ) → a < n → bit_and a 0 ≡ 0
and_nothing_within a zero h = absurd (omega arith)
and_nothing_within zero (suc n) h = refl
and_nothing_within (suc a) (suc n) h =
    let half = and_nothing_within (suc a / 2) n (omega arith) in
    ground (arith, and_digit (suc a) 0, half)

pub and_zero : (a : ℕ) → bit_and a 0 ≡ 0
and_zero a = and_nothing_within a (suc a) (omega arith)

-- `a & (2^k - 1)` is the remainder by `2^k`, at the masks that the program uses.
pub and_one : (a : ℕ) → bit_and a 1 ≡ a % 2
and_one a = omega (arith, and_digit a 1, and_zero (a / 2))

pub and_three : (a : ℕ) → bit_and a 3 ≡ a % 4
and_three a = omega (arith, and_digit a 3, and_one (a / 2))

pub and_fifteen : (a : ℕ) → bit_and a 15 ≡ a % 16
and_fifteen a = omega (arith, and_digit a 15, and_digit (a / 2) 7, and_three (a / 2 / 2))

pub and_sixty_three : (a : ℕ) → bit_and a 63 ≡ a % 64
and_sixty_three a = omega (arith, and_digit a 63, and_digit (a / 2) 31, and_fifteen (a / 2 / 2))

pub and_255 : (a : ℕ) → bit_and a 255 ≡ a % 256
and_255 a = omega (arith, and_digit a 255, and_digit (a / 2) 127, and_sixty_three (a / 2 / 2))

pub ruleset bit_and_mask = (and_one, and_three, and_fifteen, and_sixty_three, and_255)

-- `(q << k) | r` is a sum when `r` fits `k` bits.
pub bit_or_two : (q r : ℕ) → r < 4 → bit_or (q * 4) r ≡ q * 4 + r
bit_or_two q r h =
    ground (
      arith,
      or_digit (q * 4) r,
      or_digit (q * 2) (r / 2),
      or_nothing_within q (suc q) (omega arith),
    )

pub bit_or_four : (q r : ℕ) → r < 16 → bit_or (q * 16) r ≡ q * 16 + r
bit_or_four q r h =
    ground
      (arith, or_digit (q * 16) r, or_digit (q * 8) (r / 2), bit_or_two q (r / 2 / 2) (omega arith))

pub bit_or_six : (q r : ℕ) → r < 64 → bit_or (q * 64) r ≡ q * 64 + r
bit_or_six q r h =
    ground (
      arith,
      or_digit (q * 64) r,
      or_digit (q * 32) (r / 2),
      bit_or_four q (r / 2 / 2) (omega arith),
    )
