-- ===== src/Prelude/Xor.antt =====
-- When `|` and `^` give 0.
use Prim.Native.Nat.{
  ℕ, zero, suc, ◌+◌, ◌-◌, ◌*◌, ◌/◌, ◌%◌, ◌<◌, bit_or, bit_xor, digits, bit_or-bitwise,
  bit_xor-bitwise, differ,
}
use mathlib.Core.Path.{◌≡◌, refl, sym, ap, ◌∙◌}
use mathlib.Core.Logic.{◌↔◌}
use native.Mathlib.Omega.{arith}
use cxxmcp.Prelude.Bits.{or_digit, enough_digits, halves}

or_zero_within : (n a b : ℕ) → a < n → bit_or a b ≡ 0 → (a ≡ 0) × (b ≡ 0)
or_zero_within zero a b h e = absurd (omega arith)
or_zero_within (suc n) zero b h e = (refl, sym (bit_or-bitwise 0 b) ∙ e)
or_zero_within (suc n) (suc a) b h e =
    let half = or_zero_within n (suc a / 2) (b / 2) (omega arith) in
    let d = or_digit (suc a) b in let parts = half (omega arith) in (omega arith, omega arith)

xor_digit : (a b : ℕ) → bit_xor a b ≡ bit_xor (a / 2) (b / 2) * 2 + differ (a % 2) (b % 2)
xor_digit zero b =
    let whole = bit_xor-bitwise 0 b in
    let half = bit_xor-bitwise 0 (b / 2) in ground (arith, half, whole)
xor_digit (suc a) b = omega (
  arith,
  bit_xor-bitwise (suc a) b,
  bit_xor-bitwise (suc a / 2) (b / 2),
  ap (λ n. digits (λ y. y) differ n (suc a / 2) (b / 2)) (halves a),
  enough_digits (λ y. y) differ (suc a / 2) (b / 2) (suc a / 2) (a - suc a / 2) (omega arith),
)

differ_zero : (x y : ℕ) → differ x y ≡ 0 → x ≡ y
differ_zero zero y e = sym e
differ_zero (suc x) zero e = absurd (omega arith)
differ_zero (suc x) (suc y) e = ap suc (differ_zero x y e)

differ_same : (x : ℕ) → differ x x ≡ 0
differ_same zero = refl
differ_same (suc x) = differ_same x

xor_zero_within : (n a b : ℕ) → a < n → bit_xor a b ≡ 0 → a ≡ b
xor_zero_within zero a b h e = absurd (omega arith)
xor_zero_within (suc n) zero b h e = sym (sym (bit_xor-bitwise 0 b) ∙ e)
xor_zero_within (suc n) (suc a) b h e =
    let d = xor_digit (suc a) b in
    let low = differ_zero (suc a % 2) (b % 2) (omega arith) in
    let high = xor_zero_within n (suc a / 2) (b / 2) (omega arith) (omega arith) in omega arith

xor_same_within : (n a : ℕ) → a < n → bit_xor a a ≡ 0
xor_same_within zero a h = absurd (omega arith)
xor_same_within (suc n) zero h = refl
xor_same_within (suc n) (suc a) h =
    let d = xor_digit (suc a) (suc a) in
    let low = differ_same (suc a % 2) in
    let high = xor_same_within n (suc a / 2) (omega arith) in omega arith

pub bit_xor-zero_iff : (a b : ℕ) → (bit_xor a b ≡ 0) ↔ (a ≡ b)
bit_xor-zero_iff a b = (
  xor_zero_within (suc a) a b (omega arith),
  λ same. ap (λ c. bit_xor a c) (sym same) ∙ xor_same_within (suc a) a (omega arith),
)

pub bit_or-zero_iff : (a b : ℕ) → (bit_or a b ≡ 0) ↔ ((a ≡ 0) × (b ≡ 0))
bit_or-zero_iff a b =
    (or_zero_within (suc a) a b (omega arith), λ (l, r). ap (λ c. bit_or c b) l ∙ ap (bit_or 0) r)

-- Numbers that differ by an even number.
xor_even : (a m : ℕ) → bit_xor (a + 2 * m) a ≡ bit_xor (a / 2 + m) (a / 2) * 2
xor_even a m =
    let half : (a + 2 * m) / 2 ≡ a / 2 + m = omega arith in
    let last : (a + 2 * m) % 2 ≡ a % 2 = omega arith in
    let bits = xor_digit (a + 2 * m) a in
    let same = differ_same (a % 2) in bits ∙ rw half (rw last (rw same (omega arith)))

-- Numbers that differ by 256 have the same eight lowest bits.
pub xor_byte : (n : ℕ) → bit_xor (n + 256) n % 256 ≡ 0
xor_byte n = omega (
  arith,
  xor_even n 128,
  xor_even (n / 2) 64,
  xor_even (n / 2 / 2) 32,
  xor_even (n / 2 / 2 / 2) 16,
  xor_even (n / 2 / 2 / 2 / 2) 8,
  xor_even (n / 2 / 2 / 2 / 2 / 2) 4,
  xor_even (n / 2 / 2 / 2 / 2 / 2 / 2) 2,
  xor_even (n / 2 / 2 / 2 / 2 / 2 / 2 / 2) 1,
)

differ_bit : (x y : ℕ) → x < 2 → y < 2 → differ x y < 2
differ_bit zero y h g = g
differ_bit (suc zero) zero h g = h
differ_bit (suc x) (suc y) h g = differ_bit x y (omega arith) (omega arith)
differ_bit (suc (suc x)) zero h g = absurd (omega arith)

-- Both operations keep a size in bits, `bound` being a power of two.
abbrev IsKept : ℕ → (ℕ → ℕ → ℕ) → Type 0
IsKept bound f = (a b : ℕ) → a < bound → b < bound → f a b < bound

or_doubled : (bound : ℕ) → IsKept bound bit_or → IsKept (2 * bound) bit_or
or_doubled bound kept a b ha hb =
    omega (arith, or_digit a b, kept (a / 2) (b / 2) (omega arith) (omega arith))

xor_doubled : (bound : ℕ) → IsKept bound bit_xor → IsKept (2 * bound) bit_xor
xor_doubled bound kept a b ha hb = omega (
  arith,
  xor_digit a b,
  differ_bit (a % 2) (b % 2) (omega arith) (omega arith),
  kept (a / 2) (b / 2) (omega arith) (omega arith),
)

module _ (f : ℕ → ℕ → ℕ) (one : f 0 0 ≡ 0)
    (doubled : (bound : ℕ) → IsKept bound f → IsKept (2 * bound) f) where
  keeps_one : IsKept 1 f
  keeps_one zero zero h g = rw one (omega arith)
  keeps_one zero (suc b) h g = absurd (omega arith)
  keeps_one (suc a) b h g = absurd (omega arith)

  keeps_byte : IsKept 256 f
  keeps_byte = doubled 128 (
      doubled 64
        (doubled 32 (doubled 16 (doubled 8 (doubled 4 (doubled 2 (doubled 1 keeps_one)))))))

pub bit_or_byte : (a b : ℕ) → a < 256 → b < 256 → bit_or a b < 256
bit_or_byte = keeps_byte bit_or refl or_doubled

pub bit_xor_byte : (a b : ℕ) → a < 256 → b < 256 → bit_xor a b < 256
bit_xor_byte = keeps_byte bit_xor refl xor_doubled
