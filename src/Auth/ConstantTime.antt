-- ===== src/Auth/ConstantTime.antt =====
-- sdk/auth/include/cxxmcp/auth/constant_time.hpp. The loop over the indices below the larger size goes
-- through both texts at once; past its end, a text reads as 0.
mod Tests
use cxxmcp.Prelude.{
  ℕ, ◌≡◌, ◌↔◌, refl, ap, ◌∙◌, bit_or, bit_xor, bit_or-zero_iff, bit_xor-zero_iff, Bool, true, false,
  Bytes, List, [], ◌∷◌, ◌==◌, length, arith,
}

unfoldable pub diff_loop : Bytes → Bytes → ℕ → ℕ
diff_loop [] [] diff = diff
diff_loop [] (r ∷ rhs) diff = diff_loop [] rhs (bit_or diff (bit_xor 0 r))
diff_loop (l ∷ lhs) [] diff = diff_loop lhs [] (bit_or diff (bit_xor l 0))
diff_loop (l ∷ lhs) (r ∷ rhs) diff = diff_loop lhs rhs (bit_or diff (bit_xor l r))

unfoldable pub constant_time_string_equal : Bytes → Bytes → Bool
constant_time_string_equal lhs rhs = diff_loop lhs rhs (bit_xor (length lhs) (length rhs)) == 0

-- A difference that was seen stays.
diff_stays : (lhs rhs : Bytes) (diff : ℕ) → diff_loop lhs rhs diff ≡ 0 → diff ≡ 0
unfolding diff_loop
diff_stays [] [] diff e = e
diff_stays [] (r ∷ rhs) diff e = ((bit_or-zero_iff diff (bit_xor 0 r)).0 (diff_stays [] rhs _ e)).0
diff_stays (l ∷ lhs) [] diff e = ((bit_or-zero_iff diff (bit_xor l 0)).0 (diff_stays lhs [] _ e)).0
diff_stays (l ∷ lhs) (r ∷ rhs) diff e =
    ((bit_or-zero_iff diff (bit_xor l r)).0 (diff_stays lhs rhs _ e)).0

no_diff :
    (lhs rhs : Bytes) (diff : ℕ) → length lhs ≡ length rhs → diff_loop lhs rhs diff ≡ 0 → lhs ≡ rhs
unfolding diff_loop
no_diff [] [] diff same e = refl
no_diff [] (r ∷ rhs) diff same e = absurd (omega arith)
no_diff (l ∷ lhs) [] diff same e = absurd (omega arith)
no_diff (l ∷ lhs) (r ∷ rhs) diff same e =
    let seen = (bit_or-zero_iff diff (bit_xor l r)).0 (diff_stays lhs rhs _ e) in
    let heads = (bit_xor-zero_iff l r).0 seen.1 in
    let tails = no_diff lhs rhs _ (omega arith) e in cc

diff_of_same : (s : Bytes) (diff : ℕ) → diff ≡ 0 → diff_loop s s diff ≡ 0
unfolding diff_loop
diff_of_same [] diff none_yet = none_yet
diff_of_same (c ∷ s) diff none_yet =
    diff_of_same s _
      ((bit_or-zero_iff diff (bit_xor c c)).1 (none_yet, (bit_xor-zero_iff c c).1 refl))

-- The comparison answers true exactly for equal texts, of any lengths.
pub constant_time_string_equal_iff :
    (lhs rhs : Bytes) → (constant_time_string_equal lhs rhs ≡ true) ↔ (lhs ≡ rhs)
unfolding constant_time_string_equal
constant_time_string_equal_iff lhs rhs = (
  λ h.
      let none_seen : diff_loop lhs rhs (bit_xor (length lhs) (length rhs)) ≡ 0 = ground arith in
      no_diff lhs rhs _
        ((bit_xor-zero_iff (length lhs) (length rhs)).0 (diff_stays lhs rhs _ none_seen)) none_seen,
  λ same.
      let again =
        diff_of_same lhs (bit_xor (length lhs) (length lhs)) ((bit_xor-zero_iff _ _).1 refl) in
      rw (← same) (ground (arith, again)),
)
