-- ===== src/Server/Auth/Padded.antt =====
-- auth.hpp: a text against the same text with zero bytes behind it.
use cxxmcp.Prelude.{
  ℕ, zero, suc, ◌+◌, ◌≡◌, refl, xor_byte, true, Bytes, [], ◌∷◌, ◌++◌, length, length-append,
  replicate, bit_xor-zero_iff,
}
use cxxmcp.Server.Auth.{diff_loop, constant_time_string_equal}

zeros_add_nothing : (n : ℕ) → diff_loop (replicate n 0) [] 0 ≡ 0
unfolding diff_loop
zeros_add_nothing zero = refl
zeros_add_nothing (suc n) = zeros_add_nothing n

no_diff_before_zeros : (s : Bytes) (n : ℕ) → diff_loop (s ++ replicate n 0) s 0 ≡ 0
unfolding diff_loop
no_diff_before_zeros [] n = zeros_add_nothing n
no_diff_before_zeros (c ∷ s) n =
    rw (diff_loop, (bit_xor-zero_iff c c).1 refl) (no_diff_before_zeros s n)

-- A text is taken to be equal to itself with 256 zero bytes behind it: the difference of the sizes is
-- truncated to eight bits.
pub constant_time_string_equal-zeros :
    (s : Bytes) → constant_time_string_equal (s ++ replicate 256 0) s ≡ true
unfolding constant_time_string_equal
constant_time_string_equal-zeros s =
    let sizes : length (s ++ replicate 256 0) ≡ length s + 256 =
      length-append s (replicate 256 0) in
    rw sizes (rw (xor_byte (length s)) (rw (no_diff_before_zeros s 256) refl))
