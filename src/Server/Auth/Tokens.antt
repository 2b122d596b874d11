-- ===== src/Server/Auth/Tokens.antt =====
-- auth.hpp: who is let in by a token without zero bytes.
use cxxmcp.Prelude.{
  ℕ, ◌%◌, ◌<◌, ◌≡◌, ◌↔◌, refl, bit_or, bit_xor, bit_or-zero_iff, bit_xor-zero_iff, bit_or_byte,
  bit_xor_byte, true, false, if◌then◌else◌, Bool-cases, inl, inr, Bytes, codes, text, bytes_eq,
  bytes_eq_iff, List, [], ◌∷◌, ◌++◌, Result, ok, All, IsByte, length, arith,
}
use cxxmcp.Prelude.Dict.{Dict}
use cxxmcp.Server.Auth.{
  ascii_iequals, diff_loop, constant_time_string_equal, is_space, AuthIdentity, Entry, missing,
}

-- A byte other than the zero byte.
abbrev pub IsFilled : ℕ → Type 0
IsFilled ch = (ch < 256) × (0 < ch)

-- A byte that can stand in a token: neither zero nor white space.
abbrev pub IsTokenByte : ℕ → Type 0
IsTokenByte ch = IsFilled ch × (is_space ch ≡ false)

-- One round: the truncation to a byte loses nothing.
round-IsByte :
    (diff l r : ℕ) → IsByte diff → IsByte l → IsByte r → IsByte (bit_or diff (bit_xor l r) % 256)
round-IsByte diff l r hd hl hr =
    omega (arith, bit_or_byte diff (bit_xor l r) hd (bit_xor_byte l r hl hr))

round-zero :
    (diff l r : ℕ)
    → IsByte diff
    → IsByte l
    → IsByte r
    → (bit_or diff (bit_xor l r) % 256 ≡ 0) ↔ ((diff ≡ 0) × (l ≡ r))
round-zero diff l r hd hl hr =
    let small = bit_or_byte diff (bit_xor l r) hd (bit_xor_byte l r hl hr) in
    let or_iff = bit_or-zero_iff diff (bit_xor l r) in
    let xor_iff = bit_xor-zero_iff l r in
    (
      λ e. let parts = or_iff.0 (omega arith) in (parts.0, xor_iff.0 parts.1),
      λ (d, same). let e = or_iff.1 (d, xor_iff.1 same) in rw e refl,
    )

-- The loop's answer is 0 only when nothing differed.
no_diff :
    (s t : Bytes) (diff : ℕ)
    → All IsFilled s
    → All IsFilled t
    → IsByte diff
    → diff_loop s t diff ≡ 0
    → (diff ≡ 0) × (s ≡ t)
unfolding diff_loop
no_diff [] [] diff hs ht hd e = (e, refl)
no_diff [] (r ∷ t) diff hs ((hr, pr), ht) hd e =
    let later = no_diff [] t _ hs ht (round-IsByte diff 0 r hd (omega arith) hr) e in
    let here = (round-zero diff 0 r hd (omega arith) hr).0 later.0 in absurd (omega arith)
no_diff (l ∷ s) [] diff ((hl, pl), hs) ht hd e =
    let later = no_diff s [] _ hs ht (round-IsByte diff l 0 hd hl (omega arith)) e in
    let here = (round-zero diff l 0 hd hl (omega arith)).0 later.0 in absurd (omega arith)
no_diff (l ∷ s) (r ∷ t) diff ((hl, pl), hs) ((hr, pr), ht) hd e =
    let later = no_diff s t _ hs ht (round-IsByte diff l r hd hl hr) e in
    let here = (round-zero diff l r hd hl hr).0 later.0 in
    let tails = later.1 in let heads = here.1 in (here.0, cc)

no_diff_of_same : (s : Bytes) → All IsFilled s → diff_loop s s 0 ≡ 0
unfolding diff_loop
no_diff_of_same [] hs = refl
no_diff_of_same (c ∷ s) ((hc, pc), hs) =
    rw ((round-zero 0 c c (omega arith) hc hc).1 (refl, refl)) (no_diff_of_same s hs)

pub constant_time_string_equal_filled :
    (s t : Bytes) → All IsFilled s → All IsFilled t → constant_time_string_equal s t ≡ bytes_eq s t
unfolding constant_time_string_equal
constant_time_string_equal_filled s t hs ht = elim (Bool-cases (bytes_eq s t)) [
  | inl e ↦
      let same = (bytes_eq_iff s t).0 e in
      let none_seen = no_diff_of_same t ht in
      let sizes = (bit_xor-zero_iff (length t) (length t)).1 refl in
      rw (e, same, sizes, none_seen) refl
  | inr e ↦
      let first = bit_xor (length s) (length t) % 256 in
      let iff = bytes_eq_iff s t in
      let seen = no_diff s t first hs ht (omega arith) in ground (arith, iff, seen)
]

-- The entry that a table search with `==` finds.
abbrev pub first_entry : Bytes → List Entry → Result AuthIdentity
first_entry token [] = missing
first_entry token (entry ∷ entries) =
    let later = first_entry token entries in
    if bytes_eq token entry.token then ok entry.identity else later

abbrev pub HasFilledToken : Entry → Type 0
HasFilledToken entry = All IsFilled entry.token

-- Trimming.
abbrev pub IsSpace : ℕ → Type 0
IsSpace ch = is_space ch ≡ true

abbrev IsSolid : ℕ → Type 0
IsSolid ch = is_space ch ≡ false

abbrev pub authorization : Bytes → Bytes → Bytes → Bytes
authorization spaces token after = codes "Bearer" ++ b' ' ∷ (spaces ++ (token ++ after))

-- A header of another name.
abbrev pub IsOther : Bytes × Bytes → Type 0
IsOther (name, value) = ascii_iequals name (text "Authorization") ≡ false
