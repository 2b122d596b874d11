-- ===== src/Auth/Base64Url/Symbols.antt =====
-- The alphabet: 64 symbols, each read back to its index.
use cxxmcp.Prelude.{
  ℕ, zero, suc, ◌≤◌, ◌<◌, ◌≡◌, refl, Bool, true, false, ◌&&◌, Option, none, some, arith, ltb, ◌==◌,
}
use cxxmcp.Auth.Base64Url.{symbol, decode_value}

-- A test that every number below `top` passes, by evaluation.
passes : (test : ℕ → Bool) (top : ℕ) → Bool
passes test zero = true
passes test (suc top) = let below = passes test top in below && test top

passes_at : (test : ℕ → Bool) (top : ℕ) → passes test top ≡ true → (i : ℕ) → i < top → test i ≡ true
unfolding passes
passes_at test zero all i low = absurd (omega arith)
passes_at test (suc top) all i low =
    let below = passes_at test top in ground (arith, below (ground arith) i)

abbrev reads_back : ℕ → Bool
reads_back i = elim (decode_value (symbol i)) [ none ↦ false | some v ↦ v == i ]

reads_back_table : passes reads_back 64 ≡ true
unfolding passes decode_value symbol
reads_back_table = refl

abbrev is_symbol : ℕ → Bool
is_symbol c = elim (decode_value c) [ none ↦ true | some v ↦ symbol v == c && ltb v 64 ]

is_symbol_table : passes is_symbol 128 ≡ true
unfolding passes decode_value symbol
is_symbol_table = refl

abbrev is_symbol_at : Option ℕ → ℕ → Bool
is_symbol_at o c = elim o [ none ↦ true | some v ↦ symbol v == c && ltb v 64 ]

pub decode_value-symbol : (i : ℕ) → i < 64 → decode_value (symbol i) ≡ some i
decode_value-symbol i h = ground (arith, passes_at reads_back 64 reads_back_table i h)

no_high_symbol : (c : ℕ) → 128 ≤ c → decode_value c ≡ none
unfolding decode_value
no_high_symbol c h = ground arith

pub symbol-decode_value : (c v : ℕ) → decode_value c ≡ some v → (symbol v ≡ c) × (v < 64)
symbol-decode_value c v h =
    ground (arith, no_high_symbol c, passes_at is_symbol 128 is_symbol_table c)
