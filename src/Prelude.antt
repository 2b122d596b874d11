-- ===== src/Prelude.antt =====
-- The names that the other modules share: the libraries', passed on, and those of the children.
mod Tests
mod Lists
mod Text
mod Bits
mod Xor
mod Errors
pub mod Decimal
mod Preds
pub mod Dict
pub use Tests.*
pub use Lists.*
pub use Text.{Bytes, codes, bytes_eq_iff, bytes_eq_refl, bytes_ne}
unfoldable pub use Text.{text, bytes_eq}
pub use Bits.{
  and_zero, and_three, and_fifteen, and_sixty_three, and_255, bit_or_two, bit_or_four, bit_or_six,
}
pub use Xor.{bit_xor-zero_iff, bit_or-zero_iff, xor_byte, bit_or_byte, bit_xor_byte}
pub use Errors.*
pub use Preds.*
pub use Prim.Native.Nat.{
  ℕ, zero, suc, ◌+◌, ◌-◌, ◌*◌, ◌/◌, ◌%◌, ◌^◌, ◌≤◌, ◌<◌, min, bit_and, bit_or, bit_xor,
}
pub use mathlib.Core.Path.{◌≡◌, refl, sym, ap, subst, ◌∙◌}
pub use mathlib.Core.Logic.{◌≢◌, ◌↔◌, ◌⊎◌, inl, inr}
pub use mathlib.Core.Bool.{Bool, true, false, not, ◌&&◌, ◌||◌}
pub use mathlib.Core.Option.{Option, none, some}
pub use mathlib.Core.List.{List, [], ◌∷◌, ◌++◌, map, append_assoc, append-nil}
pub use native.Mathlib.Omega.{arith}
