-- ===== src/Prelude/Errors.antt =====
-- core/result.hpp: `Error` and `Result`, and the error codes of protocol/types.hpp.
use mathlib.Core.Path.{◌≡◌, refl}
use mathlib.Core.Logic.{◌⊎◌, inl, inr}
use Prim.Native.Nat.{ℕ}
use cxxmcp.Prelude.Text.{Bytes}

-- `negsuc n` is -(n + 1).
pub data ℤ : Type 0 where
  pos : ℕ → ℤ
  negsuc : ℕ → ℤ

pub record Error : Type 0 where
  pub code : ℤ
  pub message : Bytes
  pub detail : Bytes
  pub category : Bytes

pub data Result {ℓ} (A : Type ℓ) : Type ℓ where
  ok : A → Result A
  err : Error → Result A

infixl 5 ◌>>=◌
-- `if (!m) return unexpected(m.error());`, and the rest on the value.
abbrev pub ◌>>=◌ {ℓ κ} : {A : Type ℓ} {B : Type κ} (m : Result A) (rest : A → Result B) → Result B
m >>= rest = elim m [ err failure ↦ err failure | ok value ↦ rest value ]

pub ok_injective {ℓ} : {A : Type ℓ} {a b : A} → ok a ≡ ok b → a ≡ b
ok_injective h = cc

pub Result-cases {ℓ} :
    {A : Type ℓ} (m : Result A) → ((e : Error) × (m ≡ err e)) ⊎ ((a : A) × (m ≡ ok a))
Result-cases (err e) = inl (e, refl)
Result-cases (ok a) = inr (a, refl)

-- A successful chain, taken apart.
pub >>=-eq-ok {ℓ κ} :
    {A : Type ℓ} {B : Type κ} (m : Result A) (rest : A → Result B) (b : B)
    → (m >>= rest) ≡ ok b
    → (value : A) × (m ≡ ok value) × (rest value ≡ ok b)
>>=-eq-ok (err failure) rest b h = cc
>>=-eq-ok (ok value) rest b h = (value, refl, h)

-- `if (!valid) return unexpected(valid.error());` before the rest.
abbrev pub guarded {ℓ} : {A : Type ℓ} → Result (Unit {0}) → Result A → Result A
guarded (err e) rest = err e
guarded (ok _) rest = rest

-- `enum class ErrorCode : int`
pub data ErrorCode : Type 0 where
  parse_error invalid_request method_not_found invalid_params internal_error : ErrorCode
  tool_not_found resource_not_found permission_denied rate_limited : ErrorCode
  url_elicitation_required : ErrorCode

unfoldable pub error_code : ErrorCode → ℤ
error_code parse_error = negsuc 32699
error_code invalid_request = negsuc 32599
error_code method_not_found = negsuc 32600
error_code invalid_params = negsuc 32601
error_code internal_error = negsuc 32602
error_code tool_not_found = negsuc 31999
error_code resource_not_found = negsuc 32001
error_code permission_denied = negsuc 32004
error_code rate_limited = negsuc 32002
error_code url_elicitation_required = negsuc 32041
