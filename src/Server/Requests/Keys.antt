-- ===== src/Server/Requests/Keys.antt =====
-- server.cpp: the keys of different requests.
use cxxmcp.Prelude.{
  ◌+◌, ◌≡◌, sym, ap, codes, get_or, ◌++◌, ℤ, pos, negsuc, Bytes, [], ◌∷◌, All, arith,
}
use cxxmcp.Prelude.Decimal.{to_string, to_string_injective, to_string-All, IsDigit}
use cxxmcp.Protocol.Types.{RequestId}
use cxxmcp.Protocol.Encode.{int_text}
use cxxmcp.Server.Requests.{request_cancellation_key}

no_sign : (s t : Bytes) → All IsDigit s → s ≡ b'-' ∷ t → ⊥
no_sign [] t h e = cc
no_sign (c ∷ s) t (h, hs) e = let first : c ≡ b'-' = cc in omega arith

int_text_injective : (x y : ℤ) → int_text x ≡ int_text y → x ≡ y
unfolding int_text
int_text_injective (pos m) (pos n) e = ap pos (to_string_injective m n e)
int_text_injective (pos m) (negsuc n) e =
    absurd (no_sign (to_string m) (to_string (n + 1)) (to_string-All m) e)
int_text_injective (negsuc m) (pos n) e =
    absurd (no_sign (to_string n) (to_string (m + 1)) (to_string-All n) cc)
int_text_injective (negsuc m) (negsuc n) e =
    let same = to_string_injective (m + 1) (n + 1) cc in ap negsuc (omega arith)

other_kind : (s t : Bytes) → codes "i:" ++ s ≡ codes "s:" ++ t → ⊥
other_kind s t e = let first : b'i' + 0 ≡ b's' = ap (λ u. get_or u 0 0) e in omega arith

pub request_cancellation_key_injective :
    (a b : RequestId) → request_cancellation_key a ≡ request_cancellation_key b → a ≡ b
unfolding request_cancellation_key
request_cancellation_key_injective (RequestId.number x) (RequestId.number y) e =
    ap RequestId.number (int_text_injective x y cc)
request_cancellation_key_injective (RequestId.number x) (RequestId.name t) e =
    absurd (other_kind (int_text x) t e)
request_cancellation_key_injective (RequestId.name s) (RequestId.number y) e =
    absurd (other_kind (int_text y) s (sym e))
request_cancellation_key_injective (RequestId.name s) (RequestId.name t) e = ap RequestId.name cc
