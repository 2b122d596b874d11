-- ===== src/Protocol/Json.antt =====
-- What the SDK uses of nlohmann::json. `view` is the kind and the content of a value; an integer is what
-- the parser read, from -2^63 to 2^64 - 1.
use cxxmcp.Prelude.{
  ℕ, ◌-◌, ◌%◌, ◌^◌, ◌<◌, ◌≡◌, Bool, true, false, Bytes, bytes_eq, Option, none, some, List, [], ℤ,
  pos, negsuc, ltb, if◌then◌else◌,
}
use cxxmcp.Prelude.Dict.{Dict, find}

pub data View (Json : Type 0) : Type 0 where
  null real : View Json
  boolean : Bool → View Json
  integer : ℤ → View Json
  string : Bytes → View Json
  array : List Json → View Json
  object : Dict Json → View Json

-- `parse` is the parser without exceptions, `none` a discarded value; `dump` is taken on values whose
-- texts are UTF-8, since it throws on others.
pub record JsonApi (Json : Type 0) : Type 0 where
  pub view : Json → View Json
  pub null_value : Json
  pub empty_object : Json
  pub of_integer : ℤ → Json
  pub of_string : Bytes → Json
  pub of_array : List Json → Json
  pub set_member : Bytes → Json → Json → Json
  pub parse : Bytes → Option Json
  pub dump : Json → Bytes

-- The members of `j` and one more, or another under its key.
abbrev pub IsUpdated : {Json : Type 0} → Bytes → Json → Dict Json → View Json → Type 0
IsUpdated {Json} key value ms v =
    (ms' : Dict Json) × (v ≡ object ms')
    × ((k : Bytes) → find k ms' ≡ (if bytes_eq key k then some value else find k ms))

abbrev pub FitsInt64 : ℤ → Type 0
FitsInt64 (pos n) = n < 9223372036854775808
FitsInt64 (negsuc n) = n < 9223372036854775808

-- The documented behaviour of the constructors and of `operator[]`.
pub record JsonLaws {Json : Type 0} (api : JsonApi Json) : Type 0 where
  pub view_null : api.view api.null_value ≡ null
  pub view_empty : api.view api.empty_object ≡ object []
  pub view_integer : (z : ℤ) → FitsInt64 z → api.view (api.of_integer z) ≡ integer z
  pub view_string : (s : Bytes) → api.view (api.of_string s) ≡ string s
  pub view_set_member :
      (key : Bytes) (value j : Json) (ms : Dict Json)
      → api.view j ≡ object ms
      → IsUpdated key value ms (api.view (api.set_member key value j))

-- `static_cast` of a number to `w` bits, and of `w` bits to a signed number
abbrev pub to_unsigned : ℕ → ℤ → ℕ
to_unsigned w (pos n) = n % 2 ^ w
to_unsigned w (negsuc n) = 2 ^ w - 1 - n % 2 ^ w

abbrev pub to_signed : ℕ → ℕ → ℤ
to_signed w u = if ltb u (2 ^ (w - 1)) then pos u else negsuc (2 ^ w - 1 - u)

-- `get<std::int64_t>` and `get<int>`
unfoldable pub get_int64 : ℤ → ℤ
get_int64 z = to_signed 64 (to_unsigned 64 z)

unfoldable pub get_int : ℤ → ℤ
get_int z = to_signed 32 (to_unsigned 32 z)

module _ {Json : Type 0} (api : JsonApi Json) where
  abbrev pub member_of : View Json → Bytes → Option Json
  member_of (object ms) key = find key ms
  member_of _ key = none

  -- `has_member` and `at`
  unfoldable pub member : Json → Bytes → Option Json
  member j key = member_of (api.view j) key

abbrev pub is_object : {Json : Type 0} → View Json → Bool
is_object (object ms) = true
is_object _ = false
