-- ===== src/Protocol/Ids.antt =====
-- Which request ids survive `request_id_from_json`.
use cxxmcp.Prelude.{ℕ, ◌+◌, ◌-◌, ◌<◌, ◌≡◌, refl, some, pos, negsuc, arith}
use cxxmcp.Protocol.Json.{View, JsonApi, get_int64}
use cxxmcp.Protocol.Types.{number, request_id_from_json}

get_int64_wraps :
    (n : ℕ)
    → n < 9223372036854775808
    → get_int64 (pos (9223372036854775808 + n)) ≡ negsuc (9223372036854775807 - n)
unfolding get_int64
get_int64_wraps n small = ground arith

-- An integer id from 2^63 up to 2^64 - 1, which the JSON parser reads, is taken for the negative number
-- that is less by 2^64.
pub request_id_from_json_wraps :
    {Json : Type 0} (api : JsonApi Json) (json : Json) (n : ℕ)
    → n < 9223372036854775808
    → api.view json ≡ View.integer (pos (9223372036854775808 + n))
    → request_id_from_json api json ≡ some (number (negsuc (9223372036854775807 - n)))
unfolding request_id_from_json
request_id_from_json_wraps api json n small seen = rw seen (rw (get_int64_wraps n small) refl)
