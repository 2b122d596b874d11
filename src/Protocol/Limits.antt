-- ===== src/Protocol/Limits.antt =====
-- `validate_json_document_limits` of sdk/protocol/src/serialization.cpp. The stack is a list with its
-- top first.
pub mod Depth
use cxxmcp.Prelude.{
  ℕ, zero, suc, ◌+◌, Bytes, text, List, [], ◌∷◌, ◌++◌, Result, ok, err, ◌>>=◌, Error, ErrorCode,
  error_code, ℤ, ltb, length, if◌then◌else◌,
}
use cxxmcp.Prelude.Dict.{Dict}
use cxxmcp.Protocol.Json.{View, null, real, boolean, integer, string, array, object, JsonApi}

abbrev pub max_json_depth : ℕ
max_json_depth = 128

abbrev pub max_json_aggregate_string_bytes : ℕ
max_json_aggregate_string_bytes = 16777216

abbrev pub max_json_aggregate_collection_entries : ℕ
max_json_aggregate_collection_entries = 100000

abbrev pub max_json_node_count : ℕ
max_json_node_count = 200000

unfoldable pub make_protocol_error : ErrorCode → Bytes → Error
make_protocol_error code message = record {
  code = error_code code;
  message = message;
  detail = [];
  category = text "protocol";
}

unfoldable pub limit_error : Bytes → Error
limit_error what =
    make_protocol_error ErrorCode.invalid_request (text "JSON-RPC message exceeds maximum " ++ what)

pub record Frame (Json : Type 0) : Type 0 where
  pub value : Json
  pub depth : ℕ

-- The stack and the two sums.
pub record Progress (Json : Type 0) : Type 0 where
  pub stack : List (Frame Json)
  pub string_bytes : ℕ
  pub collection_entries : ℕ

module _ {Json : Type 0} where
  unfoldable pub add_string : ℕ → Progress Json → Result (Progress Json)
  add_string size p =
      let sum = p.string_bytes + size in
      if ltb max_json_aggregate_string_bytes sum
      then err (limit_error (text "aggregate string size"))
      else ok (record p { string_bytes = sum })

  unfoldable pub add_entries : ℕ → Progress Json → Result (Progress Json)
  add_entries size p =
      let sum = p.collection_entries + size in
      if ltb max_json_aggregate_collection_entries sum
      then err (limit_error (text "aggregate collection entries"))
      else ok (record p { collection_entries = sum })

  abbrev pub push : Json → ℕ → Progress Json → Progress Json
  push value depth p = record p { stack = record { value = value; depth = depth } ∷ p.stack }

  unfoldable pub push_items : ℕ → List Json → Progress Json → Progress Json
  push_items depth [] p = p
  push_items depth (item ∷ items) p = push_items depth items (push item depth p)

  unfoldable pub push_members : ℕ → Dict Json → Progress Json → Result (Progress Json)
  push_members depth [] p = ok p
  push_members depth ((key, value) ∷ ms) p =
      add_string (length key) p >>= λ q. push_members depth ms (push value depth q)

  -- The rest of a round, by the kind of the value; `depth` is that of what it holds.
  unfoldable pub visit : View Json → ℕ → Progress Json → Result (Progress Json)
  visit (string s) depth p = add_string (length s) p
  visit (array items) depth p = add_entries (length items) p >>= λ q. ok (push_items depth items q)
  visit (object ms) depth p = add_entries (length ms) p >>= λ q. push_members depth ms q
  visit _ depth p = ok p

abbrev check_depth : ℕ → Result (Unit {0})
check_depth depth =
    if ltb max_json_depth depth then err (limit_error (text "JSON depth")) else ok tt

module _ {Json : Type 0} (api : JsonApi Json) where
  -- The loop; `left` is how far `nodes` is below its limit.
  unfoldable pub limits_loop : (left : ℕ) → Progress Json → List (Frame Json) → Result (Unit {0})
  limits_loop left p [] = ok tt
  limits_loop zero p (frame ∷ rest) =
      check_depth frame.depth >>= λ _. err (limit_error (text "JSON nodes"))
  limits_loop (suc left) p (frame ∷ rest) = check_depth frame.depth >>= λ _.
      visit (api.view frame.value) (frame.depth + 1) (record p { stack = rest }) >>= λ q.
      limits_loop left q q.stack

  unfoldable pub validate_json_document_limits : Json → Result (Unit {0})
  validate_json_document_limits document =
      limits_loop max_json_node_count
        (record { stack = []; string_bytes = 0; collection_entries = 0 })
        (record { value = document; depth = 1 } ∷ [])
