-- ===== src/Protocol/Encode.antt =====
-- Writing messages: the `serialize_` and `make_` functions of sdk/protocol/src/serialization.cpp. The
-- text is passed on with the flag `first`.
use cxxmcp.Prelude.{
  Bool, true, false, Bytes, text, Option, none, some, [], ◌∷◌, ◌++◌, Result, ok, ◌>>=◌, ErrorCode,
  error_code, ℤ, pos, negsuc, ◌+◌, if◌then◌else◌,
}
use cxxmcp.Prelude.Decimal.{to_string}
use cxxmcp.Protocol.Json.{View, object, JsonApi, is_object}
use cxxmcp.Protocol.Types.{
  RequestId, ErrorObject, JsonRpcRequest, JsonRpcResponse, JsonRpcNotification, JsonRpcMessage,
  request, response, notification, request_id_to_json,
}
use cxxmcp.Protocol.Decode.{invalid, normalized_params}

-- `std::to_string` of an `int`
unfoldable pub int_text : ℤ → Bytes
int_text (pos n) = to_string n
int_text (negsuc n) = b'-' ∷ to_string (n + 1)

-- `output` and `first`
pub record Output : Type 0 where
  pub output : Bytes
  pub first : Bool

abbrev pub opened : Output
opened = record { output = b'{' ∷ []; first = true }

unfoldable pub append_separator : Output → Output
append_separator o = record {
  output = if o.first then o.output else o.output ++ b',' ∷ [];
  first = false;
}

abbrev put : Bytes → Output → Output
put s o = record o { output = o.output ++ s }

abbrev pub closed : Output → Bytes
closed o = o.output ++ b'}' ∷ []

module _ {Json : Type 0} (api : JsonApi Json) where
  -- the name and the colon
  abbrev pub put_name : Bytes → Output → Output
  put_name name o = put (b':' ∷ []) (put (api.dump (api.of_string name)) (append_separator o))

  unfoldable pub append_json_property : Bytes → Json → Output → Output
  append_json_property name value o = put (api.dump value) (put_name name o)

  unfoldable pub append_string_property : Bytes → Bytes → Output → Output
  append_string_property name value o = put (api.dump (api.of_string value)) (put_name name o)

  unfoldable pub append_int_property : Bytes → ℤ → Output → Output
  append_int_property name value o = put (int_text value) (put_name name o)

  -- `!params.is_object() || !params.empty()`
  abbrev pub has_content : View Json → Bool
  has_content (object []) = false
  has_content _ = true

  unfoldable pub should_serialize_params : Json → Bool
  should_serialize_params params = has_content (api.view params)

  unfoldable pub append_params_property : Json → Option Json → Output → Result Output
  append_params_property params none o =
      let normalized = normalized_params api params in
      ok (
        if should_serialize_params normalized
        then append_json_property (text "params") normalized o
        else o)
  append_params_property params (some meta) o =
      let normalized = normalized_params api params in
      if is_object (api.view normalized)
      then ok
          (append_json_property (text "params") (api.set_member (text "_meta") meta normalized) o)
      else invalid (text "params must be an object when _meta is present")

  abbrev append_optional : Bytes → Option Json → Output → Output
  append_optional name none o = o
  append_optional name (some value) o = append_json_property name value o

  unfoldable pub serialize_error_object : ErrorObject Json → Bytes
  serialize_error_object e = closed (
      append_optional (text "data") e.payload (
        append_string_property (text "message") e.message
          (append_int_property (text "code") e.code opened)))

  abbrev pub versioned : Output
  versioned = append_string_property (text "jsonrpc") (text "2.0") opened

  unfoldable pub serialize_request : JsonRpcRequest Json → Result Bytes
  serialize_request r =
      append_params_property r.params r.meta (
        append_string_property (text "method") r.method
          (append_json_property (text "id") (request_id_to_json api r.id) versioned))
      >>= λ o. ok (closed o)

  unfoldable pub serialize_notification : JsonRpcNotification Json → Result Bytes
  serialize_notification n =
      append_params_property n.params n.meta
        (append_string_property (text "method") n.method versioned)
      >>= λ o. ok (closed o)

  abbrev id_json : Option RequestId → Json
  id_json none = api.null_value
  id_json (some id) = request_id_to_json api id

  -- the last member of a response
  abbrev outcome : Option (ErrorObject Json) → Option Json → Output → Result Bytes
  outcome (some e) result o =
      ok (closed (put (serialize_error_object e) (put_name (text "error") o)))
  outcome none (some result) o = ok (closed (append_json_property (text "result") result o))
  outcome none none o = invalid (text "Response must contain exactly one of result or error")

  unfoldable pub serialize_response : JsonRpcResponse Json → Result Bytes
  serialize_response r = outcome r.error r.result (
      append_optional (text "_meta") r.meta
        (append_json_property (text "id") (id_json r.id) versioned))

  unfoldable pub serialize_message : JsonRpcMessage Json → Result Bytes
  serialize_message (request r) = serialize_request r
  serialize_message (response r) = serialize_response r
  serialize_message (notification n) = serialize_notification n

module _ {Json : Type 0} where
  unfoldable pub make_error : ErrorCode → Bytes → Option Json → ErrorObject Json
  make_error code message payload = record {
    code = error_code code;
    message = message;
    payload = payload;
  }

  unfoldable pub make_response : RequestId → Json → JsonRpcResponse Json
  make_response id result = record { id = some id; result = some result; error = none; meta = none }

  unfoldable pub make_error_response : Option RequestId → ErrorObject Json → JsonRpcResponse Json
  make_error_response id error = record { id = id; result = none; error = some error; meta = none }

  unfoldable pub make_request : Bytes → RequestId → Json → JsonRpcRequest Json
  make_request method id params = record {
    method = method;
    params = params;
    id = id;
    meta = none;
    transport_headers = [];
    protocol_version_override = none;
  }

  unfoldable pub make_notification : Bytes → Json → JsonRpcNotification Json
  make_notification method params = record { method = method; params = params; meta = none }

  unfoldable pub make_initialize_request : RequestId → Json → JsonRpcRequest Json
  make_initialize_request id params = make_request (text "initialize") id params

  unfoldable pub make_initialized_notification : Json → JsonRpcNotification Json
  make_initialized_notification params = make_notification (text "notifications/initialized") params

  unfoldable pub make_ping_request : RequestId → Json → JsonRpcRequest Json
  make_ping_request id params = make_request (text "ping") id params

module _ {Json : Type 0} (api : JsonApi Json) where
  unfoldable pub serialize_error : ErrorObject Json → Option RequestId → Result Bytes
  serialize_error error id = serialize_response api (make_error_response id error)
