-- ===== src/Protocol/Decode.antt =====
-- Reading messages: sdk/protocol/src/serialization.cpp from `parse_json_document` to
-- `response_from_document`, and the `parse_` functions. `find` and `at` are one look-up: `at` stands
-- only where the member is there.
use cxxmcp.Prelude.{
  Bytes, text, bytes_eq, Option, none, some, [], ◌∷◌, Result, ok, err, ◌>>=◌, guarded, ErrorCode, ℤ,
  if◌then◌else◌,
}
use cxxmcp.Protocol.Json.{
  View, null, integer, string, array, object, JsonApi, member, is_object, get_int,
}
use cxxmcp.Protocol.Types.{
  RequestId, ErrorObject, JsonRpcRequest, JsonRpcResponse, JsonRpcNotification, JsonRpcMessage,
  request, response, notification, request_id_from_json,
}
use cxxmcp.Protocol.Limits.{make_protocol_error, validate_json_document_limits}

abbrev pub invalid {ℓ} : {A : Type ℓ} → Bytes → Result A
invalid message = err (make_protocol_error ErrorCode.invalid_request message)

abbrev pub version_error : Result (Unit {0})
version_error = invalid (text "JSON-RPC version must be 2.0")

-- the tests of `validate_jsonrpc_version` on the member
abbrev version_of : {Json : Type 0} → View Json → Result (Unit {0})
version_of (string s) = if bytes_eq s (text "2.0") then ok tt else version_error
version_of _ = version_error

-- a `method` that is a string, and not an empty one
abbrev pub method_of : {Json : Type 0} → View Json → Result Bytes
method_of (string []) = invalid (text "method must not be empty")
method_of (string (c ∷ s)) = ok (c ∷ s)
method_of _ = invalid (text "method must be a string value")

-- the kinds of `params`
abbrev pub check_params : {Json : Type 0} → View Json → Result (Unit {0})
check_params (object ms) = ok tt
check_params (array items) = ok tt
check_params _ = invalid (text "params must be an object or array")

abbrev code_of : {Json : Type 0} → View Json → Result ℤ
code_of (integer z) = ok (get_int z)
code_of _ = invalid (text "error code is missing or invalid")

abbrev message_text_of : {Json : Type 0} → View Json → Result Bytes
message_text_of (string s) = ok s
message_text_of _ = invalid (text "error message is missing or invalid")

module _ {Json : Type 0} (api : JsonApi Json) where
  -- a document of each kind
  abbrev document_of : Json → View Json → Result Json
  document_of document (array items) = invalid (text "Batch messages are not supported")
  document_of document (object ms) =
      guarded (validate_json_document_limits api document) (ok document)
  document_of document _ = invalid (text "JSON-RPC message must be an object")

  unfoldable pub parse_json_document : Bytes → Result Json
  parse_json_document input = elim (api.parse input) [
    | none ↦ err (make_protocol_error ErrorCode.parse_error (text "Invalid JSON"))
    | some document ↦ document_of document (api.view document)
  ]

  unfoldable pub validate_jsonrpc_version : Json → Result (Unit {0})
  validate_jsonrpc_version document = elim (member api document (text "jsonrpc")) [
    | none ↦ version_error
    | some jsonrpc ↦ version_of (api.view jsonrpc)
  ]

  -- a `_meta` that is there
  abbrev pub object_meta : Bytes → Option Json → Result (Option Json)
  object_meta message none = ok none
  object_meta message (some meta) =
      if is_object (api.view meta) then ok (some meta) else invalid message

  unfoldable pub meta_from_document : Json → Result (Option Json)
  meta_from_document document =
      object_meta (text "_meta must be an object") (member api document (text "_meta"))

  abbrev pub normalized_of : Json → View Json → Json
  normalized_of params null = api.empty_object
  normalized_of params _ = params

  unfoldable pub normalized_params : Json → Json
  normalized_params params = normalized_of params (api.view params)

  abbrev pub checked_params : Json → Result Json
  checked_params params = guarded (check_params (api.view params)) (ok params)

  unfoldable pub params_from_document_or_empty : Json → Result Json
  params_from_document_or_empty document = elim (member api document (text "params")) [
    | none ↦ ok api.empty_object
    | some params ↦ checked_params (normalized_params params)
  ]

  -- Of a value that is no object, `member` finds nothing.
  unfoldable pub meta_from_params : Json → Result (Option Json)
  meta_from_params params =
      object_meta (text "params _meta must be an object") (member api params (text "_meta"))

  abbrev id_or_error : Bytes → Option RequestId → Result RequestId
  id_or_error message none = invalid message
  id_or_error message (some id) = ok id

  unfoldable pub required_request_id_from_document : Json → Result RequestId
  required_request_id_from_document document = elim (member api document (text "id")) [
    | none ↦ invalid (text "id is missing")
    | some id ↦
        id_or_error (text "Request id must be an integer or string") (request_id_from_json api id)
  ]

  abbrev response_id_of : Json → View Json → Result (Option RequestId)
  response_id_of id null = ok none
  response_id_of id _ =
      id_or_error (text "Response id must be null, integer, or string")
        (request_id_from_json api id)
      >>= λ r. ok (some r)

  unfoldable pub response_id_from_document : Json → Result (Option RequestId)
  response_id_from_document document = elim (member api document (text "id")) [
    | none ↦ invalid (text "id is missing")
    | some id ↦ response_id_of id (api.view id)
  ]

  unfoldable pub error_code_from_json : Json → Result ℤ
  error_code_from_json json = elim (member api json (text "code")) [
    | none ↦ invalid (text "error code is missing or invalid")
    | some code ↦ code_of (api.view code)
  ]

  unfoldable pub error_message_from_json : Json → Result Bytes
  error_message_from_json json = elim (member api json (text "message")) [
    | none ↦ invalid (text "error message is missing or invalid")
    | some message ↦ message_text_of (api.view message)
  ]

  unfoldable pub error_object_from_json : Json → Result (ErrorObject Json)
  error_object_from_json json =
      if is_object (api.view json)
      then (error_code_from_json json >>= λ code. error_message_from_json json >>= λ message.
          ok (record { code = code; message = message; payload = member api json (text "data") }))
      else invalid (text "error must be an object")

  -- `method` is the member of that name.
  unfoldable pub request_from_document : Json → (method : Json) → Result (JsonRpcRequest Json)
  request_from_document document method = method_of (api.view method) >>= λ name.
      params_from_document_or_empty document >>= λ params. meta_from_params params >>= λ meta.
      required_request_id_from_document document >>= λ id. ok (record {
        method = name;
        params = params;
        id = id;
        meta = meta;
        transport_headers = [];
        protocol_version_override = none;
      })

  unfoldable pub notification_from_document :
      Json → (method : Json) → Result (JsonRpcNotification Json)
  notification_from_document document method = method_of (api.view method) >>= λ name.
      params_from_document_or_empty document >>= λ params. meta_from_params params >>= λ meta.
      ok (record { method = name; params = params; meta = meta })

  -- The members `error` and `result`, at most one of which is there.
  unfoldable pub response_from_document :
      Json → (error result : Option Json) → Result (JsonRpcResponse Json)
  response_from_document document error result = response_id_from_document document >>= λ id.
      meta_from_document document >>= λ meta. elim error [
        | some e ↦ error_object_from_json e >>= λ object.
            ok (record { id = id; result = none; error = some object; meta = meta })
        | none ↦ ok (record { id = id; result = result; error = none; meta = meta })
      ]

  abbrev both : Option Json → Option Json → Result (Unit {0})
  both (some result) (some error) =
      invalid (text "Response must contain exactly one of result or error")
  both _ _ = ok tt

  -- a document with no `method`
  abbrev response_or_unsupported :
      Json → (error result : Option Json) → Result (JsonRpcMessage Json)
  response_or_unsupported document none none = invalid (text "Unsupported JSON-RPC entity")
  response_or_unsupported document error result =
      response_from_document document error result >>= λ r. ok (response r)

  -- a document with a `method`, with or without an `id`
  abbrev pub request_or_notification : Json → Json → Option Json → Result (JsonRpcMessage Json)
  request_or_notification document method (some id) =
      request_from_document document method >>= λ r. ok (request r)
  request_or_notification document method none =
      notification_from_document document method >>= λ n. ok (notification n)

  abbrev classified : Json → (method id error result : Option Json) → Result (JsonRpcMessage Json)
  classified document (some method) id error result = request_or_notification document method id
  classified document none id error result = response_or_unsupported document error result

  -- `parse_message` on the document
  unfoldable pub message_from_document : Json → Result (JsonRpcMessage Json)
  message_from_document document =
      let result = member api document (text "result") in
      let error = member api document (text "error") in
      guarded (validate_jsonrpc_version document) (
        guarded (both result error) (
          classified document (member api document (text "method"))
            (member api document (text "id")) error result))

  unfoldable pub parse_message : Bytes → Result (JsonRpcMessage Json)
  parse_message input = parse_json_document input >>= λ document. message_from_document document

  abbrev as_request : JsonRpcMessage Json → Result (JsonRpcRequest Json)
  as_request (request r) = ok r
  as_request _ = invalid (text "JSON-RPC message is not a request")

  abbrev as_response : JsonRpcMessage Json → Result (JsonRpcResponse Json)
  as_response (response r) = ok r
  as_response _ = invalid (text "JSON-RPC message is not a response")

  abbrev as_notification : JsonRpcMessage Json → Result (JsonRpcNotification Json)
  as_notification (notification n) = ok n
  as_notification _ = invalid (text "JSON-RPC message is not a notification")

  unfoldable pub parse_request : Bytes → Result (JsonRpcRequest Json)
  parse_request input = parse_message input >>= λ m. as_request m

  unfoldable pub parse_response : Bytes → Result (JsonRpcResponse Json)
  parse_response input = parse_message input >>= λ m. as_response m

  unfoldable pub parse_notification : Bytes → Result (JsonRpcNotification Json)
  parse_notification input = parse_message input >>= λ m. as_notification m
