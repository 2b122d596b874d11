-- ===== src/Server/Dispatch/Replies.antt =====
-- server.cpp: the responses that the dispatcher builds.
use cxxmcp.Prelude.{
  ℤ, ◌==◌, if◌then◌else◌, Bytes, text, Option, none, some, [], ◌∷◌, ◌++◌, map, Result, ok, err,
  Error, ErrorCode, error_code,
}
use cxxmcp.Protocol.Json.{JsonApi, is_object}
use cxxmcp.Protocol.Types.{JsonRpcRequest, JsonRpcResponse}
use cxxmcp.Protocol.Encode.{make_response, make_error_response}
use cxxmcp.Server.Dispatch.Parts.{Outcome, returned, threw, threw_unknown, Answer, ServerOptions}
use cxxmcp.Server.Dispatch.Wire.{
  mcp_supported_protocol_versions, is_supported_protocol_version, negotiate_protocol_version,
  string_member,
}

unfoldable pub method_params_error_code : Error → ℤ
method_params_error_code error = elim error.code [
  | ℤ.negsuc n ↦ if n == 32599 then error_code ErrorCode.invalid_params else error.code
  | ℤ.pos n ↦ error.code
]

-- errors::handler_failed and errors::handler_unknown_exception of error.hpp
unfoldable pub handler_failed : Bytes → Error
handler_failed detail = record {
  code = error_code ErrorCode.internal_error;
  message = text "handler failed";
  detail = detail;
  category = text "handler";
}

unfoldable pub handler_unknown_exception : Error
handler_unknown_exception = record {
  code = error_code ErrorCode.internal_error;
  message = text "handler threw an unknown exception";
  detail = [];
  category = text "handler";
}

module _ {Json : Type 0} (api : JsonApi Json) where
  abbrev data_of : Bytes → Option Json
  data_of [] = none
  data_of (c ∷ detail) = some (api.of_string (c ∷ detail))

  -- `make_error_response` of server.cpp
  unfoldable pub error_reply : JsonRpcRequest Json → ℤ → Bytes → Bytes → JsonRpcResponse Json
  error_reply request code message detail =
      make_error_response (some request.id)
        record { code = code; message = message; payload = data_of detail }

  abbrev with_detail : Bytes → Json → Json
  with_detail [] payload = payload
  with_detail (c ∷ detail) payload =
      api.set_member (text "detail") (api.of_string (c ∷ detail)) payload

  unfoldable pub make_auth_error_response : JsonRpcRequest Json → Bytes → JsonRpcResponse Json
  make_auth_error_response request detail = make_error_response (some request.id) record {
    code = error_code ErrorCode.permission_denied;
    message = text "authentication failed";
    payload = some (
        with_detail detail
          (api.set_member (text "category") (api.of_string (text "auth")) api.empty_object));
  }

  unfoldable pub make_params_error_response : JsonRpcRequest Json → Error → JsonRpcResponse Json
  make_params_error_response request error =
      error_reply request (method_params_error_code error) error.message error.detail

  unfoldable pub failure_reply : JsonRpcRequest Json → Error → JsonRpcResponse Json
  failure_reply request error = error_reply request error.code error.message error.detail

  -- the end of a branch
  unfoldable pub answer_reply : JsonRpcRequest Json → Answer Json → JsonRpcResponse Json
  answer_reply request (Answer.params_failed error) = make_params_error_response request error
  answer_reply request (Answer.failed error) = failure_reply request error
  answer_reply request (Answer.answered result) = make_response request.id result

  -- the end of a branch whose text for bad parameters is fixed
  unfoldable pub listing_reply : JsonRpcRequest Json → Bytes → Answer Json → JsonRpcResponse Json
  listing_reply request message (Answer.params_failed error) =
      error_reply request (error_code ErrorCode.invalid_params) message []
  listing_reply request message (Answer.failed error) = failure_reply request error
  listing_reply request message (Answer.answered result) = make_response request.id result

  unfoldable pub server_info_to_json : ServerOptions Json → Json
  server_info_to_json options =
      api.set_member (text "version") (api.of_string options.server_version)
        (api.set_member (text "name") (api.of_string options.server_name) api.empty_object)

  abbrev with_instructions : Bytes → Json → Json
  with_instructions [] result = result
  with_instructions (c ∷ instructions) result =
      api.set_member (text "instructions") (api.of_string (c ∷ instructions)) result

  unfoldable pub initialize_result_to_json : ServerOptions Json → Bytes → Json
  initialize_result_to_json options protocol_version = with_instructions options.instructions (
      api.set_member (text "serverInfo") (server_info_to_json options) (
        api.set_member (text "capabilities") options.capabilities (
          api.set_member (text "protocolVersion") (api.of_string protocol_version)
            api.empty_object)))

  abbrev params_error : Bytes → Error
  params_error message = record {
    code = error_code ErrorCode.invalid_params;
    message = message;
    detail = [];
    category = [];
  }

  abbrev unsupported : Bytes → Bytes
  unsupported version = text "unsupported MCP protocol version(\"" ++ version ++ text "\")"

  abbrev validated_version : Option Bytes → Result Bytes
  validated_version none = err (params_error (text "initialize requires a string protocolVersion"))
  validated_version (some version) =
      if is_supported_protocol_version version
      then ok version
      else err (params_error (unsupported version))

  -- `ok` has the version, which the caller reads again.
  unfoldable pub validate_initialize_params : Json → Result Bytes
  validate_initialize_params params =
      if is_object (api.view params)
      then validated_version (string_member api params (text "protocolVersion"))
      else err (params_error (text "initialize params must be an object"))

  abbrev pub negotiated_reply :
      ServerOptions Json → JsonRpcRequest Json → Bytes → Option Bytes → JsonRpcResponse Json
  negotiated_reply options request requested none =
      error_reply request (error_code ErrorCode.invalid_params) (unsupported requested) requested
  negotiated_reply options request requested (some version) =
      make_response request.id (initialize_result_to_json options version)

  abbrev pub initialized :
      ServerOptions Json → JsonRpcRequest Json → Result Bytes → JsonRpcResponse Json
  initialized options request (err error) = failure_reply request error
  initialized options request (ok requested) =
      negotiated_reply options request requested (negotiate_protocol_version requested)

  unfoldable pub initialize_reply : ServerOptions Json → JsonRpcRequest Json → JsonRpcResponse Json
  initialize_reply options request =
      initialized options request (validate_initialize_params request.params)

  unfoldable pub discover_result : ServerOptions Json → Json
  discover_result options =
      let info = server_info_to_json options in
      api.set_member (text "_meta")
        (api.set_member (text "io.modelcontextprotocol/serverInfo") info api.empty_object)
        (api.set_member (text "serverInfo") info (
          api.set_member (text "capabilities") options.capabilities (
            api.set_member (text "supportedVersions")
              (api.of_array
                (map (λ version. api.of_string version) mcp_supported_protocol_versions))
              api.empty_object)))

  -- the handlers of exceptions of handle_request_impl
  unfoldable pub caught :
      JsonRpcRequest Json → Outcome (JsonRpcResponse Json) → JsonRpcResponse Json
  caught request (returned response) = response
  caught request (threw what) = failure_reply request (handler_failed what)
  caught request threw_unknown = failure_reply request handler_unknown_exception
