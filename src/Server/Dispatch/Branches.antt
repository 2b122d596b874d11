-- ===== src/Server/Dispatch/Branches.antt =====
-- server.cpp: the branches of handle_request_impl, one for each method.
use cxxmcp.Prelude.{
  ℕ, Bool, true, false, ◌&&◌, if◌then◌else◌, Bytes, text, bytes_eq, Option, none, some, [], Result,
  ok, err, ErrorCode, error_code,
}
use cxxmcp.Protocol.Json.{JsonApi}
use cxxmcp.Protocol.Types.{JsonRpcRequest, JsonRpcResponse}
use cxxmcp.Protocol.Encode.{make_response}
use cxxmcp.Server.Registry.Tools.{
  ToolCall, ToolDefinition, ToolResult, TaskSupport, forbidden, optional, required, task_support,
  get_tool, validate_call, call_tool, is_requested,
}
use cxxmcp.Server.Subscriptions.{Subscriptions, set_resource_subscription}
use cxxmcp.Server.Dispatch.Parts.{Outcome, returned, threw, ◌then◌, Context, Operation, Parts}
use cxxmcp.Server.Dispatch.Wire.{
  string_member, request_wire_version, wire_version_requires_result_type,
}
use cxxmcp.Server.Dispatch.Replies.{
  error_reply, make_params_error_response, failure_reply, answer_reply, listing_reply,
}

abbrev pub is_forbidden : TaskSupport → Bool
is_forbidden forbidden = true
is_forbidden optional = false
is_forbidden required = false

module _ {Json : Type 0} (api : JsonApi Json) (is_empty : Json → Bool) (parts : Parts Json) where
  -- a method that has an operation or is not configured
  unfoldable pub optional_branch :
      Option (Operation Json)
      → Bytes
      → JsonRpcRequest Json
      → Context
      → ℕ
      → Outcome (JsonRpcResponse Json)
  optional_branch none message request context token =
      returned (error_reply api request (error_code ErrorCode.method_not_found) message [])
  optional_branch (some operation) message request context token =
      operation request.params context token
      then (λ answer. returned (answer_reply api request answer))

  unfoldable pub plain_branch :
      Operation Json → JsonRpcRequest Json → Context → ℕ → Outcome (JsonRpcResponse Json)
  plain_branch operation request context token =
      operation request.params context token
      then (λ answer. returned (answer_reply api request answer))

  unfoldable pub listing_branch :
      Operation Json → Bytes → JsonRpcRequest Json → Context → ℕ → Outcome (JsonRpcResponse Json)
  listing_branch operation message request context token =
      operation request.params context token
      then (λ answer. returned (listing_reply api request message answer))

  -- tools/get
  abbrev pub tool_found : JsonRpcRequest Json → Result (ToolDefinition Json) → JsonRpcResponse Json
  tool_found request (err error) = failure_reply api request error
  tool_found request (ok tool) = make_response request.id (parts.tool_definition_to_json tool)

  abbrev pub tool_reply : JsonRpcRequest Json → Option Bytes → JsonRpcResponse Json
  tool_reply request none =
      error_reply api request (error_code ErrorCode.invalid_params)
        (text "tools/get requires a string name") []
  tool_reply request (some name) = tool_found request (get_tool parts.tools name)

  unfoldable pub tools_get_branch : JsonRpcRequest Json → JsonRpcResponse Json
  tools_get_branch request = tool_reply request (string_member api request.params (text "name"))

  -- On the newer wire a tool that forbids tasks is called without one.
  unfoldable pub without_hint : JsonRpcRequest Json → Context → ToolCall Json → ToolCall Json
  without_hint request context call =
      if is_requested call.task
        && wire_version_requires_result_type (request_wire_version api request context)
        && (elim (get_tool parts.tools call.name) [
          | err error ↦ false
          | ok tool ↦ is_forbidden (task_support tool)
        ])
      then record call { task = none }
      else call

  abbrev pub submitted : JsonRpcRequest Json → Result Json → JsonRpcResponse Json
  submitted request (err error) = make_params_error_response api request error
  submitted request (ok task) = make_response request.id task

  abbrev pub submit_by :
      JsonRpcRequest Json
      → Context
      → ToolCall Json
      → Option (ToolCall Json → Context → Outcome (Result Json))
      → Outcome (JsonRpcResponse Json)
  submit_by request context call none = returned (
      error_reply api request (error_code ErrorCode.method_not_found)
        (text "task processor is not configured") [])
  submit_by request context call (some submit) =
      submit call context then (λ task. returned (submitted request task))

  abbrev pub submit_valid :
      JsonRpcRequest Json
      → Context
      → ToolCall Json
      → Result (Unit {0})
      → Outcome (JsonRpcResponse Json)
  submit_valid request context call (err error) =
      returned (make_params_error_response api request error)
  submit_valid request context call (ok _) = submit_by request context call parts.submit_tool_call

  unfoldable pub task_branch :
      JsonRpcRequest Json → Context → ToolCall Json → Outcome (JsonRpcResponse Json)
  task_branch request context call =
      submit_valid request context call (validate_call parts.tools call)

  abbrev pub called :
      JsonRpcRequest Json → Option (Result (ToolResult Json)) → Outcome (JsonRpcResponse Json)
  called request none = threw parts.bad_function_call
  called request (some (err error)) = returned (failure_reply api request error)
  called request (some (ok result)) =
      returned (make_response request.id (parts.tool_result_to_json result))

  unfoldable pub call_branch :
      JsonRpcRequest Json → Context → ℕ → ToolCall Json → Outcome (JsonRpcResponse Json)
  call_branch request context token call =
      if is_requested call.task
      then task_branch request context call
      else called request (call_tool is_empty parts.tools call context token parts.schema_validator)

  abbrev pub call_parsed :
      JsonRpcRequest Json → Context → ℕ → Result (ToolCall Json) → Outcome (JsonRpcResponse Json)
  call_parsed request context token (err error) =
      returned (make_params_error_response api request error)
  call_parsed request context token (ok call) =
      call_branch request context token (without_hint request context call)

  unfoldable pub tools_call_branch :
      JsonRpcRequest Json → Context → ℕ → Outcome (JsonRpcResponse Json)
  tools_call_branch request context token =
      call_parsed request context token (parts.tool_call_from_json request.params)

  -- resources/subscribe and resources/unsubscribe
  abbrev pub subscription_set :
      JsonRpcRequest Json
      → Subscriptions
      → Result Subscriptions
      → Subscriptions × Outcome (JsonRpcResponse Json)
  subscription_set request before (err error) = (before, returned (failure_reply api request error))
  subscription_set request before (ok after) =
      (after, returned (make_response request.id api.empty_object))

  abbrev pub subscription_of :
      JsonRpcRequest Json
      → Context
      → Subscriptions
      → Option Bytes
      → Subscriptions × Outcome (JsonRpcResponse Json)
  subscription_of request context subscriptions none = (
    subscriptions,
    returned (
        error_reply api request (error_code ErrorCode.invalid_params)
          (text "resource subscription requires a string uri") []),
  )
  subscription_of request context subscriptions (some uri) =
      subscription_set request subscriptions (
        set_resource_subscription context.host.transport uri
          (bytes_eq request.method (text "resources/subscribe")) subscriptions)

  unfoldable pub subscription_branch :
      JsonRpcRequest Json → Context → Subscriptions → Subscriptions × Outcome (JsonRpcResponse Json)
  subscription_branch request context subscriptions =
      if parts.options.resources_subscribe
      then subscription_of request context subscriptions
          (string_member api request.params (text "uri"))
      else (
        subscriptions,
        returned (
            error_reply api request (error_code ErrorCode.method_not_found)
              (text "resource subscriptions are not enabled") []),
      )

  -- logging/setLevel
  abbrev pub log_by :
      JsonRpcRequest Json
      → Bytes
      → Option (Bytes → Outcome (Unit {0}))
      → Outcome (JsonRpcResponse Json)
  log_by request level none = returned (make_response request.id api.empty_object)
  log_by request level (some handler) =
      handler level then (λ _. returned (make_response request.id api.empty_object))

  abbrev pub logged : JsonRpcRequest Json → Option Bytes → Outcome (JsonRpcResponse Json)
  logged request none = returned (
      error_reply api request (error_code ErrorCode.invalid_params)
        (text "logging/setLevel requires a string level") [])
  logged request (some level) = log_by request level parts.logging_handler

  unfoldable pub logging_branch : JsonRpcRequest Json → Outcome (JsonRpcResponse Json)
  logging_branch request = logged request (string_member api request.params (text "level"))
