-- ===== src/Server/Dispatch/Responses.antt =====
-- server.cpp: the responses of the branches.
use cxxmcp.Prelude.{
  ℕ, ℤ, ◌≡◌, refl, Bool, true, false, not, if◌then◌else◌, Bool-cases, inl, inr, Bytes, text, Option,
  none, some, [], Result, ok, err, Error, ErrorCode, error_code,
}
use cxxmcp.Protocol.Json.{JsonApi}
use cxxmcp.Protocol.Types.{RequestId, JsonRpcRequest, JsonRpcResponse}
use cxxmcp.Protocol.Encode.{make_response, make_error_response}
use cxxmcp.Server.Registry.Tools.{ToolCall, ToolDefinition, ToolResult, get_tool, is_requested}
use cxxmcp.Server.Subscriptions.{Subscriptions}
use cxxmcp.Server.Dispatch.Parts.{
  Outcome, returned, threw, threw_unknown, ◌then◌, Answer, Context, Operation, Parts,
}
use cxxmcp.Server.Dispatch.Wire.{negotiate_protocol_version}
use cxxmcp.Server.Dispatch.Replies.{
  error_reply, make_auth_error_response, make_params_error_response, failure_reply, answer_reply,
  listing_reply, initialize_reply, caught, validate_initialize_params, negotiated_reply,
  initialized,
}
use cxxmcp.Server.Dispatch.Branches.{
  optional_branch, plain_branch, listing_branch, tool_found, tool_reply, tools_get_branch,
  submitted, submit_by, submit_valid, called, call_parsed, log_by, logged, subscription_set,
  subscription_of, task_branch, call_branch, without_hint, subscription_branch,
}

abbrev pub has_value : {A : Type 0} → Option A → Bool
has_value none = false
has_value (some a) = true

-- A response to the request of this id, with a result or an error but not both.
abbrev pub IsResponse : {Json : Type 0} → RequestId → JsonRpcResponse Json → Type 0
IsResponse id response =
    (response.id ≡ some id) × (has_value response.result ≡ not (has_value response.error))

-- Such a response, where the call returns.
abbrev pub Responds : {Json : Type 0} → RequestId → Outcome (JsonRpcResponse Json) → Type 0
Responds id (returned response) = IsResponse id response
Responds id (threw what) = Unit
Responds id threw_unknown = Unit

-- The same for a raw handler, which may also have no response.
abbrev pub RespondsIfAny :
    {Json : Type 0} → RequestId → Outcome (Option (JsonRpcResponse Json)) → Type 0
RespondsIfAny id (returned none) = Unit
RespondsIfAny id (returned (some response)) = IsResponse id response
RespondsIfAny id (threw what) = Unit
RespondsIfAny id threw_unknown = Unit

Responds-then :
    {A Json : Type 0} (id : RequestId) (m : Outcome A) (reply : A → JsonRpcResponse Json)
    → ((a : A) → IsResponse id (reply a))
    → Responds id (m then (λ a. returned (reply a)))
Responds-then id (returned a) reply h = h a
Responds-then id (threw what) reply h = tt
Responds-then id threw_unknown reply h = tt

module _ {Json : Type 0} (api : JsonApi Json) (is_empty : Json → Bool) (parts : Parts Json)
    (request : JsonRpcRequest Json) where
  failure_reply-IsResponse :
      (error : Error) → IsResponse request.id (failure_reply api request error)
  unfolding failure_reply error_reply make_error_response
  failure_reply-IsResponse error = (refl, refl)

  answer_reply-IsResponse :
      (answer : Answer Json) → IsResponse request.id (answer_reply api request answer)
  unfolding answer_reply make_params_error_response error_reply make_error_response make_response
      failure_reply
  answer_reply-IsResponse (Answer.params_failed error) = (refl, refl)
  answer_reply-IsResponse (Answer.failed error) = (refl, refl)
  answer_reply-IsResponse (Answer.answered result) = (refl, refl)

  listing_reply-IsResponse :
      (message : Bytes) (answer : Answer Json)
      → IsResponse request.id (listing_reply api request message answer)
  unfolding listing_reply error_reply make_error_response make_response failure_reply
  listing_reply-IsResponse message (Answer.params_failed error) = (refl, refl)
  listing_reply-IsResponse message (Answer.failed error) = (refl, refl)
  listing_reply-IsResponse message (Answer.answered result) = (refl, refl)

  pub optional_branch-Responds :
      (operation : Option (Operation Json)) (message : Bytes) (context : Context) (token : ℕ)
      → Responds request.id
          (optional_branch api is_empty parts operation message request context token)
  unfolding optional_branch error_reply make_error_response
  optional_branch-Responds none message context token = (refl, refl)
  optional_branch-Responds (some operation) message context token =
      Responds-then request.id (operation request.params context token) (answer_reply api request)
        answer_reply-IsResponse

  pub listing_branch-Responds :
      (operation : Operation Json) (message : Bytes) (context : Context) (token : ℕ)
      → Responds request.id
          (listing_branch api is_empty parts operation message request context token)
  unfolding listing_branch
  listing_branch-Responds operation message context token =
      Responds-then request.id (operation request.params context token)
        (listing_reply api request message) (listing_reply-IsResponse message)

  pub plain_branch-Responds :
      (operation : Operation Json) (context : Context) (token : ℕ)
      → Responds request.id (plain_branch api is_empty parts operation request context token)
  unfolding plain_branch
  plain_branch-Responds operation context token =
      Responds-then request.id (operation request.params context token) (answer_reply api request)
        answer_reply-IsResponse

  pub error_reply-IsResponse :
      (code : ℤ) (message detail : Bytes)
      → IsResponse request.id (error_reply api request code message detail)
  unfolding error_reply make_error_response
  error_reply-IsResponse code message detail = (refl, refl)

  params_error-IsResponse :
      (error : Error) → IsResponse request.id (make_params_error_response api request error)
  unfolding make_params_error_response
  params_error-IsResponse error = error_reply-IsResponse _ _ _

  pub result-IsResponse : (result : Json) → IsResponse request.id (make_response request.id result)
  unfolding make_response
  result-IsResponse result = (refl, refl)

  tool_reply-IsResponse :
      (name : Option Bytes) → IsResponse request.id (tool_reply api is_empty parts request name)
  tool_reply-IsResponse none = error_reply-IsResponse _ _ _
  tool_reply-IsResponse (some name) = found (get_tool parts.tools name)
    where
      found :
          (tool : Result (ToolDefinition Json))
          → IsResponse request.id (tool_found api is_empty parts request tool)
      found (err error) = failure_reply-IsResponse error
      found (ok tool) = result-IsResponse _

  pub tools_get_branch-IsResponse :
      IsResponse request.id (tools_get_branch api is_empty parts request)
  unfolding tools_get_branch
  tools_get_branch-IsResponse = tool_reply-IsResponse _

  submit_valid-Responds :
      (context : Context) (call : ToolCall Json) (valid : Result (Unit {0}))
      → Responds request.id (submit_valid api is_empty parts request context call valid)
  submit_valid-Responds context call (err error) = params_error-IsResponse error
  submit_valid-Responds context call (ok _) = by parts.submit_tool_call
    where
      reply :
          (task : Result Json) → IsResponse request.id (submitted api is_empty parts request task)
      reply (err error) = params_error-IsResponse error
      reply (ok task) = result-IsResponse task

      by :
          (submit : Option (ToolCall Json → Context → Outcome (Result Json)))
          → Responds request.id (submit_by api is_empty parts request context call submit)
      by none =
          error_reply-IsResponse (error_code ErrorCode.method_not_found)
            (text "task processor is not configured") []
      by (some submit) =
          Responds-then request.id (submit call context) (submitted api is_empty parts request)
            reply

  called-Responds :
      (result : Option (Result (ToolResult Json)))
      → Responds request.id (called api is_empty parts request result)
  called-Responds none = tt
  called-Responds (some (err error)) = failure_reply-IsResponse error
  called-Responds (some (ok result)) = result-IsResponse _

  pub call_parsed-Responds :
      (context : Context) (token : ℕ) (call : Result (ToolCall Json))
      → Responds request.id (call_parsed api is_empty parts request context token call)
  unfolding call_branch task_branch
  call_parsed-Responds context token (err error) = params_error-IsResponse error
  call_parsed-Responds context token (ok call) =
      let hinted = without_hint api is_empty parts request context call in
      elim (Bool-cases (is_requested hinted.task)) [
        | inl task ↦ rw task (submit_valid-Responds context hinted _)
        | inr plain ↦ rw plain (called-Responds _)
      ]

  subscription_of-Responds :
      (context : Context) (subscriptions : Subscriptions) (uri : Option Bytes)
      → Responds request.id (subscription_of api is_empty parts request context subscriptions uri).1
  subscription_of-Responds context subscriptions none = error_reply-IsResponse _ _ _
  subscription_of-Responds context subscriptions (some uri) = set _
    where
      set :
          (after : Result Subscriptions)
          → Responds request.id (subscription_set api is_empty parts request subscriptions after).1
      set (err error) = failure_reply-IsResponse error
      set (ok after) = result-IsResponse api.empty_object

  pub subscription_branch-Responds :
      (context : Context) (subscriptions : Subscriptions)
      → Responds request.id (subscription_branch api is_empty parts request context subscriptions).1
  unfolding subscription_branch
  subscription_branch-Responds context subscriptions =
      elim (Bool-cases parts.options.resources_subscribe) [
        | inl enabled ↦ rw enabled (subscription_of-Responds context subscriptions _)
        | inr disabled ↦ rw disabled (error_reply-IsResponse _ _ _)
      ]

  pub logged-Responds :
      (level : Option Bytes) → Responds request.id (logged api is_empty parts request level)
  logged-Responds none = error_reply-IsResponse _ _ _
  logged-Responds (some level) = by parts.logging_handler
    where
      by :
          (handler : Option (Bytes → Outcome (Unit {0})))
          → Responds request.id (log_by api is_empty parts request level handler)
      by none = result-IsResponse api.empty_object
      by (some handler) =
          Responds-then request.id (handler level) (λ _. make_response request.id api.empty_object)
            (λ _. result-IsResponse api.empty_object)

  pub initialize_reply-IsResponse :
      IsResponse request.id (initialize_reply api parts.options request)
  unfolding initialize_reply
  initialize_reply-IsResponse = replied (validate_initialize_params api request.params)
    where
      negotiated :
          (requested : Bytes) (version : Option Bytes)
          → IsResponse request.id (negotiated_reply api parts.options request requested version)
      negotiated requested none = error_reply-IsResponse _ _ _
      negotiated requested (some version) = result-IsResponse _

      replied :
          (version : Result Bytes)
          → IsResponse request.id (initialized api parts.options request version)
      replied (err error) = failure_reply-IsResponse error
      replied (ok version) = negotiated version (negotiate_protocol_version version)

  pub caught-IsResponse :
      (outcome : Outcome (JsonRpcResponse Json))
      → Responds request.id outcome
      → IsResponse request.id (caught api request outcome)
  unfolding caught
  caught-IsResponse (returned response) h = h
  caught-IsResponse (threw what) h = failure_reply-IsResponse _
  caught-IsResponse threw_unknown h = failure_reply-IsResponse _

  pub auth_error-IsResponse :
      (detail : Bytes) → IsResponse request.id (make_auth_error_response api request detail)
  unfolding make_auth_error_response make_error_response
  auth_error-IsResponse detail = (refl, refl)
