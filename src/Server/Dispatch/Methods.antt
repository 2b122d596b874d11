-- ===== src/Server/Dispatch/Methods.antt =====
-- server.cpp: the choice of the branch by the request's method.
use cxxmcp.Prelude.{
  ℕ, Bool, if◌then◌else◌, Bytes, text, bytes_eq, Option, none, some, List, [], ◌∷◌, ◌++◌, map,
  ErrorCode, error_code,
}
use cxxmcp.Protocol.Json.{JsonApi}
use cxxmcp.Protocol.Types.{JsonRpcRequest, JsonRpcResponse}
use cxxmcp.Protocol.Encode.{make_response}
use cxxmcp.Server.Subscriptions.{Subscriptions}
use cxxmcp.Server.Dispatch.Parts.{
  Outcome, returned, threw, threw_unknown, ◌then◌, Context, Operation, Parts,
}
use cxxmcp.Server.Dispatch.Replies.{error_reply, initialize_reply, discover_result}
use cxxmcp.Server.Dispatch.Branches.{
  optional_branch, plain_branch, listing_branch, tools_get_branch, tools_call_branch,
  subscription_branch, logging_branch,
}

abbrev pub Handled : Type 0 → Type 0
Handled Json = Subscriptions × Outcome (JsonRpcResponse Json)

-- A chain of `if (request.method == name)` that return.
unfoldable pub choose : {A : Type 0} → Bytes → List (Bytes × A) → A → A
choose method [] otherwise = otherwise
choose method ((name, branch) ∷ branches) otherwise =
    let later = choose method branches otherwise in if bytes_eq method name then branch else later

module _ {Json : Type 0} (api : JsonApi Json) (is_empty : Json → Bool) (parts : Parts Json) where
  -- the methods that no raw handler takes over
  unfoldable pub first_branches :
      JsonRpcRequest Json → List (Bytes × Outcome (JsonRpcResponse Json))
  first_branches request =
      (text "initialize", returned (initialize_reply api parts.options request))
      ∷ (text "ping", returned (make_response request.id api.empty_object))
      ∷ (
        text "server/discover",
        returned (make_response request.id (discover_result api parts.options)),
      )
      ∷ []

  unfoldable pub task_branches :
      JsonRpcRequest Json → Context → ℕ → List (Bytes × Outcome (JsonRpcResponse Json))
  task_branches request context token =
      let configured : Option (Operation Json) → Bytes → Outcome (JsonRpcResponse Json) =
        λ operation message.
          optional_branch api is_empty parts operation message request context token in
      (text "tasks/list", configured parts.tasks_list (text "task list handler is not configured"))
      ∷ (text "tasks/get", configured parts.tasks_get (text "task get handler is not configured"))
      ∷ (
        text "tasks/cancel",
        configured parts.tasks_cancel (text "task cancel handler is not configured"),
      )
      ∷ (
        text "tasks/result",
        configured parts.tasks_result (text "task result handler is not configured"),
      )
      ∷ []

  abbrev pub cursor_text : Bytes → Bytes
  cursor_text method = method ++ text " params must be an object with an optional string cursor"

  unfoldable pub catalog_branches :
      JsonRpcRequest Json → Context → ℕ → List (Bytes × Outcome (JsonRpcResponse Json))
  catalog_branches request context token =
      let listing : Operation Json → Bytes → Outcome (JsonRpcResponse Json) = λ operation method.
        listing_branch api is_empty parts operation (cursor_text method) request context token in
      let plain : Operation Json → Outcome (JsonRpcResponse Json) =
        λ operation. plain_branch api is_empty parts operation request context token in
      (text "tools/list", listing parts.tools_list (text "tools/list"))
      ∷ (text "tools/get", returned (tools_get_branch api is_empty parts request))
      ∷ (text "tools/call", tools_call_branch api is_empty parts request context token)
      ∷ (text "prompts/list", listing parts.prompts_list (text "prompts/list"))
      ∷ (text "prompts/get", plain parts.prompts_get)
      ∷ (text "resources/list", listing parts.resources_list (text "resources/list"))
      ∷ (text "resources/read", plain parts.resources_read)
      ∷ (
        text "resources/templates/list",
        listing parts.resource_templates_list (text "resources/templates/list"),
      )
      ∷ []

  unfoldable pub client_branches :
      JsonRpcRequest Json → Context → ℕ → List (Bytes × Outcome (JsonRpcResponse Json))
  client_branches request context token =
      let configured : Option (Operation Json) → Bytes → Outcome (JsonRpcResponse Json) =
        λ operation message.
          optional_branch api is_empty parts operation message request context token in
      (
        text "completion/complete",
        configured parts.completion_handler (text "completion handler is not configured"),
      )
      ∷ (
        text "sampling/createMessage",
        configured parts.sampling_handler (text "sampling handler is not configured"),
      )
      ∷ (text "logging/setLevel", logging_branch api is_empty parts request)
      ∷ []

  abbrev pub unchanged :
      Subscriptions → (Bytes × Outcome (JsonRpcResponse Json)) → Bytes × Handled Json
  unchanged subscriptions (name, branch) = (name, (subscriptions, branch))

  -- The methods behind the raw handlers; only two change the subscriptions.
  unfoldable pub later_branches :
      JsonRpcRequest Json → Context → ℕ → Subscriptions → List (Bytes × Handled Json)
  later_branches request context token subscriptions =
      map (unchanged subscriptions)
        (task_branches request context token ++ catalog_branches request context token)
      ++ (
        text "resources/subscribe",
        subscription_branch api is_empty parts request context subscriptions,
      )
        ∷ (
          text "resources/unsubscribe",
          subscription_branch api is_empty parts request context subscriptions,
        )
        ∷ map (unchanged subscriptions) (client_branches request context token)

  unfoldable pub method_not_found : JsonRpcRequest Json → JsonRpcResponse Json
  method_not_found request =
      error_reply api request (error_code ErrorCode.method_not_found) (text "method not found")
        request.method

  -- The raw handlers, in turn; one that is not set has no response.
  unfoldable pub raw_context_reply :
      JsonRpcRequest Json → Context → ℕ → Outcome (Option (JsonRpcResponse Json))
  raw_context_reply request context token = elim parts.raw_request_context_handler [
    | none ↦ returned none
    | some handler ↦ handler request context token
  ]

  unfoldable pub raw_reply : JsonRpcRequest Json → Context → Outcome (Option (JsonRpcResponse Json))
  raw_reply request context = elim parts.raw_request_handler [
    | none ↦ returned none
    | some handler ↦ handler request context
  ]

  abbrev pub or_next :
      Subscriptions → Outcome (Option (JsonRpcResponse Json)) → Handled Json → Handled Json
  or_next subscriptions (returned none) next = next
  or_next subscriptions (returned (some response)) next = (subscriptions, returned response)
  or_next subscriptions (threw what) next = (subscriptions, threw what)
  or_next subscriptions threw_unknown next = (subscriptions, threw_unknown)

  unfoldable pub dispatch : JsonRpcRequest Json → Context → ℕ → Subscriptions → Handled Json
  dispatch request context token subscriptions =
      choose request.method (map (unchanged subscriptions) (first_branches request)) (
        or_next subscriptions (raw_context_reply request context token) (
          or_next subscriptions (raw_reply request context) (
            choose request.method (later_branches request context token subscriptions)
              (subscriptions, returned (method_not_found request)))))
