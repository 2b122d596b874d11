-- ===== src/Server/Dispatch/Parts.antt =====
-- What a request is handled with: the server's configuration, and the functions that the dispatcher
-- calls. `Token` is the place of a cancellation source, as in Server/Requests.
use cxxmcp.Prelude.{ℕ, ℤ, Bool, Bytes, Option, Result, Error}
use cxxmcp.Protocol.Types.{JsonRpcRequest, JsonRpcResponse}
use cxxmcp.Server.Auth.{AuthRequest, AuthIdentity}
use cxxmcp.Server.Registry.Tools.{
  SessionContext, ToolCall, ToolDefinition, ToolResult, Tools, Validator,
}

-- A call of C++: it returns, or it throws a `std::exception` with its `what()`, or anything else.
pub data Outcome {ℓ} (A : Type ℓ) : Type ℓ where
  returned : A → Outcome A
  threw : (what : Bytes) → Outcome A
  threw_unknown : Outcome A

infixl 5 ◌then◌
abbrev pub ◌then◌ {ℓ κ} :
    {A : Type ℓ} {B : Type κ} (m : Outcome A) (rest : A → Outcome B) → Outcome B
m then rest = elim m [
  | returned a ↦ rest a
  | threw what ↦ threw what
  | threw_unknown ↦ threw_unknown
]

-- The fields of a `SessionContext` that stand for its connection.
pub record Connection : Type 0 where
  pub auth_identity : Option AuthIdentity
  -- an address, 0 the null pointer
  pub transport : ℕ

abbrev pub Context : Type 0
Context = SessionContext Connection

pub record RateLimitRequest : Type 0 where
  pub subject : Bytes
  pub method : Bytes
  pub request_bytes : ℕ

pub record RateLimitDecision : Type 0 where
  pub allowed : Bool
  pub retry_after : ℤ

-- What a branch gets when it reads the parameters and calls its operation: the parameters are
-- refused, the operation fails, or there is a result.
pub data Answer (Json : Type 0) : Type 0 where
  params_failed failed : Error → Answer Json
  answered : Json → Answer Json

-- `capabilities` as server_capabilities_to_json writes them
pub record ServerOptions (Json : Type 0) : Type 0 where
  pub capabilities : Json
  pub resources_subscribe : Bool
  pub server_name : Bytes
  pub server_version : Bytes
  pub instructions : Bytes

abbrev pub Operation : Type 0 → Type 0
Operation Json = Json → Context → ℕ → Outcome (Answer Json)

-- The members of `Server`; the handlers and operations are the parameters of the model. A task
-- operation is `none` when neither its handler nor the task processor is set.
pub record Parts (Json : Type 0) : Type 0 where
  pub options : ServerOptions Json
  pub auth_provider : Option (AuthRequest → Outcome (Result AuthIdentity))
  pub rate_limiter : Option (RateLimitRequest → Outcome (Result RateLimitDecision))
  pub serialized_json_size : Json → ℕ
  pub raw_request_context_handler :
      Option (JsonRpcRequest Json → Context → ℕ → Outcome (Option (JsonRpcResponse Json)))
  pub raw_request_handler :
      Option (JsonRpcRequest Json → Context → Outcome (Option (JsonRpcResponse Json)))
  pub tasks_list : Option (Operation Json)
  pub tasks_get : Option (Operation Json)
  pub tasks_cancel : Option (Operation Json)
  pub tasks_result : Option (Operation Json)
  pub tools_list : Operation Json
  pub prompts_list : Operation Json
  pub resources_list : Operation Json
  pub resource_templates_list : Operation Json
  pub prompts_get : Operation Json
  pub resources_read : Operation Json
  pub completion_handler : Option (Operation Json)
  pub sampling_handler : Option (Operation Json)
  pub logging_handler : Option (Bytes → Outcome (Unit {0}))
  pub tools : Tools Json Connection ℕ
  pub schema_validator : Option (Validator Json)
  pub submit_tool_call : Option (ToolCall Json → Context → Outcome (Result Json))
  pub tool_call_from_json : Json → Result (ToolCall Json)
  pub tool_definition_to_json : ToolDefinition Json → Json
  pub tool_result_to_json : ToolResult Json → Json
  -- the text of `std::bad_function_call`
  pub bad_function_call : Bytes
