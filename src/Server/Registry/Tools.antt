-- ===== src/Server/Registry/Tools.antt =====
-- `ToolRegistry`. `Json` is the type of JSON values and `is_empty` its `empty()`; `Host` stands for the
-- identity, the transport and its lifetime in a `SessionContext`, and `Token` for a cancellation
-- token. The fields of the definitions, calls and results that the registry only carries are `rest`.
use cxxmcp.Prelude.{
  ℤ, Bool, true, false, not, ◌||◌, Bytes, text, Option, none, some, List, [], ◌∷◌, ◌++◌, Result, ok,
  err, guarded, Error, ErrorCode, error_code, if◌then◌else◌,
}
use cxxmcp.Prelude.Dict.{Dict, find}
use cxxmcp.Server.Registry.Names.{validate_tool_name}
use cxxmcp.Server.Registry.Catalog.{Entry, Registry, registry_error, add, list}

pub data TaskSupport : Type 0 where
  forbidden optional required : TaskSupport

pub record ToolDefinition (Json : Type 0) : Type 0 where
  pub name : Bytes
  pub input_schema : Json
  pub output_schema : Json
  pub output_schema_present : Bool
  -- `execution` and its `task_support`
  pub execution : Option (Option TaskSupport)
  pub rest : Json

pub record ToolCall (Json : Type 0) : Type 0 where
  pub name : Bytes
  pub arguments : Json
  pub task : Option (Option ℤ)
  pub meta : Option Json
  pub rest : Json

pub record ToolResult (Json : Type 0) : Type 0 where
  pub structured_content : Option Json
  pub rest : Json

pub record SessionContext (Host : Type 0) : Type 0 where
  pub session_id : Bytes
  pub remote_address : Bytes
  pub headers : Dict Bytes
  pub http_method : Option Bytes
  pub http_url : Option Bytes
  pub host : Host

-- A `ToolContext` is a `SessionContext` with more fields.
pub record ToolContext (Json Host Token : Type 0) : Type 0 where
  pub session : SessionContext Host
  pub arguments : Json
  pub meta : Option Json
  pub task : Option (Option ℤ)
  pub cancellation : Token

pub data SchemaValidationTarget : Type 0 where
  tool_input tool_output : SchemaValidationTarget

-- `JsonSchemaValidator::validate` on a schema, an instance and a context
abbrev pub Validator : Type 0 → Type 0
Validator Json = Json → Json → SchemaValidationTarget → Bytes → Result (Unit {0})

-- A handler that throws passes the exception on through `call`; here it returns.
abbrev pub ToolHandler : Type 0 → Type 0 → Type 0 → Type 0
ToolHandler Json Host Token = ToolContext Json Host Token → Result (ToolResult Json)

unfoldable pub schema_error : ErrorCode → Bytes → Bytes → Error
schema_error code message detail = record {
  code = error_code code;
  message = message;
  detail = detail;
  category = text "schema";
}

-- `": "` and the text, unless it is empty
abbrev suffix : Bytes → Bytes
suffix [] = []
suffix (c ∷ s) = text ": " ++ (c ∷ s)

unfoldable pub schema_validation_error : ErrorCode → Bytes → Bytes → Error → Error
schema_validation_error code message tool_name cause =
    schema_error code (message ++ suffix cause.message) (tool_name ++ suffix cause.detail)

abbrev support_error : Bytes → Bytes → Error
support_error message name = registry_error ErrorCode.invalid_request message name

abbrev pub check_task_support : TaskSupport → (task_requested : Bool) → Bytes → Result (Unit {0})
check_task_support forbidden true name =
    err (support_error (text "tool does not support task-based invocation") name)
check_task_support required false name =
    err (support_error (text "tool requires task-based invocation") name)
check_task_support _ _ name = ok tt

abbrev pub is_requested : Option (Option ℤ) → Bool
is_requested none = false
is_requested (some _) = true

module _ {Json : Type 0} where
  unfoldable pub task_support : ToolDefinition Json → TaskSupport
  task_support d = elim d.execution [
    | some (some support) ↦ support
    | some none ↦ forbidden
    | none ↦ forbidden
  ]

  unfoldable pub validate_tool_task_support :
      ToolDefinition Json → ToolCall Json → Result (Unit {0})
  validate_tool_task_support d call =
      check_task_support (task_support d) (is_requested call.task) d.name

-- what a failed validation is turned into
unfoldable pub or_schema_error : ErrorCode → Bytes → Bytes → Result (Unit {0}) → Result (Unit {0})
or_schema_error code message tool_name (ok _) = ok tt
or_schema_error code message tool_name (err cause) =
    err (schema_validation_error code message tool_name cause)

module _ {Json : Type 0} (is_empty : Json → Bool) where
  unfoldable pub validate_tool_input_schema :
      ToolDefinition Json → Json → Option (Validator Json) → Result (Unit {0})
  validate_tool_input_schema d arguments none = ok tt
  validate_tool_input_schema d arguments (some validate) =
      if is_empty d.input_schema
      then ok tt
      else or_schema_error ErrorCode.invalid_params (text "tool input failed schema validation")
          d.name (validate d.input_schema arguments tool_input d.name)

  unfoldable pub validate_tool_output_schema :
      ToolDefinition Json → ToolResult Json → Option (Validator Json) → Result (Unit {0})
  validate_tool_output_schema d result none = ok tt
  validate_tool_output_schema d result (some validate) =
      if not (d.output_schema_present || not (is_empty d.output_schema))
      then ok tt
      else elim result.structured_content [
        | none ↦ err (
            schema_error ErrorCode.internal_error
              (text "tool output failed schema validation: missing structuredContent") d.name)
        | some content ↦
            or_schema_error ErrorCode.internal_error (text "tool output failed schema validation")
              d.name (validate d.output_schema content tool_output d.name)
      ]

  -- `call` after the handler's return
  unfoldable pub checked_result :
      ToolDefinition Json
      → Option (Validator Json)
      → Result (ToolResult Json)
      → Result (ToolResult Json)
  checked_result d validator (err e) = err e
  checked_result d validator (ok result) =
      guarded (validate_tool_output_schema d result validator) (ok result)

unfoldable pub tool_not_found : Bytes → Error
tool_not_found name = registry_error ErrorCode.tool_not_found (text "tool not found") name

abbrev pub Tools : Type 0 → Type 0 → Type 0 → Type 0
Tools Json Host Token = Registry (ToolDefinition Json) (ToolHandler Json Host Token)

module _ {Json Host Token : Type 0} where
  -- the checks of `ToolRegistry::add`
  unfoldable pub check_tool :
      ToolDefinition Json → Option (ToolHandler Json Host Token) → Result (Unit {0})
  check_tool d none =
      guarded (validate_tool_name d.name)
        (err (registry_error ErrorCode.invalid_request (text "tool handler must be callable") []))
  check_tool d (some handler) = validate_tool_name d.name

  unfoldable pub add_tool :
      ToolDefinition Json
      → Option (ToolHandler Json Host Token)
      → Tools Json Host Token
      → Tools Json Host Token × Result (Unit {0})
  add_tool d handler r = add (λ d. d.name) check_tool (text "tool already exists") d handler r

  abbrev definition_or :
      Bytes
      → Option (Entry (ToolDefinition Json) (ToolHandler Json Host Token))
      → Result (ToolDefinition Json)
  definition_or name none = err (tool_not_found name)
  definition_or name (some entry) = ok entry.definition

  unfoldable pub get_tool : Tools Json Host Token → Bytes → Result (ToolDefinition Json)
  get_tool r name = definition_or name (find name r.entries)

  -- `ToolRegistry::validate`
  abbrev validated :
      ToolCall Json
      → Option (Entry (ToolDefinition Json) (ToolHandler Json Host Token))
      → Result (Unit {0})
  validated call none = err (tool_not_found call.name)
  validated call (some entry) = validate_tool_task_support entry.definition call

  unfoldable pub validate_call : Tools Json Host Token → ToolCall Json → Result (Unit {0})
  validate_call r call = validated call (find call.name r.entries)

  unfoldable pub list_tools :
      Tools Json Host Token → Tools Json Host Token × List (ToolDefinition Json)
  list_tools r = list (λ d. d.name) r

  -- The context is new, and two fields of the session's are not copied to it.
  unfoldable pub context_of :
      ToolCall Json → SessionContext Host → Token → ToolContext Json Host Token
  context_of call session token = record {
    session = record session { http_method = none; http_url = none };
    arguments = call.arguments;
    meta = call.meta;
    task = call.task;
    cancellation = token;
  }

-- the same as `guarded`, where the rest may throw
abbrev pub guarded_call {ℓ} :
    {A : Type ℓ} → Result (Unit {0}) → Option (Result A) → Option (Result A)
guarded_call (err e) rest = some (err e)
guarded_call (ok _) rest = rest

module _ {Json Host Token : Type 0} (is_empty : Json → Bool) where
  -- from the call of the handler on; an empty one throws
  unfoldable pub handle :
      ToolDefinition Json
      → Option (ToolHandler Json Host Token)
      → ToolCall Json
      → SessionContext Host
      → Token
      → Option (Validator Json)
      → Option (Result (ToolResult Json))
  handle d none call session token validator = none
  handle d (some handler) call session token validator =
      some (checked_result is_empty d validator (handler (context_of call session token)))

  -- `call` on the entry
  unfoldable pub call_entry :
      Entry (ToolDefinition Json) (ToolHandler Json Host Token)
      → ToolCall Json
      → SessionContext Host
      → Token
      → Option (Validator Json)
      → Option (Result (ToolResult Json))
  call_entry entry call session token validator =
      guarded_call (validate_tool_task_support entry.definition call) (
        guarded_call (validate_tool_input_schema is_empty entry.definition call.arguments validator)
          (handle entry.definition entry.handler call session token validator))

  -- `none` is the exception of an empty handler.
  unfoldable pub call_tool :
      Tools Json Host Token
      → ToolCall Json
      → SessionContext Host
      → Token
      → Option (Validator Json)
      → Option (Result (ToolResult Json))
  call_tool r call session token validator = elim (find call.name r.entries) [
    | none ↦ some (err (tool_not_found call.name))
    | some entry ↦ call_entry entry call session token validator
  ]
