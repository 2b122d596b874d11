-- ===== src/Server/Registry/Tests.antt =====
-- The registries' theorems at concrete calls. A JSON value is a number, and 0 an empty one; the host
-- and the token of a session are of the unit type.
use cxxmcp.Prelude.{
  ℕ, ◌≤◌, ◌≡◌, ◌≢◌, ◌↔◌, Bool, false, Bytes, text, none, some, List, [], ◌∷◌, ok, All, length, ◌==◌,
}
use cxxmcp.Prelude.Dict.{find}
use cxxmcp.Server.Registry.Names.{validate_tool_name, IsToolNameChar, validate_tool_name_iff}
use cxxmcp.Server.Registry.Catalog.{list, Call, adds, lists, moves}
use cxxmcp.Server.Registry.Listing.{Ascending, lookup, definition_at, list_is_current}
use cxxmcp.Server.Registry.Tools.{
  ToolDefinition, ToolCall, ToolResult, SessionContext, ToolHandler, Validator, check_tool,
  call_tool,
}
use cxxmcp.Server.Registry.Calls.{Succeeds, call_tool_iff}
use cxxmcp.Server.Registry.Handlers.{tools_after, call_tool_answers}

abbrev is_zero : ℕ → Bool
is_zero n = n == 0

abbrev tool : Bytes → ToolDefinition ℕ
tool name = record {
  name = name;
  input_schema = 7;
  output_schema = 0;
  output_schema_present = false;
  execution = none;
  rest = 0;
}

abbrev answer : ToolResult ℕ
answer = record { structured_content = some 5; rest = 0 }

abbrev handler : ToolHandler ℕ (Unit {0}) (Unit {0})
handler context = ok answer

abbrev accepts : Validator ℕ
accepts schema instance_ target name = ok tt

abbrev history : List (Call (ToolDefinition ℕ) (ToolHandler ℕ (Unit {0}) (Unit {0})))
history =
    adds (tool (text "b")) (some handler)
    ∷ lists
    ∷ adds (tool (text "a")) (some handler)
    ∷ moves
    ∷ []

abbrev call : ToolCall ℕ
call = record { name = text "a"; arguments = 3; task = none; meta = none; rest = 0 }

abbrev session : SessionContext (Unit {0})
session = record {
  session_id = text "s";
  remote_address = [];
  headers = [];
  http_method = none;
  http_url = none;
  host = tt;
}

validate_tool_name_iff_example : (validate_tool_name (text "read_file") ≡ ok tt) ↔ (
    (text "read_file" ≢ [])
    × (length (text "read_file") ≤ 128)
    × All IsToolNameChar (text "read_file"))
validate_tool_name_iff_example = validate_tool_name_iff (text "read_file")

list_is_current_example :
    Ascending (λ d. d.name) (list (λ d. d.name) (tools_after history)).1
    × ((k : Bytes)
        → lookup (λ d. d.name) k (list (λ d. d.name) (tools_after history)).1
          ≡ definition_at (λ d. d.name) (find k (tools_after history).entries))
list_is_current_example =
    list_is_current (λ d. d.name) check_tool (text "tool already exists") history

call_tool_iff_example :
    (call_tool is_zero (tools_after history) call session tt (some accepts) ≡ some (ok answer))
    ↔ Succeeds is_zero (tools_after history) call session tt (some accepts) answer
call_tool_iff_example =
    call_tool_iff is_zero (tools_after history) call session tt (some accepts) answer

call_tool_answers_example :
    call_tool is_zero (tools_after history) call session tt (some accepts) ≢ none
call_tool_answers_example = call_tool_answers is_zero history call session tt (some accepts)
