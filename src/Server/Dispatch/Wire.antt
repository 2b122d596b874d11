-- ===== src/Server/Dispatch/Wire.antt =====
-- The protocol versions of protocol/serialization.hpp, the wire version of server/transport.hpp, and
-- the fields that handle_request adds to a result.
use cxxmcp.Prelude.{
  Bool, true, false, ◌&&◌, ◌||◌, ◌==◌, if◌then◌else◌, Bytes, text, bytes_eq, Option, none, some,
  List, [], ◌∷◌, map, length, pos,
}
use cxxmcp.Prelude.Dict.{Dict}
use cxxmcp.Protocol.Json.{View, JsonApi, member, is_object}
use cxxmcp.Protocol.Types.{JsonRpcRequest, JsonRpcResponse}
use cxxmcp.Server.Auth.{lower}
use cxxmcp.Server.Dispatch.Parts.{Context}

abbrev pub mcp_protocol_version : Bytes
mcp_protocol_version = text "2025-11-25"

unfoldable pub mcp_supported_protocol_versions : List Bytes
mcp_supported_protocol_versions =
    text "2024-11-05"
    ∷ text "2025-03-26"
    ∷ text "2025-06-18"
    ∷ text "2025-11-25"
    ∷ text "2026-07-28"
    ∷ text "DRAFT-2026-v1"
    ∷ []

abbrev pub is_one_of : Bytes → List Bytes → Bool
is_one_of version [] = false
is_one_of version (supported ∷ rest) =
    let later = is_one_of version rest in if bytes_eq version supported then true else later

unfoldable pub is_supported_protocol_version : Bytes → Bool
is_supported_protocol_version version = is_one_of version mcp_supported_protocol_versions

unfoldable pub negotiate_protocol_version : Bytes → Option Bytes
negotiate_protocol_version requested =
    if is_one_of requested mcp_supported_protocol_versions then some requested else none

abbrev pub version_header : Dict Bytes → Option Bytes
version_header [] = none
version_header ((name, value) ∷ headers) =
    let later = version_header headers in
    if length name == 20 && bytes_eq (map lower name) (text "mcp-protocol-version")
    then some value
    else later

abbrev or_else : Option Bytes → Bytes → Bytes
or_else none default = default
or_else (some value) default = value

abbrev first_of : Option Bytes → Option Bytes → Option Bytes
first_of none second = second
first_of (some value) second = some value

abbrev text_of : {Json : Type 0} → View Json → Option Bytes
text_of (View.string s) = some s
text_of _ = none

unfoldable pub wire_version_requires_result_type : Bytes → Bool
wire_version_requires_result_type version =
    bytes_eq version (text "2026-07-28") || bytes_eq version (text "DRAFT-2026-v1")

unfoldable pub method_requires_cache_hints : Bytes → Bool
method_requires_cache_hints method =
    bytes_eq method (text "server/discover")
    || bytes_eq method (text "tools/list")
    || bytes_eq method (text "prompts/list")
    || bytes_eq method (text "resources/list")
    || bytes_eq method (text "resources/templates/list")
    || bytes_eq method (text "resources/read")

module _ {Json : Type 0} (api : JsonApi Json) where
  -- a member that is a string; `none` where a test before `at` fails
  unfoldable pub string_member : Json → Bytes → Option Bytes
  string_member json key = elim (member api json key) [
    | none ↦ none
    | some value ↦ text_of (api.view value)
  ]

  abbrev meta_version : Option Json → Option Bytes
  meta_version none = none
  meta_version (some meta) = string_member meta (text "io.modelcontextprotocol/protocolVersion")

  unfoldable pub request_wire_version : JsonRpcRequest Json → Context → Bytes
  request_wire_version request context =
      or_else
        (first_of (meta_version request.meta)
          (first_of request.protocol_version_override (version_header context.headers)))
        mcp_protocol_version

  abbrev pub set_if_missing : Bytes → Json → Json → Option Json → Json
  set_if_missing key value json none = api.set_member key value json
  set_if_missing key value json (some _) = json

  -- `if (!json.contains(key)) json[key] = value;`
  unfoldable pub with_default : Bytes → Json → Json → Json
  with_default key value json = set_if_missing key value json (member api json key)

  unfoldable pub with_cache_hints : Json → Json
  with_cache_hints result =
      with_default (text "cacheScope") (api.of_string (text "private"))
        (with_default (text "ttlMs") (api.of_integer (pos 0)) result)

  unfoldable pub stamped_result : JsonRpcRequest Json → Context → Json → Json
  stamped_result request context result =
      if is_object (api.view result)
        && wire_version_requires_result_type (request_wire_version request context)
      then (let typed = with_default (text "resultType") (api.of_string (text "complete")) result in
          if method_requires_cache_hints request.method then with_cache_hints typed else typed)
      else result

  abbrev pub stamped_option : JsonRpcRequest Json → Context → Option Json → Option Json
  stamped_option request context none = none
  stamped_option request context (some result) = some (stamped_result request context result)

  -- `handle_request` after `handle_request_impl`
  unfoldable pub stamped :
      JsonRpcRequest Json → Context → JsonRpcResponse Json → JsonRpcResponse Json
  stamped request context response = record response {
    result = stamped_option request context response.result;
  }
