-- ===== src/Protocol/Types.antt =====
-- The JSON-RPC records of protocol/types.hpp.
use cxxmcp.Prelude.{Bytes, text, Option, none, some, ℤ, if◌then◌else◌}
use cxxmcp.Prelude.Dict.{Dict}
use cxxmcp.Protocol.Json.{View, integer, string, JsonApi, get_int64, member, is_object}
use cxxmcp.Server.TaskManager.State.{ProgressToken}

-- `std::variant<std::int64_t, std::string>`
pub data RequestId : Type 0 where
  number : ℤ → RequestId
  name : Bytes → RequestId

pub record ErrorObject (Json : Type 0) : Type 0 where
  pub code : ℤ
  pub message : Bytes
  -- `data`
  pub payload : Option Json

pub record JsonRpcRequest (Json : Type 0) : Type 0 where
  pub method : Bytes
  pub params : Json
  pub id : RequestId
  pub meta : Option Json
  pub transport_headers : Dict Bytes
  pub protocol_version_override : Option Bytes

pub record JsonRpcResponse (Json : Type 0) : Type 0 where
  pub id : Option RequestId
  pub result : Option Json
  pub error : Option (ErrorObject Json)
  pub meta : Option Json

pub record JsonRpcNotification (Json : Type 0) : Type 0 where
  pub method : Bytes
  pub params : Json
  pub meta : Option Json

pub data JsonRpcMessage (Json : Type 0) : Type 0 where
  request : JsonRpcRequest Json → JsonRpcMessage Json
  response : JsonRpcResponse Json → JsonRpcMessage Json
  notification : JsonRpcNotification Json → JsonRpcMessage Json

module _ {Json : Type 0} (api : JsonApi Json) where
  unfoldable pub request_id_to_json : RequestId → Json
  request_id_to_json (number z) = api.of_integer z
  request_id_to_json (name s) = api.of_string s

  unfoldable pub progress_token_to_json : ProgressToken → Json
  progress_token_to_json (ProgressToken.number z) = api.of_integer z
  progress_token_to_json (ProgressToken.string s) = api.of_string s

abbrev id_of : {Json : Type 0} → View Json → Option RequestId
id_of (integer z) = some (number (get_int64 z))
id_of (string s) = some (name s)
id_of _ = none

abbrev token_of : {Json : Type 0} → View Json → Option ProgressToken
token_of (integer z) = some (ProgressToken.number (get_int64 z))
token_of (string s) = some (ProgressToken.string s)
token_of _ = none

module _ {Json : Type 0} (api : JsonApi Json) where
  unfoldable pub request_id_from_json : Json → Option RequestId
  request_id_from_json json = id_of (api.view json)

  unfoldable pub progress_token_from_json : Json → Option ProgressToken
  progress_token_from_json json = token_of (api.view json)

  unfoldable pub meta_progress_token : Json → Option ProgressToken
  meta_progress_token meta = elim (member api meta (text "progressToken")) [
    | none ↦ none
    | some token ↦ progress_token_from_json token
  ]

  -- `nullopt` stands for the false of a value that is no object.
  unfoldable pub set_meta_progress_token : Json → ProgressToken → Option Json
  set_meta_progress_token meta token =
      if is_object (api.view meta)
      then some (api.set_member (text "progressToken") (progress_token_to_json api token) meta)
      else none

  unfoldable pub meta_with_progress_token : ProgressToken → Json
  meta_with_progress_token token =
      api.set_member (text "progressToken") (progress_token_to_json api token) api.empty_object
