-- ===== src/Server/Dispatch/Tests.antt =====
-- server.cpp: requests to a server whose listing of prompts throws.
use cxxmcp.Prelude.{
  ℕ, ◌≡◌, ◌⊎◌, not, ◌||◌, Bytes, refl, true, false, codes, text, none, some, [], err, ErrorCode,
  error_code, bytes_eq, pos,
}
use cxxmcp.Prelude.Dict.{find, assign}
use cxxmcp.Protocol.Types.{number, JsonRpcRequest}
use cxxmcp.Protocol.Json.{JsonApi, JsonLaws, member, is_object}
use cxxmcp.Protocol.Encode.{int_text}
use cxxmcp.Prelude.Decimal.{to_string}
use cxxmcp.Protocol.Samples.{Tree, nothing, whole, words, struct, nil, cons, sample, sample_laws}
use cxxmcp.Server.Registry.Catalog.{empty}
use cxxmcp.Server.Requests.{request_cancellation_key, begin_request_cancellation, none_begun}
use cxxmcp.Server.Dispatch.Parts.{returned, threw, answered, Context, Operation, Parts}
use cxxmcp.Server.Dispatch.Responses.{has_value, IsResponse, RespondsIfAny}
use cxxmcp.Server.Dispatch.Methods.{
  raw_context_reply, raw_reply, dispatch, choose, first_branches, later_branches, task_branches,
  catalog_branches, client_branches,
}
use cxxmcp.Server.Dispatch.Handle.{
  State, handle_request_impl, authenticate_context, run_admitted, admitted, limited, handle_request,
}
use cxxmcp.Server.Dispatch.Stamped.{handle_request-stamped}
use cxxmcp.Server.Dispatch.Wire.{
  string_member, request_wire_version, wire_version_requires_result_type,
  method_requires_cache_hints, with_default, with_cache_hints, stamped_result, stamped,
}
use cxxmcp.Server.Dispatch.Branches.{listing_branch}
use cxxmcp.Server.Dispatch.Replies.{listing_reply, caught}
use cxxmcp.Protocol.Encode.{make_response}
use cxxmcp.Server.Dispatch.Answered.{handle_request_answers}
use cxxmcp.Server.Dispatch.Fits.{ChangesSubscriptions}

api : JsonApi Tree
api = sample [] nothing

abbrev no_items : Operation Tree
no_items params context token = returned (answered (struct nil))

abbrev fails : Operation Tree
fails params context token = threw (codes "no prompts")

abbrev parts : Parts Tree
parts = record {
  options = record {
    capabilities = struct nil;
    resources_subscribe = true;
    server_name = codes "s";
    server_version = codes "1";
    instructions = [];
  };
  auth_provider = none;
  rate_limiter = none;
  serialized_json_size = λ params. 0;
  raw_request_context_handler = none;
  raw_request_handler = none;
  tasks_list = none;
  tasks_get = none;
  tasks_cancel = none;
  tasks_result = none;
  tools_list = no_items;
  prompts_list = fails;
  resources_list = no_items;
  resource_templates_list = no_items;
  prompts_get = no_items;
  resources_read = no_items;
  completion_handler = none;
  sampling_handler = none;
  logging_handler = none;
  tools = empty;
  schema_validator = none;
  submit_tool_call = none;
  tool_call_from_json = λ params. err record {
    code = error_code ErrorCode.invalid_params;
    message = [];
    detail = [];
    category = [];
  };
  tool_definition_to_json = λ tool. nothing;
  tool_result_to_json = λ result. nothing;
  bad_function_call = codes "bad_function_call";
}

abbrev prompts : JsonRpcRequest Tree
prompts = record {
  method = text "prompts/list";
  params = struct nil;
  id = number (pos 5);
  meta = some (
      struct
        (cons (text "io.modelcontextprotocol/protocolVersion") (words (text "2026-07-28")) nil));
  transport_headers = [];
  protocol_version_override = none;
}

abbrev context : Context
context = record {
  session_id = codes "a";
  remote_address = [];
  headers = [];
  http_method = none;
  http_url = none;
  host = record { auth_identity = none; transport = 8 };
}

-- another request is active
abbrev before : State ℕ
before = record {
  subscriptions = [];
  requests = begin_request_cancellation (number (pos 4)) none_begun;
}

abbrev other_key : Bytes
other_key = request_cancellation_key (number (pos 4))

no_raw_context :
    (c : Context) (token : ℕ)
    → RespondsIfAny prompts.id (raw_context_reply api (λ json. false) parts prompts c token)
unfolding raw_context_reply
no_raw_context c token = tt

no_raw : (c : Context) → RespondsIfAny prompts.id (raw_reply api (λ json. false) parts prompts c)
unfolding raw_reply
no_raw c = tt

id_is_free : find (request_cancellation_key prompts.id) before.requests.active ≡ none
unfolding find assign request_cancellation_key begin_request_cancellation bytes_eq int_text
    to_string
id_is_free = refl

handle_request_answers_example :
    IsResponse prompts.id (handle_request api (λ json. false) parts prompts context before).1
    × (find other_key
          (handle_request api (λ json. false) parts prompts context before).0.requests.active
        ≡ find other_key before.requests.active)
    × (((handle_request api (λ json. false) parts prompts context before).0.subscriptions
          ≡ before.subscriptions)
        ⊎ ChangesSubscriptions prompts.method)
handle_request_answers_example =
    handle_request_answers api (λ json. false) parts prompts context before other_key no_raw_context
      no_raw id_is_free

abbrev listing : JsonRpcRequest Tree
listing = record prompts { method = text "tools/list" }

abbrev listed : Tree
listed = struct (
    cons (text "cacheScope") (words (text "private")) (
      cons (text "ttlMs") (whole (pos 0)) (cons (text "resultType") (words (text "complete")) nil)))

listing_result :
    (handle_request api (λ json. false) parts listing context before).1.result ≡ some listed
unfolding api sample text bytes_eq find member string_member request_wire_version
    wire_version_requires_result_type method_requires_cache_hints with_default with_cache_hints
    stamped_result stamped handle_request handle_request_impl authenticate_context run_admitted
    admitted limited dispatch choose first_branches later_branches task_branches catalog_branches
    client_branches raw_context_reply raw_reply listing_branch listing_reply make_response caught
listing_result = refl

newer_wire : wire_version_requires_result_type (request_wire_version api listing context) ≡ true
unfolding api sample text bytes_eq find member string_member request_wire_version
    wire_version_requires_result_type
newer_wire = refl

is_listed : is_object (api.view listed) ≡ true
unfolding api sample
is_listed = refl

api_laws : JsonLaws api
unfolding api
api_laws = sample_laws [] nothing

handle_request-stamped_example :
    (has_value (member api listed (text "resultType")) ≡ true)
    × ((has_value (member api listed (text "ttlMs"))
          || not (method_requires_cache_hints listing.method))
        ≡ true)
    × ((has_value (member api listed (text "cacheScope"))
          || not (method_requires_cache_hints listing.method))
        ≡ true)
handle_request-stamped_example =
    handle_request-stamped api api_laws (λ json. false) parts listing context before listed
      listing_result is_listed newer_wire
