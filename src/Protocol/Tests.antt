-- ===== src/Protocol/Tests.antt =====
-- The theorems on messages, at trees as JSON values.
use cxxmcp.Prelude.{
  ◌≡◌, ◌≤◌, ◌<◌, refl, inl, inr, Bytes, text, bytes_eq, none, some, [], ok, ◌>>=◌, pos, negsuc,
  length, arith,
}
use cxxmcp.Prelude.Decimal.{to_string}
use cxxmcp.Prelude.Dict.{find}
use cxxmcp.Protocol.Json.{JsonApi, member}
use cxxmcp.Protocol.Samples.{
  Tree, nothing, whole, words, struct, nil, cons, dict, trees, dump_tree, sample, sample_laws,
}
use cxxmcp.Protocol.Types.{
  number, JsonRpcRequest, JsonRpcNotification, request_id_to_json, request_id_from_json,
}
use cxxmcp.Protocol.Ids.{request_id_from_json_wraps}
use cxxmcp.Protocol.Limits.{
  validate_json_document_limits, limits_loop, visit, add_entries, add_string, push_members,
}
use cxxmcp.Protocol.Limits.Depth.{here, inside, validate_json_document_limits_lem}
use cxxmcp.Protocol.Decode.{normalized_params, parse_request, parse_notification}
use cxxmcp.Protocol.Encode.{
  int_text, should_serialize_params, serialize_request, serialize_notification,
}
use cxxmcp.Protocol.RoundTrip.Texts.{Reads}
use cxxmcp.Protocol.RoundTrip.Requests.{request_members, notification_members}
use cxxmcp.Protocol.RoundTrip.Messages.{
  received_request, received_notification, parse_request-serialize_request,
  parse_notification-serialize_notification,
}

-- a call of a tool with a progress token and no parameters but it
abbrev call : JsonRpcRequest Tree
call = record {
  method = text "ping";
  params = nothing;
  id = number (negsuc 6);
  meta = some (struct (cons (text "progressToken") (whole (pos 4)) nil));
  transport_headers = [];
  protocol_version_override = some (text "2025-06-18");
}

abbrev call_text : Bytes
call_text = text "{\"jsonrpc\":\"2.0\",\"id\":-7,\"method\":\"ping\",\"params\":{..}}"

abbrev call_document : Tree
call_document = struct (
    trees (unfold normalized_params request_id_to_json in request_members (sample [] nothing) call))

abbrev call_api : JsonApi Tree
call_api = sample call_text call_document

call_reads : Reads call_api (request_members call_api call)
unfolding normalized_params request_id_to_json text bytes_eq int_text to_string sample dump_tree
call_reads = record {
  document = call_document;
  members = dict (trees (request_members call_api call));
  parsed = refl;
  viewed = refl;
  found = λ key. refl;
}

parse_request-serialize_request_example :
    (serialize_request call_api call >>= λ s. parse_request call_api s)
    ≡ ok (received_request call_api call)
unfolding normalized_params sample dump_tree text validate_json_document_limits limits_loop visit
    add_entries add_string push_members call_reads
parse_request-serialize_request_example =
    parse_request-serialize_request call_api (sample_laws call_text call_document) call call_reads
      (λ e. absurd (cc e)) (ground arith) (refl, refl) refl

abbrev notice : JsonRpcNotification Tree
notice = record { method = text "notifications/initialized"; params = struct nil; meta = none }

abbrev notice_document : Tree
notice_document =
    struct (trees (unfold normalized_params in notification_members (sample [] nothing) notice))

abbrev notice_api : JsonApi Tree
notice_api =
    sample (text "{\"jsonrpc\":\"2.0\",\"method\":\"notifications/initialized\"}") notice_document

notice_reads : Reads notice_api (notification_members notice_api notice)
unfolding normalized_params should_serialize_params text bytes_eq sample dump_tree
notice_reads = record {
  document = notice_document;
  members = dict (trees (notification_members notice_api notice));
  parsed = refl;
  viewed = refl;
  found = λ key. refl;
}

parse_notification-serialize_notification_example :
    (serialize_notification notice_api notice >>= λ s. parse_notification notice_api s)
    ≡ ok (received_notification notice_api notice)
unfolding normalized_params should_serialize_params sample dump_tree text
    validate_json_document_limits limits_loop visit add_entries add_string push_members member find
    bytes_eq notice_reads
parse_notification-serialize_notification_example =
    parse_notification-serialize_notification notice_api (sample_laws _ notice_document) notice
      notice_reads (λ e. absurd (cc e)) (refl, λ m e. absurd (cc e)) refl

-- the name of the method of the call
validate_json_document_limits_lem_example : (1 < 128) × (length (text "ping") ≤ 16777216)
unfolding normalized_params request_id_to_json sample dump_tree text validate_json_document_limits
    limits_loop visit add_entries add_string push_members
validate_json_document_limits_lem_example =
    validate_json_document_limits_lem call_api call_document refl 1 (words (text "ping"))
      (inside (inr (inr (inl refl))) here)

-- the id 2^64 - 1 is read as -1
request_id_from_json_wraps_example :
    request_id_from_json call_api (whole (pos 18446744073709551615)) ≡ some (number (negsuc 0))
unfolding sample dump_tree
request_id_from_json_wraps_example =
    request_id_from_json_wraps call_api (whole (pos 18446744073709551615)) 9223372036854775807
      (omega arith) refl
