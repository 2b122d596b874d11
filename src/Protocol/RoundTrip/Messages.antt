-- ===== src/Protocol/RoundTrip/Messages.antt =====
-- Whole requests and notifications, through their texts.
use cxxmcp.Prelude.{
  ◌≡◌, ◌≢◌, refl, ◌∙◌, Bool, true, false, Bytes, text, bytes_eq, bytes_eq_refl, Option, none, some,
  [], ◌∷◌, ok, ◌>>=◌, ℤ, pos, negsuc, if◌then◌else◌, arith,
}
use cxxmcp.Prelude.Dict.{Dict, find}
use cxxmcp.Protocol.Json.{View, JsonApi, JsonLaws, FitsInt64, get_int64, member}
use cxxmcp.Protocol.Types.{
  RequestId, number, name, JsonRpcRequest, JsonRpcNotification, request, notification,
  request_id_to_json, request_id_from_json,
}
use cxxmcp.Protocol.Limits.{validate_json_document_limits}
use cxxmcp.Protocol.Decode.{
  normalized_params, method_of, params_from_document_or_empty, meta_from_params,
  request_or_notification, required_request_id_from_document, validate_jsonrpc_version,
  parse_json_document, request_from_document, notification_from_document, message_from_document,
  parse_message, parse_request, parse_notification,
}
use cxxmcp.Protocol.Encode.{should_serialize_params, serialize_request, serialize_notification}
use cxxmcp.Protocol.RoundTrip.Texts.{object_text, Reads}
use cxxmcp.Protocol.RoundTrip.Requests.{
  IsSendable, sent_params, sent_meta, params_members, request_members, notification_members,
  serialize_request_lem, serialize_notification_lem, member-Reads, params_lem,
}

abbrev pub FitsId : RequestId → Type 0
FitsId (number z) = FitsInt64 z
FitsId (name s) = Unit

get_int64_fits : (z : ℤ) → FitsInt64 z → get_int64 z ≡ z
unfolding get_int64
get_int64_fits (pos n) h = ground arith
get_int64_fits (negsuc n) h = ground arith

method_lem :
    (Json : Type 0) (method : Bytes)
    → method ≢ []
    → method_of {Json = Json} (View.string method) ≡ ok method
method_lem Json [] h = absurd (h refl)
method_lem Json (c ∷ s) h = refl

module _ {Json : Type 0} (api : JsonApi Json) where
  -- What arrives of a request: the headers and the version are not sent.
  abbrev pub received_request : JsonRpcRequest Json → JsonRpcRequest Json
  received_request r = record {
    method = r.method;
    params = sent_params api (normalized_params api r.params) r.meta;
    id = r.id;
    meta = sent_meta api (normalized_params api r.params) r.meta;
    transport_headers = [];
    protocol_version_override = none;
  }

  abbrev pub received_notification : JsonRpcNotification Json → JsonRpcNotification Json
  received_notification n = record {
    method = n.method;
    params = sent_params api (normalized_params api n.params) n.meta;
    meta = sent_meta api (normalized_params api n.params) n.meta;
  }

module _ {Json : Type 0} (api : JsonApi Json) (laws : JsonLaws api) where
  request_id_lem :
      (id : RequestId) → FitsId id → request_id_from_json api (request_id_to_json api id) ≡ some id
  unfolding request_id_from_json request_id_to_json
  request_id_lem (number z) h = rw (laws.view_integer z h) (rw (get_int64_fits z h) refl)
  request_id_lem (name s) h = rw (laws.view_string s) refl

  version_lem :
      (document : Json)
      → member api document (text "jsonrpc") ≡ some (api.of_string (text "2.0"))
      → validate_jsonrpc_version api document ≡ ok tt
  unfolding validate_jsonrpc_version
  version_lem document e =
      rw (e, validate_jsonrpc_version)
        (rw (laws.view_string (text "2.0")) (rw (bytes_eq_refl (text "2.0")) refl))

  document_lem :
      {ms : Dict Json} (reads : Reads api ms)
      → validate_json_document_limits api reads.document ≡ ok tt
      → parse_json_document api (object_text api ms) ≡ ok reads.document
  unfolding parse_json_document
  document_lem reads small =
      rw ((reads.parsed), parse_json_document) (rw (reads.viewed) (rw small refl))

  -- No member of the parameters has another name.
  no_other :
      (params : Json) (meta : Option Json) (key : Bytes)
      → bytes_eq (text "params") key ≡ false
      → find key (params_members api params meta) ≡ none
  unfolding find
  no_other params none key h = plain (should_serialize_params api params)
    where
      plain : (b : Bool) → find key (if b then (text "params", params) ∷ [] else []) ≡ none
      plain true = rw h refl
      plain false = refl
  no_other params (some meta) key h = rw h refl

  -- A document with a method and with neither a result nor an error.
  classified_lem :
      (document method : Json) (id : Option Json)
      → member api document (text "jsonrpc") ≡ some (api.of_string (text "2.0"))
      → member api document (text "result") ≡ none
      → member api document (text "error") ≡ none
      → member api document (text "method") ≡ some method
      → member api document (text "id") ≡ id
      → message_from_document api document ≡ request_or_notification api document method id
  unfolding message_from_document
  classified_lem document method id v r e m i =
      rw (version_lem document v) (rw r (rw e (rw m (rw i refl))))

  request_document_lem :
      (document : Json) (id : RequestId) (method : Bytes) (params : Json) (meta : Option Json)
      → method ≢ []
      → FitsId id
      → member api document (text "id") ≡ some (request_id_to_json api id)
      → params_from_document_or_empty api document ≡ ok params
      → meta_from_params api params ≡ ok meta
      → request_from_document api document (api.of_string method)
        ≡ ok (record {
          method = method;
          params = params;
          id = id;
          meta = meta;
          transport_headers = [];
          protocol_version_override = none;
        })
  unfolding request_from_document required_request_id_from_document
  request_document_lem document id method params meta there fits i p m =
      rw (laws.view_string method) (
        rw (method_lem Json method there) (
          rw p
            (rw m (rw (i, required_request_id_from_document) (rw (request_id_lem id fits) refl)))))

  notification_document_lem :
      (document : Json) (method : Bytes) (params : Json) (meta : Option Json)
      → method ≢ []
      → params_from_document_or_empty api document ≡ ok params
      → meta_from_params api params ≡ ok meta
      → notification_from_document api document (api.of_string method)
        ≡ ok (record { method = method; params = params; meta = meta })
  unfolding notification_from_document
  notification_document_lem document method params meta there p m =
      rw (laws.view_string method) (rw (method_lem Json method there) (rw p (rw m refl)))

  request_message_lem :
      (r : JsonRpcRequest Json) (document : Json)
      → r.method ≢ []
      → FitsId r.id
      → IsSendable api (normalized_params api r.params) r.meta
      → ((key : Bytes) → member api document key ≡ find key (request_members api r))
      → message_from_document api document ≡ ok (request (received_request api r))
  unfolding find text bytes_eq
  request_message_lem r document there fits sendable at =
      let sent = normalized_params api r.params in
      let (params, meta) = params_lem api laws document sent r.meta sendable (at (text "params")) in
      let classified =
        classified_lem document (api.of_string r.method) (some (request_id_to_json api r.id))
          (at (text "jsonrpc")) (at (text "result") ∙ no_other sent r.meta (text "result") refl)
          (at (text "error") ∙ no_other sent r.meta (text "error") refl) (at (text "method"))
          (at (text "id")) in
      classified
      ∙ rw
          (request_document_lem document r.id r.method (sent_params api sent r.meta)
            (sent_meta api sent r.meta) there fits (at (text "id")) params meta)
          refl

  notification_message_lem :
      (n : JsonRpcNotification Json) (document : Json)
      → n.method ≢ []
      → IsSendable api (normalized_params api n.params) n.meta
      → ((key : Bytes) → member api document key ≡ find key (notification_members api n))
      → message_from_document api document ≡ ok (notification (received_notification api n))
  unfolding find text bytes_eq
  notification_message_lem n document there sendable at =
      let sent = normalized_params api n.params in
      let (params, meta) = params_lem api laws document sent n.meta sendable (at (text "params")) in
      let classified =
        classified_lem document (api.of_string n.method) none (at (text "jsonrpc"))
          (at (text "result") ∙ no_other sent n.meta (text "result") refl)
          (at (text "error") ∙ no_other sent n.meta (text "error") refl) (at (text "method"))
          (at (text "id") ∙ no_other sent n.meta (text "id") refl) in
      classified
      ∙ rw
          (notification_document_lem document n.method (sent_params api sent n.meta)
            (sent_meta api sent n.meta) there params meta)
          refl

  -- A request written is read back: with the method and the id as they were, with the parameters as they
  -- were, null as an empty object, and the metadata merged into them. It holds if the method is not
  -- empty, an integer id fits 64 bits with a sign, the parameters are an object or, without metadata, of
  -- a kind that `params` may have, the metadata are an object, the parser reads the text of these
  -- members, and the document keeps the limits.
  pub parse_request-serialize_request :
      (r : JsonRpcRequest Json) (reads : Reads api (request_members api r))
      → r.method ≢ []
      → FitsId r.id
      → IsSendable api (normalized_params api r.params) r.meta
      → validate_json_document_limits api reads.document ≡ ok tt
      → (serialize_request api r >>= λ s. parse_request api s) ≡ ok (received_request api r)
  unfolding parse_request parse_message
  parse_request-serialize_request r reads there fits sendable small =
      rw (serialize_request_lem api r sendable) (
        rw (document_lem reads small) (
          rw (request_message_lem r reads.document there fits sendable (member-Reads api reads))
            refl))

  -- A notification written is read back: with the method as it was, with the parameters as they were,
  -- null as an empty object, and the metadata merged into them. It holds if the method is not empty, the
  -- parameters are an object or, without metadata, of a kind that `params` may have, the metadata are an
  -- object, the parser reads the text of these members, and the document keeps the limits.
  pub parse_notification-serialize_notification :
      (n : JsonRpcNotification Json) (reads : Reads api (notification_members api n))
      → n.method ≢ []
      → IsSendable api (normalized_params api n.params) n.meta
      → validate_json_document_limits api reads.document ≡ ok tt
      → (serialize_notification api n >>= λ s. parse_notification api s)
        ≡ ok (received_notification api n)
  unfolding parse_notification parse_message
  parse_notification-serialize_notification n reads there sendable small =
      rw (serialize_notification_lem api n sendable) (
        rw (document_lem reads small) (
          rw (notification_message_lem n reads.document there sendable (member-Reads api reads))
            refl))
