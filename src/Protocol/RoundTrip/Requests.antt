-- ===== src/Protocol/RoundTrip/Requests.antt =====
-- The texts of requests and notifications, and what is read from their documents.
use cxxmcp.Prelude.{
  ◌≡◌, refl, sym, ap, ◌∙◌, Bool, true, false, Bytes, text, bytes_eq, bytes_eq_refl, Option, none,
  some, [], ◌∷◌, ok, if◌then◌else◌, arith,
}
use cxxmcp.Prelude.Dict.{Dict, find}
use cxxmcp.Protocol.Json.{
  View, null, real, boolean, integer, string, array, object, JsonApi, JsonLaws, member, member_of,
  is_object,
}
use cxxmcp.Protocol.Types.{JsonRpcRequest, JsonRpcNotification, request_id_to_json}
use cxxmcp.Protocol.Decode.{
  normalized_of, normalized_params, check_params, params_from_document_or_empty, object_meta,
  meta_from_params,
}
use cxxmcp.Protocol.Encode.{
  Output, append_json_property, append_string_property, has_content, should_serialize_params,
  append_params_property, serialize_request, serialize_notification,
}
use cxxmcp.Protocol.RoundTrip.Texts.{object_text, append_all, object_text_lem, Reads}

module _ {Json : Type 0} (api : JsonApi Json) where
  -- What may be sent: parameters of a kind that `params` may have, and metadata that is an object, given
  -- beside parameters that are one, or standing in the parameters.
  abbrev pub IsSendable : Json → Option Json → Type 0
  IsSendable params none =
      (check_params (api.view params) ≡ ok tt)
      × ((meta : Json)
          → member api params (text "_meta") ≡ some meta
          → is_object (api.view meta) ≡ true)
  IsSendable params (some meta) =
      (is_object (api.view params) ≡ true) × (is_object (api.view meta) ≡ true)

  -- The parameters that arrive: an empty object is not sent.
  abbrev pub sent_params : Json → Option Json → Json
  sent_params params none = if should_serialize_params api params then params else api.empty_object
  sent_params params (some meta) = api.set_member (text "_meta") meta params

  -- The metadata that arrive.
  abbrev pub sent_meta : Json → Option Json → Option Json
  sent_meta params none = member api params (text "_meta")
  sent_meta params (some meta) = some meta

  abbrev pub params_members : Json → Option Json → Dict Json
  params_members params none =
      if should_serialize_params api params then (text "params", params) ∷ [] else []
  params_members params (some meta) =
      (text "params", api.set_member (text "_meta") meta params) ∷ []

  abbrev pub request_members : JsonRpcRequest Json → Dict Json
  request_members r =
      (text "jsonrpc", api.of_string (text "2.0"))
      ∷ (text "id", request_id_to_json api r.id)
      ∷ (text "method", api.of_string r.method)
      ∷ params_members (normalized_params api r.params) r.meta

  abbrev pub notification_members : JsonRpcNotification Json → Dict Json
  notification_members n =
      (text "jsonrpc", api.of_string (text "2.0"))
      ∷ (text "method", api.of_string n.method)
      ∷ params_members (normalized_params api n.params) n.meta

  append_params_lem :
      (params : Json) (meta : Option Json) (o : Output)
      → IsSendable (normalized_params api params) meta
      → append_params_property api params meta o
        ≡ ok (append_all api (params_members (normalized_params api params) meta) o)
  unfolding append_params_property
  append_params_lem params none o h = ground arith
  append_params_lem params (some meta) o (p, m) = rw p refl

  pub serialize_request_lem :
      (r : JsonRpcRequest Json)
      → IsSendable (normalized_params api r.params) r.meta
      → serialize_request api r ≡ ok (object_text api (request_members r))
  unfolding serialize_request append_string_property append_json_property
  serialize_request_lem r h =
      rw (append_params_lem r.params r.meta _ h) (ap ok (object_text_lem api (request_members r)))

  pub serialize_notification_lem :
      (n : JsonRpcNotification Json)
      → IsSendable (normalized_params api n.params) n.meta
      → serialize_notification api n ≡ ok (object_text api (notification_members n))
  unfolding serialize_notification append_string_property append_json_property
  serialize_notification_lem n h =
      rw (append_params_lem n.params n.meta _ h)
        (ap ok (object_text_lem api (notification_members n)))

  pub member-Reads :
      {ms : Dict Json} (reads : Reads api ms) (key : Bytes)
      → member api reads.document key ≡ find key ms
  unfolding member
  member-Reads reads key = rw (reads.viewed) (reads.found key)

module _ {Json : Type 0} (api : JsonApi Json) (laws : JsonLaws api) where
  -- Parameters of a kind that may be sent are left as they are.
  normalized_same :
      (params : Json)
      → check_params (api.view params) ≡ ok tt
      → normalized_params api params ≡ params
  unfolding normalized_params
  normalized_same params h = same (api.view params) h
    where
      same : (v : View Json) → check_params v ≡ ok tt → normalized_of api params v ≡ params
      same null k = absurd (cc k)
      same real k = refl
      same (boolean b) k = refl
      same (integer z) k = refl
      same (string s) k = refl
      same (array items) k = refl
      same (object ms) k = refl

  object_meta_lem :
      (message : Bytes) (found : Option Json)
      → ((meta : Json) → found ≡ some meta → is_object (api.view meta) ≡ true)
      → object_meta api message found ≡ ok found
  object_meta_lem message none h = refl
  object_meta_lem message (some meta) h = rw (h meta refl) refl

  object_of : (v : View Json) → is_object v ≡ true → (ms : Dict Json) × (v ≡ object ms)
  object_of (object ms) h = (ms, refl)
  object_of null h = absurd (cc h)
  object_of real h = absurd (cc h)
  object_of (boolean b) h = absurd (cc h)
  object_of (integer z) h = absurd (cc h)
  object_of (string s) h = absurd (cc h)
  object_of (array items) h = absurd (cc h)

  member_of_nothing :
      (v : View Json) (key : Bytes) → has_content api v ≡ false → member_of api v key ≡ none
  unfolding find
  member_of_nothing (object []) key h = refl
  member_of_nothing (object (m ∷ ms)) key h = absurd (cc h)
  member_of_nothing null key h = refl
  member_of_nothing real key h = refl
  member_of_nothing (boolean b) key h = refl
  member_of_nothing (integer z) key h = refl
  member_of_nothing (string s) key h = refl
  member_of_nothing (array items) key h = refl

  find_params :
      (b : Bool) (params : Json)
      → find (text "params") (if b then (text "params", params) ∷ [] else [])
        ≡ (if b then some params else none)
  unfolding find text bytes_eq
  find_params true params = refl
  find_params false params = refl

  -- Parameters that are there, and those that are not.
  params_there :
      (document params : Json)
      → check_params (api.view params) ≡ ok tt
      → member api document (text "params") ≡ some params
      → params_from_document_or_empty api document ≡ ok params
  unfolding params_from_document_or_empty
  params_there document params kind e =
      rw (e, params_from_document_or_empty) (rw (normalized_same params kind) (rw kind refl))

  params_absent :
      (document : Json)
      → member api document (text "params") ≡ none
      → params_from_document_or_empty api document ≡ ok api.empty_object
  unfolding params_from_document_or_empty
  params_absent document e = rw (e, params_from_document_or_empty) refl

  member_of_empty : (key : Bytes) → member api api.empty_object key ≡ none
  unfolding member find
  member_of_empty key = rw (laws.view_empty) refl

  plain_params_lem :
      (document params : Json) (b : Bool)
      → should_serialize_params api params ≡ b
      → IsSendable api params none
      → member api document (text "params") ≡ (if b then some params else none)
      → (params_from_document_or_empty api document ≡ ok (if b then params else api.empty_object))
        × (meta_from_params api (if b then params else api.empty_object)
            ≡ ok (member api params (text "_meta")))
  unfolding meta_from_params should_serialize_params
  plain_params_lem document params true content (kind, fits) e = (
    params_there document params kind e,
    object_meta_lem _ (member api params (text "_meta")) fits,
  )
  plain_params_lem document params false content (kind, fits) e = (
    params_absent document e,
    rw (member_of_empty (text "_meta"))
        (ap ok (sym (unfold member in member_of_nothing (api.view params) (text "_meta") content))),
  )

  updated_params_lem :
      (document params meta : Json)
      → is_object (api.view params) ≡ true
      → is_object (api.view meta) ≡ true
      → member api document (text "params") ≡ some (api.set_member (text "_meta") meta params)
      → (params_from_document_or_empty api document
          ≡ ok (api.set_member (text "_meta") meta params))
        × (meta_from_params api (api.set_member (text "_meta") meta params) ≡ ok (some meta))
  unfolding meta_from_params
  updated_params_lem document params meta is_params is_meta e =
      let (ms, viewed) = object_of (api.view params) is_params in
      let (ms', viewed', found) = laws.view_set_member (text "_meta") meta params ms viewed in
      let updated = api.set_member (text "_meta") meta params in
      let there : member api updated (text "_meta") ≡ some meta =
        unfold member in
        rw viewed' (found (text "_meta") ∙ rw (bytes_eq_refl (text "_meta")) refl) in
      (
        params_there document updated (rw viewed' refl) e,
        rw there (
            object_meta_lem _ (some meta)
              (λ m same. ap (λ j. is_object (api.view j)) (some_injective (sym same)) ∙ is_meta)),
      )
    where
      some_injective : {a b : Json} → some a ≡ some b → a ≡ b
      some_injective h = cc

  -- What a document with these members has as parameters.
  pub params_lem :
      (document params : Json) (meta : Option Json)
      → IsSendable api params meta
      → member api document (text "params") ≡ find (text "params") (params_members api params meta)
      → (params_from_document_or_empty api document ≡ ok (sent_params api params meta))
        × (meta_from_params api (sent_params api params meta) ≡ ok (sent_meta api params meta))
  params_lem document params none h e =
      plain_params_lem document params (should_serialize_params api params) refl h
        (e ∙ find_params (should_serialize_params api params) params)
  params_lem document params (some meta) (is_params, is_meta) e =
      updated_params_lem document params meta is_params is_meta
        (e ∙ (unfold find bytes_eq text in refl))
