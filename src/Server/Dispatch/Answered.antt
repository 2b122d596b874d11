-- ===== src/Server/Dispatch/Answered.antt =====
-- server.cpp: every request is answered.
use cxxmcp.Prelude.{
  ℕ, ◌≡◌, refl, sym, ap, ◌∙◌, Bool, ◌⊎◌, Bool-cases, length, inl, inr, Bytes, bytes_eq,
  bytes_eq_iff, Option, none, some, Result, ok, err,
}
use cxxmcp.Prelude.Dict.{find, assign, find-assign, find-erase}
use cxxmcp.Protocol.Json.{JsonApi}
use cxxmcp.Protocol.Types.{RequestId, JsonRpcRequest, JsonRpcResponse}
use cxxmcp.Server.Requests.{
  Requests, request_cancellation_key, begin_request_cancellation, end_request_cancellation,
}
use cxxmcp.Server.Dispatch.Parts.{Outcome, returned, threw, threw_unknown, Context, Parts}
use cxxmcp.Server.Dispatch.Wire.{stamped_option, stamped}
use cxxmcp.Server.Dispatch.Responses.{
  has_value, IsResponse, RespondsIfAny, caught-IsResponse, auth_error-IsResponse,
}
use cxxmcp.Server.Dispatch.Methods.{raw_context_reply, raw_reply}
use cxxmcp.Server.Dispatch.Handle.{
  authenticate_context, State, run_admitted, after_authentication, handle_request_impl,
  handle_request,
}
use cxxmcp.Server.Dispatch.Fits.{ChangesSubscriptions, admitted-Fits}

has_value-stamped_option :
    {Json : Type 0} (api : JsonApi Json) (request : JsonRpcRequest Json) (context : Context)
    (result : Option Json)
    → has_value (stamped_option api request context result) ≡ has_value result
has_value-stamped_option api request context none = refl
has_value-stamped_option api request context (some result) = refl

stamped-IsResponse :
    {Json : Type 0} (api : JsonApi Json) (request : JsonRpcRequest Json) (context : Context)
    (response : JsonRpcResponse Json)
    → IsResponse request.id response
    → IsResponse request.id (stamped api request context response)
unfolding stamped
stamped-IsResponse api request context response (same, one) =
    (same, has_value-stamped_option api request context response.result ∙ one)

-- The source of a request is gone after it, and those of others stay.
find-begin_end :
    {F : Type 0} (id : RequestId) (requests : Requests F) (key : Bytes)
    → find (request_cancellation_key id) requests.active ≡ none
    → find key (end_request_cancellation id (begin_request_cancellation id requests)).active
      ≡ find key requests.active
unfolding begin_request_cancellation end_request_cancellation
find-begin_end id requests key free =
    let mine = request_cancellation_key id in
    let same = bytes_eq_iff mine key in
    let added = find-assign mine key (length requests.sources) requests.active in
    let erased = find-erase mine key (assign mine (length requests.sources) requests.active) in
    elim (Bool-cases (bytes_eq mine key)) [
      | inl e ↦ erased ∙ rw e (sym (ap (λ k. find k requests.active) (sym (same.0 e)) ∙ free))
      | inr e ↦ erased ∙ rw e (added ∙ rw e refl)
    ]

module _ {Json F : Type 0} (api : JsonApi Json) (is_empty : Json → Bool) (parts : Parts Json)
    (request : JsonRpcRequest Json) where
  abbrev IsHandled : State F → Bytes → State F × JsonRpcResponse Json → Type 0
  IsHandled before key (after, response) =
      IsResponse request.id response
      × ((find key after.requests.active ≡ find key before.requests.active)
          × ((after.subscriptions ≡ before.subscriptions) ⊎ ChangesSubscriptions request.method))

  after_authentication-IsHandled :
      (before : State F) (key : Bytes) (authenticated : Outcome (Result Context))
      → ((context : Context) (token : ℕ)
          → RespondsIfAny request.id (raw_context_reply api is_empty parts request context token))
      → ((context : Context)
          → RespondsIfAny request.id (raw_reply api is_empty parts request context))
      → find (request_cancellation_key request.id) before.requests.active ≡ none
      → IsHandled before key (after_authentication api is_empty parts request before authenticated)
  unfolding run_admitted
  after_authentication-IsHandled before key (returned (err error)) raw_context raw free =
      (auth_error-IsResponse api is_empty parts request _, (refl, inl refl))
  after_authentication-IsHandled before key (returned (ok context)) raw_context raw free =
      let token = length before.requests.sources in
      let fits =
        admitted-Fits api is_empty parts request before.subscriptions context token
          (raw_context context token) (raw context) in
      (
        caught-IsResponse api is_empty parts request _ fits.0,
        (find-begin_end request.id before.requests key free, fits.1),
      )
  after_authentication-IsHandled before key (threw what) raw_context raw free =
      (caught-IsResponse api is_empty parts request _ tt, (refl, inl refl))
  after_authentication-IsHandled before key threw_unknown raw_context raw free =
      (caught-IsResponse api is_empty parts request _ tt, (refl, inl refl))

  -- When the raw handlers, where they have a response, have one to the request, and no request of this
  -- id is active: handle_request has a response to the request, with either a result or an error,
  -- whatever the handlers do, exceptions included; every source that was found in the table of active
  -- requests is found there after it, and no other; and the subscriptions stay as they are unless the
  -- method is resources/subscribe or resources/unsubscribe.
  pub handle_request_answers :
      (context : Context) (before : State F) (key : Bytes)
      → ((context : Context) (token : ℕ)
          → RespondsIfAny request.id (raw_context_reply api is_empty parts request context token))
      → ((context : Context)
          → RespondsIfAny request.id (raw_reply api is_empty parts request context))
      → find (request_cancellation_key request.id) before.requests.active ≡ none
      → IsResponse request.id (handle_request api is_empty parts request context before).1
        × (find key (handle_request api is_empty parts request context before).0.requests.active
            ≡ find key before.requests.active)
        × (((handle_request api is_empty parts request context before).0.subscriptions
              ≡ before.subscriptions)
            ⊎ ChangesSubscriptions request.method)
  unfolding handle_request handle_request_impl
  handle_request_answers context before key raw_context raw free =
      let (responded, rest) =
        after_authentication-IsHandled before key (authenticate_context api is_empty parts context)
          raw_context raw free in
      (stamped-IsResponse api request context _ responded, rest.0, rest.1)
