-- ===== src/Server/Dispatch/Handle.antt =====
-- server.cpp: handle_request, from the authentication to the fields that it adds to the result.
use cxxmcp.Prelude.{
  ℕ, Bool, if◌then◌else◌, text, Option, none, some, [], Result, ok, err, ErrorCode, error_code,
  length,
}
use cxxmcp.Protocol.Json.{JsonApi}
use cxxmcp.Protocol.Types.{JsonRpcRequest, JsonRpcResponse}
use cxxmcp.Server.Auth.{AuthIdentity, make_auth_error}
use cxxmcp.Server.Subscriptions.{Subscriptions}
use cxxmcp.Server.Requests.{Requests, begin_request_cancellation, end_request_cancellation}
use cxxmcp.Server.Dispatch.Parts.{
  Outcome, returned, threw, threw_unknown, ◌then◌, Context, RateLimitRequest, RateLimitDecision,
  Parts,
}
use cxxmcp.Server.Dispatch.Wire.{stamped}
use cxxmcp.Server.Dispatch.Replies.{error_reply, make_auth_error_response, caught}
use cxxmcp.Server.Dispatch.Methods.{Handled, or_next, dispatch}

module _ {Json : Type 0} (api : JsonApi Json) (is_empty : Json → Bool) (parts : Parts Json) where
  -- The rate limiter; `none` lets the request pass.
  abbrev pub limited_by :
      JsonRpcRequest Json → Result RateLimitDecision → Option (JsonRpcResponse Json)
  limited_by request (err error) = some (
      error_reply api request (error_code ErrorCode.rate_limited) (text "rate limiting failed")
        error.message)
  limited_by request (ok decision) =
      if decision.allowed
      then none
      else some (
          error_reply api request (error_code ErrorCode.rate_limited) (text "request rate limited")
            [])

  abbrev pub limit_by :
      JsonRpcRequest Json
      → Context
      → Option (RateLimitRequest → Outcome (Result RateLimitDecision))
      → Outcome (Option (JsonRpcResponse Json))
  limit_by request context none = returned none
  limit_by request context (some check) =
      check record {
        subject = context.session_id;
        method = request.method;
        request_bytes = parts.serialized_json_size request.params;
      }
      then (λ decision. returned (limited_by request decision))

  unfoldable pub limited : JsonRpcRequest Json → Context → Outcome (Option (JsonRpcResponse Json))
  limited request context = limit_by request context parts.rate_limiter

  unfoldable pub admitted : JsonRpcRequest Json → Context → ℕ → Subscriptions → Handled Json
  admitted request context token subscriptions =
      or_next api is_empty parts subscriptions (limited request context)
        (dispatch api is_empty parts request context token subscriptions)

  -- `authenticate_context`
  abbrev with_identity : Context → Result AuthIdentity → Result Context
  with_identity context (err error) = err (make_auth_error error.message error.detail)
  with_identity context (ok identity) =
      ok record context { host = record context.host { auth_identity = some identity } }

  unfoldable pub authenticate_context : Context → Outcome (Result Context)
  authenticate_context context = elim parts.auth_provider [
    | none ↦ returned (ok context)
    | some authenticate ↦ elim context.host.auth_identity [
      | some identity ↦ returned (ok context)
      | none ↦
          authenticate record {
            headers = context.headers;
            remote_address = context.remote_address;
            http_method = context.http_method;
            http_url = context.http_url;
          }
          then (λ identity. returned (with_identity context identity))
    ]
  ]

-- What a request can change: the subscriptions, and the table of active requests.
pub record State (F : Type 0) : Type 0 where
  pub subscriptions : Subscriptions
  pub requests : Requests F

module _ {Json F : Type 0} (api : JsonApi Json) (is_empty : Json → Bool) (parts : Parts Json) where
  -- The end of the request is that of the scope, also when a handler throws.
  unfoldable pub run_admitted :
      JsonRpcRequest Json → Context → State F → State F × JsonRpcResponse Json
  run_admitted request context state =
      let token = length state.requests.sources in
      let handled = admitted api is_empty parts request context token state.subscriptions in
      (
        record {
          subscriptions = handled.0;
          requests =
              end_request_cancellation request.id
                (begin_request_cancellation request.id state.requests);
        },
        caught api request handled.1,
      )

  abbrev pub after_authentication :
      JsonRpcRequest Json → State F → Outcome (Result Context) → State F × JsonRpcResponse Json
  after_authentication request state (returned (err error)) =
      (state, make_auth_error_response api request error.message)
  after_authentication request state (returned (ok context)) = run_admitted request context state
  after_authentication request state (threw what) = (state, caught api request (threw what))
  after_authentication request state threw_unknown = (state, caught api request threw_unknown)

  unfoldable pub handle_request_impl :
      JsonRpcRequest Json → Context → State F → State F × JsonRpcResponse Json
  handle_request_impl request context state =
      after_authentication request state (authenticate_context api is_empty parts context)

  -- The version of the wire is read from the context that the caller gave.
  unfoldable pub handle_request :
      JsonRpcRequest Json → Context → State F → State F × JsonRpcResponse Json
  handle_request request context state =
      let handled = handle_request_impl request context state in
      (handled.0, stamped api request context handled.1)
