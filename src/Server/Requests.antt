-- ===== src/Server/Requests.antt =====
-- sdk/server/src/server.cpp: the table of the requests that can be cancelled. A source is its place in
-- the list of all sources that the server has made; what is behind it is a CancellationState.
pub mod Keys
pub mod Reach
mod Tests
use cxxmcp.Prelude.{
  ℕ, ◌+◌, suc, zero, Bytes, codes, text, Option, none, some, List, [], ◌∷◌, ◌++◌, length,
}
use cxxmcp.Prelude.Dict.{Dict, find, assign, erase}
use cxxmcp.Protocol.Types.{RequestId}
use cxxmcp.Protocol.Encode.{int_text}
use cxxmcp.Cancellation.{CancellationState, fresh, exchange_cancelled, take_callbacks}

unfoldable pub request_cancellation_key : RequestId → Bytes
request_cancellation_key (RequestId.number integer_id) = codes "i:" ++ int_text integer_id
request_cancellation_key (RequestId.name string_id) = codes "s:" ++ string_id

-- `active_request_cancellations_`, and the sources that are in use
pub record Requests (F : Type 0) : Type 0 where
  pub sources : List (CancellationState F)
  pub active : Dict ℕ

module _ {F : Type 0} where
  abbrev pub none_begun : Requests F
  none_begun = record { sources = []; active = [] }

  -- The token is that of the source made last.
  unfoldable pub begin_request_cancellation : RequestId → Requests F → Requests F
  begin_request_cancellation request_id requests = record {
    sources = requests.sources ++ fresh ∷ [];
    active = assign (request_cancellation_key request_id) (length requests.sources) requests.active;
  }

  unfoldable pub end_request_cancellation : RequestId → Requests F → Requests F
  end_request_cancellation request_id requests = record {
    sources = requests.sources;
    active = erase (request_cancellation_key request_id) requests.active;
  }

  -- `CancellationSource::cancel` on the source: its flag and its callbacks
  unfoldable pub cancel_source : ℕ → List (CancellationState F) → List (CancellationState F)
  cancel_source source [] = []
  cancel_source zero (state ∷ sources) = (take_callbacks (exchange_cancelled state).0).0 ∷ sources
  cancel_source (suc source) (state ∷ sources) = state ∷ cancel_source source sources

  abbrev pub cancel_entry : Option ℕ → List (CancellationState F) → List (CancellationState F)
  cancel_entry none sources = sources
  cancel_entry (some source) sources = cancel_source source sources

  unfoldable pub cancel_request : RequestId → Requests F → Requests F
  cancel_request request_id requests = record {
    sources =
        cancel_entry (find (request_cancellation_key request_id) requests.active) requests.sources;
    active = requests.active;
  }
