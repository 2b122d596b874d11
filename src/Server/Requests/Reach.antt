-- ===== src/Server/Requests/Reach.antt =====
-- server.cpp: which source a cancellation reaches.
use cxxmcp.Prelude.{
  ℕ, zero, suc, ◌+◌, ◌<◌, ◌≡◌, refl, ap, ◌∙◌, ◌↔◌, Bool, true, false, ◌==◌, if◌then◌else◌, ℤ, pos,
  negsuc, bytes_eq, bytes_eq_iff, Option, none, some, List, [], ◌∷◌, ◌++◌, length, length-append,
  get_elem?, arith,
}
use cxxmcp.Prelude.Dict.{find, find-assign, find-erase}
use cxxmcp.Protocol.Types.{RequestId}
use cxxmcp.Cancellation.{CancellationState, fresh, is_cancelled, exchange_cancelled, take_callbacks}
use cxxmcp.Server.Requests.{
  request_cancellation_key, Requests, none_begun, begin_request_cancellation,
  end_request_cancellation, cancel_source, cancel_entry, cancel_request,
}
use cxxmcp.Server.Requests.Keys.{request_cancellation_key_injective}

-- What happens at the server, the latest first: a request of a session begins or ends, and a session
-- sends a cancellation of a request.
pub data Event : Type 0 where
  begun ended cancelled : (session : ℕ) → RequestId → Event

module _ (F : Type 0) where
  abbrev pub after_event : Event → Requests F → Requests F
  after_event (begun session request_id) = begin_request_cancellation request_id
  after_event (ended session request_id) = end_request_cancellation request_id
  after_event (cancelled session request_id) = cancel_request request_id

  unfoldable pub requests_after : List Event → Requests F
  requests_after [] = none_begun
  requests_after (event ∷ events) = after_event event (requests_after events)

-- The history, read without the table.
abbrev pub same_int : ℤ → ℤ → Bool
same_int (pos m) (pos n) = m == n
same_int (negsuc m) (negsuc n) = m == n
same_int _ _ = false

unfoldable pub same_id : RequestId → RequestId → Bool
same_id (RequestId.number x) (RequestId.number y) = same_int x y
same_id (RequestId.name s) (RequestId.name t) = bytes_eq s t
same_id _ _ = false

unfoldable pub begins : List Event → ℕ
begins [] = 0
begins (begun session id ∷ events) = 1 + begins events
begins (_ ∷ events) = begins events

-- The source of the request that began last under an id, unless one of that id has ended since. The
-- session plays no part.
unfoldable pub holder : List Event → RequestId → Option ℕ
holder [] id = none
holder (begun session other ∷ events) id =
    let before = holder events id in if same_id other id then some (begins events) else before
holder (ended session other ∷ events) id =
    let before = holder events id in if same_id other id then none else before
holder (cancelled session other ∷ events) id = holder events id

abbrev pub is_at : ℕ → Option ℕ → Bool
is_at source none = false
is_at source (some other) = source == other

-- A cancellation has come while the source was the holder of its id.
unfoldable pub reached : List Event → ℕ → Bool
reached [] source = false
reached (cancelled session id ∷ events) source =
    let before = reached events source in if is_at source (holder events id) then true else before
reached (_ ∷ events) source = reached events source

same_id_iff : (a b : RequestId) → (same_id a b ≡ true) ↔ (a ≡ b)
unfolding same_id
same_id_iff (RequestId.number (pos m)) (RequestId.number (pos n)) = ground arith
same_id_iff (RequestId.number (pos m)) (RequestId.number (negsuc n)) = ground arith
same_id_iff (RequestId.number (negsuc m)) (RequestId.number (pos n)) = ground arith
same_id_iff (RequestId.number (negsuc m)) (RequestId.number (negsuc n)) = ground arith
same_id_iff (RequestId.number x) (RequestId.name t) = ground arith
same_id_iff (RequestId.name s) (RequestId.number y) = ground arith
same_id_iff (RequestId.name s) (RequestId.name t) = ground (arith, bytes_eq_iff s t)

same_key :
    (a b : RequestId)
    → bytes_eq (request_cancellation_key a) (request_cancellation_key b) ≡ same_id a b
same_key a b =
    let keys = bytes_eq_iff (request_cancellation_key a) (request_cancellation_key b) in
    let ids = same_id_iff a b in
    let apart = request_cancellation_key_injective a b in
    let together : a ≡ b → request_cancellation_key a ≡ request_cancellation_key b =
      ap request_cancellation_key in
    ground (arith, keys, ids, apart, together)

length-cancel_source :
    {F : Type 0} (source : ℕ) (sources : List (CancellationState F))
    → length (cancel_source source sources) ≡ length sources
unfolding cancel_source
length-cancel_source source [] = refl
length-cancel_source zero (state ∷ sources) = refl
length-cancel_source (suc source) (state ∷ sources) = ap suc (length-cancel_source source sources)

length-cancel_entry :
    {F : Type 0} (found : Option ℕ) (sources : List (CancellationState F))
    → length (cancel_entry found sources) ≡ length sources
length-cancel_entry none sources = refl
length-cancel_entry (some source) sources = length-cancel_source source sources

length-requests_after :
    (F : Type 0) (events : List Event) → length (requests_after F events).sources ≡ begins events
unfolding requests_after begins begin_request_cancellation end_request_cancellation cancel_request
length-requests_after F [] = refl
length-requests_after F (begun session id ∷ events) = omega (
  arith,
  length-requests_after F events,
  length-append (requests_after F events).sources (fresh ∷ []),
)
length-requests_after F (ended session id ∷ events) = length-requests_after F events
length-requests_after F (cancelled session id ∷ events) =
    length-cancel_entry _ _ ∙ length-requests_after F events

-- The table holds what the history says.
find-requests_after :
    (F : Type 0) (events : List Event) (id : RequestId)
    → find (request_cancellation_key id) (requests_after F events).active ≡ holder events id
unfolding requests_after holder begin_request_cancellation end_request_cancellation cancel_request
    find
find-requests_after F [] id = refl
find-requests_after F (begun session other ∷ events) id =
    find-assign _ _ _ _
    ∙ rw (same_key other id, find-requests_after F events id, length-requests_after F events) refl
find-requests_after F (ended session other ∷ events) id =
    find-erase _ _ _ ∙ rw (same_key other id, find-requests_after F events id) refl
find-requests_after F (cancelled session other ∷ events) id = find-requests_after F events id

holder_is_begun :
    (events : List Event) (id : RequestId) (source : ℕ)
    → holder events id ≡ some source
    → source < begins events
unfolding holder begins
holder_is_begun [] id source h = cc
holder_is_begun (begun session other ∷ events) id source h =
    ground (arith, holder_is_begun events id source)
holder_is_begun (ended session other ∷ events) id source h =
    ground (arith, holder_is_begun events id source)
holder_is_begun (cancelled session other ∷ events) id source h = holder_is_begun events id source h

is_cancelled-append_fresh :
    {F : Type 0} (sources : List (CancellationState F)) (i : ℕ)
    → is_cancelled (get_elem? (sources ++ fresh ∷ []) i) ≡ is_cancelled (get_elem? sources i)
unfolding is_cancelled
is_cancelled-append_fresh [] zero = refl
is_cancelled-append_fresh [] (suc i) = refl
is_cancelled-append_fresh (state ∷ sources) zero = refl
is_cancelled-append_fresh (state ∷ sources) (suc i) = is_cancelled-append_fresh sources i

is_cancelled-cancel_source :
    {F : Type 0} (source : ℕ) (sources : List (CancellationState F)) (i : ℕ)
    → source < length sources
    → is_cancelled (get_elem? (cancel_source source sources) i)
      ≡ (if i == source then true else is_cancelled (get_elem? sources i))
unfolding is_cancelled cancel_source exchange_cancelled take_callbacks
is_cancelled-cancel_source source [] i h = absurd (omega arith)
is_cancelled-cancel_source zero (state ∷ sources) zero h = refl
is_cancelled-cancel_source zero (state ∷ sources) (suc i) h = ground arith
is_cancelled-cancel_source (suc source) (state ∷ sources) zero h = ground arith
is_cancelled-cancel_source (suc source) (state ∷ sources) (suc i) h =
    ground (arith, is_cancelled-cancel_source source sources i)

is_cancelled-cancel_entry :
    {F : Type 0} (found : Option ℕ) (sources : List (CancellationState F)) (i : ℕ)
    → ((source : ℕ) → found ≡ some source → source < length sources)
    → is_cancelled (get_elem? (cancel_entry found sources) i)
      ≡ (if is_at i found then true else is_cancelled (get_elem? sources i))
is_cancelled-cancel_entry none sources i h = refl
is_cancelled-cancel_entry (some source) sources i h =
    is_cancelled-cancel_source source sources i (h source refl)

-- After any history of requests that begin and end and of cancellations, the source that the server
-- made as number `source` (from 0) is cancelled exactly when a cancellation has come, from any session,
-- for the id under which it was the last to begin, no request of that id having ended since.
pub is_cancelled-requests_after :
    (F : Type 0) (events : List Event) (source : ℕ)
    → is_cancelled (get_elem? (requests_after F events).sources source) ≡ reached events source
unfolding requests_after reached begin_request_cancellation end_request_cancellation cancel_request
    is_cancelled
is_cancelled-requests_after F [] source = refl
is_cancelled-requests_after F (begun session id ∷ events) source =
    is_cancelled-append_fresh _ source ∙ is_cancelled-requests_after F events source
is_cancelled-requests_after F (ended session id ∷ events) source =
    is_cancelled-requests_after F events source
is_cancelled-requests_after F (cancelled session id ∷ events) source =
    let table = find-requests_after F events id in
    let inside : (k : ℕ)
        → holder events id ≡ some k
        → k < length (requests_after F events).sources =
      λ k e.
        let begun_before = holder_is_begun events id k e in
        omega (arith, length-requests_after F events) in
    rw (table, ← is_cancelled-requests_after F events source)
      (is_cancelled-cancel_entry (holder events id) (requests_after F events).sources source inside)
