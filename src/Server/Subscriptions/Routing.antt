-- ===== src/Server/Subscriptions/Routing.antt =====
-- server.cpp: who is told about a resource, over any history of subscriptions.
use cxxmcp.Prelude.{
  ℕ, ◌+◌, ◌≡◌, ◌≢◌, refl, sym, ap, ◌∙◌, Bool, true, false, not, ◌==◌, ◌&&◌, if◌then◌else◌,
  Bool-cases, inl, inr, Bytes, bytes_eq, bytes_eq_iff, bytes_eq_refl, List, [], ◌∷◌, Result, ok,
  err, arith,
}
use cxxmcp.Server.Subscriptions.{
  contains, insert_uri, Subscriptions, is_empty, set_subscription, set_resource_subscription,
  send_each, Connections, everyone, broadcast_notification, recipients, notify_resource_subscribers,
}
use cxxmcp.Server.Subscriptions.Table.{
  has_transport, IsTable, holds, holds-subscribed, holds-unsubscribed, unsubscribe-IsTable,
  subscribe-IsTable, has_transport-change, has_transport-unsubscribed,
}

-- Calls of set_resource_subscription, the latest first.
pub record Call : Type 0 where
  pub transport : ℕ
  pub uri : Bytes
  pub subscribed : Bool

unfoldable pub table_after : List Call → Subscriptions
table_after [] = []
table_after (call ∷ calls) =
    let before = table_after calls in
    elim (set_resource_subscription call.transport call.uri call.subscribed before) [
      | ok after ↦ after
      | err failure ↦ before
    ]

-- What the history says: the latest call for the transport and the URI decides.
unfoldable pub is_subscribed : List Call → ℕ → Bytes → Bool
is_subscribed [] transport uri = false
is_subscribed (call ∷ calls) transport uri =
    let earlier = is_subscribed calls transport uri in
    if call.transport == transport && bytes_eq call.uri uri then call.subscribed else earlier

-- Some transport is subscribed to some URI.
abbrev anyone_of : List Call → List Call → Bool
anyone_of history [] = false
anyone_of history (call ∷ calls) =
    let others = anyone_of history calls in
    if not (call.transport == 0) && is_subscribed history call.transport call.uri
    then true
    else others

unfoldable pub anyone_subscribed : List Call → Bool
anyone_subscribed calls = anyone_of calls calls

abbrev pub count : ℕ → List ℕ → ℕ
count t [] = 0
count t (held ∷ rest) = let later = count t rest in if held == t then 1 + later else later

table_after-IsTable : (calls : List Call) → IsTable (table_after calls)
unfolding table_after set_resource_subscription set_subscription
table_after-IsTable [] = tt
table_after-IsTable (call ∷ calls) =
    let before = table_after calls in
    ground (
      arith,
      table_after-IsTable calls,
      subscribe-IsTable call.transport call.uri before,
      unsubscribe-IsTable call.transport call.uri before,
    )

no_null_transport : (calls : List Call) → has_transport 0 (table_after calls) ≡ false
unfolding table_after set_resource_subscription set_subscription
no_null_transport [] = refl
no_null_transport (call ∷ calls) =
    let before = table_after calls in
    ground (
      arith,
      no_null_transport calls,
      has_transport-change call.transport 0 (insert_uri call.uri) before,
      has_transport-unsubscribed call.transport 0 call.uri before,
    )

holds-table_after :
    (calls : List Call) (t : ℕ) (uri : Bytes)
    → t ≢ 0
    → holds t uri (table_after calls) ≡ is_subscribed calls t uri
unfolding table_after set_resource_subscription set_subscription is_subscribed
holds-table_after [] t uri h = refl
holds-table_after (call ∷ calls) t uri h =
    let before = table_after calls in
    ground (
      arith,
      holds-table_after calls t uri h,
      holds-subscribed call.transport t call.uri uri before,
      holds-unsubscribed call.transport t call.uri uri before (table_after-IsTable calls),
    )

count-recipients_without :
    (t : ℕ) (uri : Bytes) (table : Subscriptions)
    → has_transport t table ≡ false
    → count t (recipients uri table) ≡ 0
unfolding recipients
count-recipients_without t uri [] h = refl
count-recipients_without t uri ((held, uris) ∷ rest) h =
    ground (arith, count-recipients_without t uri rest)

count-recipients :
    (t : ℕ) (uri : Bytes) (table : Subscriptions)
    → IsTable table
    → t ≢ 0
    → count t (recipients uri table) ≡ (if holds t uri table then 1 else 0)
unfolding recipients
count-recipients t uri [] h nonzero = refl
count-recipients t uri ((held, uris) ∷ rest) h nonzero =
    ground (arith, count-recipients t uri rest, count-recipients_without t uri rest)

subscribed_of_anyone :
    (history calls : List Call)
    → anyone_of history calls ≡ true
    → (t : ℕ) × (uri : Bytes) × (t ≢ 0) × (is_subscribed history t uri ≡ true)
subscribed_of_anyone history [] h = absurd cc
subscribed_of_anyone history (call ∷ calls) h =
    elim (Bool-cases (not (call.transport == 0) && is_subscribed history call.transport call.uri)) [
      | inl here ↦ (call.transport, call.uri, ground arith, ground arith)
      | inr elsewhere ↦ subscribed_of_anyone history calls (ground arith)
    ]

anyone_of_subscribed :
    (history calls : List Call) (t : ℕ) (uri : Bytes)
    → t ≢ 0
    → is_subscribed history t uri ≡ true
    → is_subscribed calls t uri ≡ true
    → anyone_of history calls ≡ true
unfolding is_subscribed
anyone_of_subscribed history [] t uri h e later = absurd cc
anyone_of_subscribed history (call ∷ calls) t uri h e later =
    elim (Bool-cases (call.transport == t && bytes_eq call.uri uri)) [
      | inl here ↦
          let same_transport : call.transport ≡ t = ground arith in
          let same_uri : call.uri ≡ uri = (bytes_eq_iff call.uri uri).0 (ground arith) in
          rw (same_transport, same_uri) (ground (arith, e))
      | inr elsewhere ↦ ground (arith, anyone_of_subscribed history calls t uri h e)
    ]

holds_nothing :
    (t : ℕ) (uri : Bytes) (table : Subscriptions)
    → is_empty table ≡ true
    → holds t uri table ≡ false
holds_nothing t uri [] h = refl
holds_nothing t uri (entry ∷ table) h = absurd cc

holds_something :
    (table : Subscriptions)
    → IsTable table
    → has_transport 0 table ≡ false
    → is_empty table ≡ false
    → (t : ℕ) × (uri : Bytes) × (t ≢ 0) × (holds t uri table ≡ true)
unfolding contains
holds_something [] h zero_free filled = absurd cc
holds_something ((held, []) ∷ rest) h zero_free filled = absurd (ground arith)
holds_something ((held, uri ∷ uris) ∷ rest) h zero_free filled =
    (held, uri, ground arith, ground (arith, bytes_eq_refl uri))

is_empty-table_after :
    (calls : List Call) → is_empty (table_after calls) ≡ not (anyone_subscribed calls)
unfolding anyone_subscribed
is_empty-table_after calls = elim (Bool-cases (anyone_of calls calls)) [
  | inl someone ↦
      let (t, uri, h, e) = subscribed_of_anyone calls calls someone in
      ground (
        arith,
        someone,
        e,
        holds-table_after calls t uri h,
        holds_nothing t uri (table_after calls),
      )
  | inr nobody ↦ elim (Bool-cases (is_empty (table_after calls))) [
    | inl empty ↦ rw (empty, nobody) refl
    | inr filled ↦
        let (t, uri, h, e) =
          holds_something (table_after calls) (table_after-IsTable calls) (no_null_transport calls)
            filled in
        let subscribed = sym (holds-table_after calls t uri h) ∙ e in
        ground (arith, nobody, anyone_of_subscribed calls calls t uri h subscribed subscribed)
  ]
]

send_each-ok :
    (send : ℕ → Result (Unit {0}))
    → ((t : ℕ) → send t ≡ ok tt)
    → (ts : List ℕ) → send_each send ts ≡ record { given = ts; answer = ok tt }
unfolding send_each
send_each-ok send sends [] = refl
send_each-ok send sends (t ∷ ts) = rw (sends t, send_each-ok send sends ts) refl

-- When every transport takes what it is sent, then after any calls of set_resource_subscription an
-- update of a URI is given to a transport, other than the null pointer, once if its latest call for
-- the URI is a subscription and not at all otherwise; but when no transport is subscribed to any URI
-- it is given to every transport, as often as the server lists it. The call succeeds.
pub notify_resource_subscribers-table_after :
    (send : ℕ → Result (Unit {0}))
    → ((t : ℕ) → send t ≡ ok tt)
    → (connections : Connections) (calls : List Call) (uri : Bytes) (t : ℕ) → t ≢ 0
    → (count t (notify_resource_subscribers send connections uri (table_after calls)).given ≡ (
        if anyone_subscribed calls
        then (if is_subscribed calls t uri then 1 else 0)
        else count t (everyone connections)))
      × ((notify_resource_subscribers send connections uri (table_after calls)).answer ≡ ok tt)
unfolding notify_resource_subscribers broadcast_notification
notify_resource_subscribers-table_after send sends connections calls uri t h =
    let table = table_after calls in
    let empty = is_empty-table_after calls in
    let counted = count-recipients t uri table (table_after-IsTable calls) h in
    elim (Bool-cases (anyone_subscribed calls)) [
      | inl someone ↦
          rw (empty, someone, send_each-ok send sends (recipients uri table))
            (counted ∙ ap (λ b. if b then 1 else 0) (holds-table_after calls t uri h), refl)
      | inr nobody ↦ rw (empty, nobody, send_each-ok send sends (everyone connections)) (refl, refl)
    ]
