-- ===== src/Server/Subscriptions.antt =====
-- sdk/server/src/server.cpp: resource subscriptions and the notifications sent to the transports. A
-- transport is its address, 0 the null pointer; what a transport's send_notification answers is the
-- parameter `send`. The list's order stands for the order, which the standard leaves open, in which a
-- loop visits the unordered map.
pub mod Table
pub mod Routing
mod Tests
use cxxmcp.Prelude.{
  ℕ, ◌≡◌, Bool, true, false, ◌&&◌, ◌==◌, if◌then◌else◌, Bytes, text, bytes_eq, List, [], ◌∷◌, ◌++◌,
  Result, ok, err, Error, ErrorCode, error_code,
}

-- `std::unordered_set<std::string>`
unfoldable pub contains : Bytes → List Bytes → Bool
contains uri [] = false
contains uri (held ∷ uris) =
    let later = contains uri uris in if bytes_eq held uri then true else later

unfoldable pub insert_uri : Bytes → List Bytes → List Bytes
insert_uri uri uris = if contains uri uris then uris else uri ∷ uris

unfoldable pub erase_uri : Bytes → List Bytes → List Bytes
erase_uri uri [] = []
erase_uri uri (held ∷ uris) =
    let rest = erase_uri uri uris in if bytes_eq held uri then rest else held ∷ rest

-- `resource_subscriptions_`
abbrev pub Subscriptions : Type 0
Subscriptions = List (ℕ × List Bytes)

-- `auto& uris = subscriptions[transport]`, and the write through the reference
unfoldable pub change : ℕ → (List Bytes → List Bytes) → Subscriptions → Subscriptions
change transport f [] = (transport, f []) ∷ []
change transport f ((held, uris) ∷ rest) =
    if held == transport then (held, f uris) ∷ rest else (held, uris) ∷ change transport f rest

abbrev pub is_empty : {A : Type 0} → List A → Bool
is_empty [] = true
is_empty (x ∷ xs) = false

unfoldable pub erase_if_empty : ℕ → Subscriptions → Subscriptions
erase_if_empty transport [] = []
erase_if_empty transport ((held, uris) ∷ rest) =
    if held == transport
    then (if is_empty uris then rest else (held, uris) ∷ rest)
    else (held, uris) ∷ erase_if_empty transport rest

unfoldable pub set_subscription : ℕ → Bytes → Bool → Subscriptions → Subscriptions
set_subscription transport uri subscribed subscriptions =
    if subscribed
    then change transport (insert_uri uri) subscriptions
    else erase_if_empty transport (change transport (erase_uri uri) subscriptions)

unfoldable pub set_resource_subscription : ℕ → Bytes → Bool → Subscriptions → Result Subscriptions
set_resource_subscription transport uri subscribed subscriptions =
    if transport == 0
    then err record {
      code = error_code ErrorCode.invalid_request;
      message = text "resource subscription requires a transport context";
      detail = [];
      category = [];
    }
    else ok (set_subscription transport uri subscribed subscriptions)

-- The transports that a notification was given to, in order, and the call's answer.
pub record Delivery : Type 0 where
  pub given : List ℕ
  pub answer : Result (Unit {0})

abbrev after_sent : ℕ → Result (Unit {0}) → Delivery → Delivery
after_sent transport (err failure) rest = record { given = transport ∷ []; answer = err failure }
after_sent transport (ok _) rest = record { given = transport ∷ rest.given; answer = rest.answer }

module _ (send : ℕ → Result (Unit {0})) where
  unfoldable pub send_each : List ℕ → Delivery
  send_each [] = record { given = []; answer = ok tt }
  send_each (transport ∷ transports) =
      let rest = send_each transports in after_sent transport (send transport) rest

unfoldable pub without_null : List ℕ → List ℕ
without_null [] = []
without_null (transport ∷ transports) =
    let rest = without_null transports in if transport == 0 then rest else transport ∷ rest

-- `transports_` and `session_transports_`
pub record Connections : Type 0 where
  pub transports : List ℕ
  pub session_transports : List ℕ

unfoldable pub everyone : Connections → List ℕ
everyone connections = connections.transports ++ without_null connections.session_transports

unfoldable pub broadcast_notification : (ℕ → Result (Unit {0})) → Connections → Delivery
broadcast_notification send connections = send_each send (everyone connections)

unfoldable pub recipients : Bytes → Subscriptions → List ℕ
recipients uri [] = []
recipients uri ((transport, uris) ∷ rest) =
    let later = recipients uri rest in
    if transport == 0 then later else (if contains uri uris then transport ∷ later else later)

-- With no recipient the loop below it sends nothing.
unfoldable pub notify_resource_subscribers :
    (ℕ → Result (Unit {0})) → Connections → Bytes → Subscriptions → Delivery
notify_resource_subscribers send connections uri subscriptions =
    if is_empty subscriptions
    then broadcast_notification send connections
    else send_each send (recipients uri subscriptions)

abbrev pub contains_transport : ℕ → List ℕ → Bool
contains_transport transport [] = false
contains_transport transport (held ∷ rest) =
    let later = contains_transport transport rest in if held == transport then true else later

-- `session_transport_set_` holds the members of `session_transports_`.
unfoldable pub add_session_transport : ℕ → Connections → Connections
add_session_transport transport connections = record {
  transports = connections.transports;
  session_transports =
      if contains_transport transport connections.session_transports
      then connections.session_transports
      else connections.session_transports ++ transport ∷ [];
}

unfoldable pub add_transport : ℕ → Connections → Result Connections
add_transport transport connections =
    if transport == 0
    then err record {
      code = error_code ErrorCode.invalid_request;
      message = text "transport must not be null";
      detail = [];
      category = [];
    }
    else ok record {
      transports = connections.transports ++ transport ∷ [];
      session_transports = connections.session_transports;
    }
