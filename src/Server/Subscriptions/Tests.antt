-- ===== src/Server/Subscriptions/Tests.antt =====
-- server.cpp: subscriptions on concrete transports.
use cxxmcp.Prelude.{
  ℕ, ◌≡◌, refl, true, false, if◌then◌else◌, bytes_eq, codes, List, [], ◌∷◌, Result, ok, arith,
}
use cxxmcp.Server.Subscriptions.{
  contains, insert_uri, erase_uri, change, erase_if_empty, set_subscription,
  set_resource_subscription, send_each, Connections, without_null, everyone, broadcast_notification,
  recipients, notify_resource_subscribers, add_session_transport,
}
use cxxmcp.Server.Subscriptions.Routing.{
  Call, table_after, is_subscribed, anyone_subscribed, count,
  notify_resource_subscribers-table_after,
}

abbrev takes : ℕ → Result (Unit {0})
takes transport = ok tt

abbrev connections : Connections
unfolding add_session_transport
connections = add_session_transport 8 (
    add_session_transport 9
      (add_session_transport 8 record { transports = 7 ∷ []; session_transports = [] }))

abbrev calls : List Call
calls =
    record { transport = 7; uri = codes "b"; subscribed = false }
    ∷ record { transport = 8; uri = codes "a"; subscribed = true }
    ∷ record { transport = 7; uri = codes "b"; subscribed = true }
    ∷ []

given_to_eight :
    (notify_resource_subscribers takes connections (codes "a") (table_after calls)).given ≡ 8 ∷ []
unfolding bytes_eq contains insert_uri erase_uri change erase_if_empty set_subscription
    set_resource_subscription send_each without_null everyone broadcast_notification recipients
    notify_resource_subscribers table_after connections add_session_transport
given_to_eight = refl

-- The only subscriber has left: everyone is told.
abbrev left : List Call
left =
    record { transport = 7; uri = codes "b"; subscribed = false }
    ∷ record { transport = 7; uri = codes "b"; subscribed = true }
    ∷ []

given_to_everyone :
    (notify_resource_subscribers takes connections (codes "b") (table_after left)).given
    ≡ 7 ∷ 8 ∷ 9 ∷ []
unfolding bytes_eq contains insert_uri erase_uri change erase_if_empty set_subscription
    set_resource_subscription send_each without_null everyone broadcast_notification recipients
    notify_resource_subscribers table_after connections add_session_transport
given_to_everyone = refl

notify_resource_subscribers-table_after_example :
    (count 8 (notify_resource_subscribers takes connections (codes "a") (table_after calls)).given
      ≡ (if anyone_subscribed calls
          then (if is_subscribed calls 8 (codes "a") then 1 else 0)
          else count 8 (everyone connections)))
    × ((notify_resource_subscribers takes connections (codes "a") (table_after calls)).answer
        ≡ ok tt)
notify_resource_subscribers-table_after_example =
    notify_resource_subscribers-table_after takes (λ t. refl) connections calls (codes "a") 8
      (omega arith)
