-- ===== src/Server/Requests/Tests.antt =====
-- server.cpp: cancellations of concrete requests.
use cxxmcp.Prelude.{ℕ, ◌≡◌, refl, true, false, List, [], ◌∷◌, get_elem?, pos}
use cxxmcp.Protocol.Types.{RequestId}
use cxxmcp.Cancellation.{is_cancelled}
use cxxmcp.Server.Requests.Reach.{
  Event, begun, ended, cancelled, requests_after, same_id, begins, holder, reached,
  is_cancelled-requests_after,
}

-- Session 2 cancels its own request 1, which has ended, and reaches that of session 1.
abbrev events : List Event
events =
    cancelled 2 (RequestId.number (pos 1))
    ∷ begun 1 (RequestId.number (pos 1))
    ∷ ended 2 (RequestId.number (pos 1))
    ∷ begun 2 (RequestId.number (pos 1))
    ∷ []

another_session : reached events 1 ≡ true
unfolding reached holder same_id begins
another_session = refl

-- Two requests with one id: the second takes the first one's place, and the end of either erases it.
abbrev twice : List Event
twice =
    cancelled 2 (RequestId.number (pos 1))
    ∷ ended 1 (RequestId.number (pos 1))
    ∷ begun 2 (RequestId.number (pos 1))
    ∷ begun 1 (RequestId.number (pos 1))
    ∷ []

lost : reached twice 1 ≡ false
unfolding reached holder same_id begins
lost = refl

is_cancelled-requests_after_example :
    is_cancelled (get_elem? (requests_after ℕ events).sources 1) ≡ reached events 1
is_cancelled-requests_after_example = is_cancelled-requests_after ℕ events 1
