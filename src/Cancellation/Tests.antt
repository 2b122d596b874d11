-- ===== src/Cancellation/Tests.antt =====
-- A history of two threads that register, one that erases, and one that cancels.
use cxxmcp.Prelude.{ℕ, ◌+◌, ◌≡◌, refl, Bool, ◌==◌, some, List, [], ◌∷◌}
use cxxmcp.Cancellation.{register, unregister, exchange_cancelled, take_callbacks}
use cxxmcp.Cancellation.Delivery.{
  Section, registers, unregisters, exchanges, takes, start, step, run, count, given, erased,
  callbacks_are_called_once,
}

abbrev history : List (Section ℕ)
history =
    registers (some 10)
    ∷ registers (some 20)
    ∷ registers (some 30)
    ∷ unregisters 2
    ∷ exchanges
    ∷ registers (some 40)
    ∷ takes
    ∷ registers (some 10)
    ∷ []

-- The one given behind the exchange is called first.
called_in_history : (run start history).called ≡ 40 ∷ 10 ∷ 30 ∷ 10 ∷ []
unfolding run step register unregister exchange_cancelled take_callbacks
called_in_history = refl

abbrev is_ten : ℕ → Bool
is_ten n = n == 10

callbacks_are_called_once_example :
    count is_ten (run start history).called + erased is_ten start history ≡ given is_ten history
unfolding run step register unregister exchange_cancelled take_callbacks
callbacks_are_called_once_example = callbacks_are_called_once is_ten history refl refl
