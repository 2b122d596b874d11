-- ===== src/Cancellation.antt =====
-- sdk/include/cxxmcp/cancellation.hpp. The operations are the sections that run at once: the atomic
-- exchange of the flag, and what stands under the mutex. A callback is a value that names it.
pub mod Delivery
mod Tests
use cxxmcp.Prelude.{
  ℕ, ◌+◌, ◌%◌, ◌^◌, Bool, true, false, ◌==◌, if◌then◌else◌, Option, none, some, List, [], ◌∷◌, ◌++◌,
  map,
}

pub record CancellationState (F : Type 0) : Type 0 where
  pub cancelled : Bool
  pub next_callback_id : ℕ
  pub callbacks : List (ℕ × F)

abbrev pub fresh : {F : Type 0} → CancellationState F
fresh = record { cancelled = false; next_callback_id = 1; callbacks = [] }

-- a token: `none` is one that is not attached
unfoldable pub is_cancelled : {F : Type 0} → Option (CancellationState F) → Bool
is_cancelled none = false
is_cancelled (some s) = s.cancelled

unfoldable pub cancellable : {F : Type 0} → Option (CancellationState F) → Bool
cancellable none = false
cancellable (some s) = true

-- One wake-up of `wait_for_cancel`: what it returns, or `none` where it waits on. `expired` is the
-- timeout or deadline of the forms that have one.
unfoldable pub wait_round :
    {F : Type 0} → (expired : Bool) → Option (CancellationState F) → Option Bool
wait_round expired none = some false
wait_round expired (some s) =
    if s.cancelled then some true else (if expired then some false else none)

-- What the locked section of a registration leaves to its thread.
pub data Registered (F : Type 0) : Type 0 where
  inactive : Registered F
  run_now : F → Registered F
  registration : ℕ → Registered F

-- `register_cancellation_callback` up to the call of a callback; `none` is an empty function.
unfoldable pub register :
    {F : Type 0} → Option F → CancellationState F → CancellationState F × Registered F
register none s = (s, inactive)
register (some callback) s = if s.cancelled then (s, run_now callback) else (
  record s {
    next_callback_id = (s.next_callback_id + 1) % 2 ^ 64;
    callbacks = s.callbacks ++ (s.next_callback_id, callback) ∷ [];
  },
  registration s.next_callback_id,
)

-- the loop of `unregister`
abbrev erase_first : {F : Type 0} → ℕ → List (ℕ × F) → List (ℕ × F)
erase_first id [] = []
erase_first id ((i, callback) ∷ callbacks) =
    let rest = erase_first id callbacks in if i == id then callbacks else (i, callback) ∷ rest

-- `unregister` of a registration that is attached; the identifier 0 is that of one that is not active.
unfoldable pub unregister : {F : Type 0} → ℕ → CancellationState F → CancellationState F
unregister id s = if id == 0 then s else record s { callbacks = erase_first id s.callbacks }

-- `cancelled.exchange(true)`, and what it gives
unfoldable pub exchange_cancelled : {F : Type 0} → CancellationState F → CancellationState F × Bool
exchange_cancelled s = (record s { cancelled = true }, s.cancelled)

abbrev pub functions : {F : Type 0} → List (ℕ × F) → List F
functions [] = []
functions ((id, callback) ∷ callbacks) = callback ∷ functions callbacks

-- The locked section of `cancel`: the callbacks that its thread calls then.
unfoldable pub take_callbacks : {F : Type 0} → CancellationState F → CancellationState F × List F
take_callbacks s = (record s { callbacks = [] }, functions s.callbacks)
