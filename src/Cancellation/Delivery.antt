-- ===== src/Cancellation/Delivery.antt =====
-- Which callbacks are called, over histories of the sections of any threads.
use cxxmcp.Prelude.{
  ℕ, ◌+◌, ◌≡◌, refl, ap, Bool, true, false, ◌==◌, if◌then◌else◌, Bool-cases, inl, inr, Option, none,
  some, List, [], ◌∷◌, ◌++◌, arith,
}
use cxxmcp.Cancellation.{
  CancellationState, fresh, run_now, Registered, register, erase_first, unregister,
  exchange_cancelled, functions, take_callbacks,
}

-- The state, whether a `cancel` that set the flag has yet to take the callbacks, and the callbacks
-- that threads went on to call.
pub record World (F : Type 0) : Type 0 where
  pub state : CancellationState F
  pub taking : Bool
  pub called : List F

pub data Section (F : Type 0) : Type 0 where
  registers : Option F → Section F
  unregisters : ℕ → Section F
  exchanges takes : Section F

abbrev pub start : {F : Type 0} → World F
start = record { state = fresh; taking = false; called = [] }

abbrev after_registered : {F : Type 0} → World F → CancellationState F × Registered F → World F
after_registered w (s, run_now callback) = record w {
  state = s;
  called = w.called ++ callback ∷ [];
}
after_registered w (s, _) = record w { state = s }

abbrev after_exchange : {F : Type 0} → World F → CancellationState F × Bool → World F
after_exchange w (s, true) = record w { state = s }
after_exchange w (s, false) = record w { state = s; taking = true }

abbrev after_take : {F : Type 0} → World F → CancellationState F × List F → World F
after_take w (s, callbacks) = record { state = s; taking = false; called = w.called ++ callbacks }

-- The callbacks are taken only behind the exchange that set the flag.
unfoldable pub step : {F : Type 0} → World F → Section F → World F
step w (registers callback) = after_registered w (register callback w.state)
step w (unregisters id) = record w { state = unregister id w.state }
step w exchanges = after_exchange w (exchange_cancelled w.state)
step w takes = if w.taking then after_take w (take_callbacks w.state) else w

unfoldable pub run : {F : Type 0} → World F → List (Section F) → World F
run w [] = w
run w (s ∷ ss) = run (step w s) ss

-- what `erase_first` takes out
abbrev pub taken_out : {F : Type 0} → ℕ → List (ℕ × F) → List F
taken_out id [] = []
taken_out id ((i, callback) ∷ callbacks) =
    let rest = taken_out id callbacks in if i == id then callback ∷ [] else rest

-- The callbacks of a section: those given to a registration, and those that `unregister` erases.
abbrev pub given_by : {F : Type 0} → Section F → List F
given_by (registers (some f)) = f ∷ []
given_by _ = []

abbrev pub erased_by : {F : Type 0} → World F → Section F → List F
erased_by w (unregisters id) = if id == 0 then [] else taken_out id w.state.callbacks
erased_by w _ = []

module _ {F : Type 0} (P : F → Bool) where
  abbrev pub count : List F → ℕ
  count [] = 0
  count (f ∷ fs) = (if P f then 1 else 0) + count fs

  abbrev pub given : List (Section F) → ℕ
  given [] = 0
  given (s ∷ ss) = count (given_by s) + given ss

  abbrev pub erased : World F → List (Section F) → ℕ
  erased w [] = 0
  erased w (s ∷ ss) = count (erased_by w s) + erased (step w s) ss

  count-append : (xs ys : List F) → count (xs ++ ys) ≡ count xs + count ys
  count-append [] ys = omega arith
  count-append (x ∷ xs) ys = let e = count-append xs ys in omega arith

  count-erase_first :
      (id : ℕ) (xs : List (ℕ × F))
      → count (functions (erase_first id xs)) + count (taken_out id xs) ≡ count (functions xs)
  count-erase_first id [] = omega arith
  count-erase_first id ((i, g) ∷ xs) = let e = count-erase_first id xs in ground arith

  count-functions_append :
      (xs : List (ℕ × F)) (id : ℕ) (f : F)
      → count (functions (xs ++ (id, f) ∷ [])) ≡ count (functions xs) + count (f ∷ [])
  count-functions_append [] id f = omega arith
  count-functions_append ((i, g) ∷ xs) id f = let e = count-functions_append xs id f in omega arith

  abbrev pub waiting : World F → ℕ
  waiting w = count (functions w.state.callbacks)

  -- A section neither loses a callback nor calls one twice.
  step-count :
      (w : World F) (s : Section F)
      → count (step w s).called + waiting (step w s) + count (erased_by w s)
        ≡ count w.called + waiting w + count (given_by s)
  unfolding step register unregister exchange_cancelled take_callbacks
  step-count w (registers none) = omega arith
  step-count w (registers (some f)) =
      let called = count-append w.called (f ∷ []) in
      let added = count-functions_append w.state.callbacks w.state.next_callback_id f in
      elim (Bool-cases w.state.cancelled) [
        | inl e ↦ rw e (omega arith)
        | inr e ↦ rw e (omega arith)
      ]
  step-count w (unregisters id) =
      let gone = count-erase_first id w.state.callbacks in
      elim (Bool-cases (id == 0)) [ inl e ↦ rw e (omega arith) | inr e ↦ rw e (omega arith) ]
  step-count w exchanges = elim (Bool-cases w.state.cancelled) [
    | inl e ↦ rw e (omega arith)
    | inr e ↦ rw e (omega arith)
  ]
  step-count w takes =
      let called = count-append w.called (functions w.state.callbacks) in
      elim (Bool-cases w.taking) [ inl e ↦ rw e (omega arith) | inr e ↦ rw e (omega arith) ]

  run-count :
      (w : World F) (ss : List (Section F))
      → count (run w ss).called + waiting (run w ss) + erased w ss
        ≡ count w.called + waiting w + given ss
  unfolding run
  run-count w [] = omega arith
  run-count w (s ∷ ss) =
      let now = step-count w s in let later = run-count (step w s) ss in omega arith

-- Behind a `cancel` no callback is left.
abbrev IsQuiet : {F : Type 0} → World F → Type 0
IsQuiet w = w.state.cancelled ≡ true → w.taking ≡ false → w.state.callbacks ≡ []

module _ {F : Type 0} where
  step-IsQuiet : (w : World F) (s : Section F) → IsQuiet w → IsQuiet (step w s)
  unfolding step register unregister exchange_cancelled take_callbacks
  step-IsQuiet w (registers none) quiet = quiet
  step-IsQuiet w (registers (some f)) quiet = elim (Bool-cases w.state.cancelled) [
    | inl e ↦ rw e (λ _ t. quiet e t)
    | inr e ↦ rw e (λ c t. absurd (cc c))
  ]
  step-IsQuiet w (unregisters id) quiet = elim (Bool-cases (id == 0)) [
    | inl e ↦ rw e quiet
    | inr e ↦ rw e (λ c t. ap (erase_first id) (quiet c t))
  ]
  step-IsQuiet w exchanges quiet = elim (Bool-cases w.state.cancelled) [
    | inl e ↦ rw e (λ c t. quiet e t)
    | inr e ↦ rw e (λ c t. absurd (cc t))
  ]
  step-IsQuiet w takes quiet = elim (Bool-cases w.taking) [
    | inl e ↦ rw e (λ c t. refl)
    | inr e ↦ rw e (λ c t. quiet c e)
  ]

  run-IsQuiet : (w : World F) (ss : List (Section F)) → IsQuiet w → IsQuiet (run w ss)
  unfolding run
  run-IsQuiet w [] quiet = quiet
  run-IsQuiet w (s ∷ ss) quiet = run-IsQuiet (step w s) ss (step-IsQuiet w s quiet)

-- After any sections of any threads, once the flag is set and the callbacks are taken, every callback
-- that was given to a registration has been called as often as it was given, less the times that it was
-- erased before: none is lost, and none is called twice.
pub callbacks_are_called_once :
    {F : Type 0} (P : F → Bool) (ss : List (Section F))
    → (run start ss).state.cancelled ≡ true
    → (run start ss).taking ≡ false
    → count P (run start ss).called + erased P start ss ≡ given P ss
callbacks_are_called_once P ss set taken =
    let total = run-count P start ss in
    let none_waits =
      ap (λ l. count P (functions l)) (run-IsQuiet start ss (λ c t. refl) set taken) in
    omega arith
