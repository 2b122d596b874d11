-- ===== src/Core/Executor/Queues.antt =====
-- The queues stay bounded, a stopped executor takes nothing more, and draining runs what is left.
use cxxmcp.Prelude.{
  ◌≤◌, ◌≡◌, ◌⊎◌, sym, ap, ◌∙◌, Bool, true, false, Option, none, some, List, [], ◌∷◌, ◌++◌, Result,
  ok, arith, length, length-append, append_assoc, append-nil, All,
}
use cxxmcp.Core.Executor.{
  TaskPriority, io_bound, default, background, Executor, Wake, waits, exits, runs, Call, posts,
  wakes, shuts_down, cancels, post, worker_wake, dequeue_highest_priority, has_any_task, shutdown,
  cancel_and_stop, step, run, queue_at,
}

-- No queue is longer than the limit.
pub record IsBounded {ℓ} {T : Type ℓ} (e : Executor T) : Type ℓ where
  pub io : length e.io_queue ≤ e.max_queue_size
  pub normal : length e.default_queue ≤ e.max_queue_size
  pub back : length e.background_queue ≤ e.max_queue_size

module _ {T : Type 0} where
  post-IsBounded :
      (e : Executor T) (task : Option T) (prio : TaskPriority)
      → IsBounded e
      → IsBounded (post e task prio).0
  unfolding post
  post-IsBounded e none prio h = h
  post-IsBounded e (some t) io_bound h = ground (arith, length-append e.io_queue (t ∷ []))
  post-IsBounded e (some t) default h = ground (arith, length-append e.default_queue (t ∷ []))
  post-IsBounded e (some t) background h = ground (arith, length-append e.background_queue (t ∷ []))

  wake-IsBounded : (e : Executor T) → IsBounded e → IsBounded (worker_wake e).1
  unfolding worker_wake dequeue_highest_priority has_any_task
  wake-IsBounded e h = ground arith

  step-IsBounded : (e : Executor T) (c : Call T) → IsBounded e → IsBounded (step e c)
  unfolding step shutdown cancel_and_stop
  step-IsBounded e (posts task prio) h = post-IsBounded e task prio h
  step-IsBounded e wakes h = wake-IsBounded e h
  step-IsBounded e shuts_down h = ground arith
  step-IsBounded e cancels h = ground arith

  -- From a state whose queues are within the limit, whatever the calls of any threads, no queue
  -- passes the limit.
  pub run-IsBounded : (e : Executor T) (cs : List (Call T)) → IsBounded e → IsBounded (run e cs)
  unfolding run
  run-IsBounded e [] h = h
  run-IsBounded e (c ∷ cs) h = run-IsBounded (step e c) cs (step-IsBounded e c h)

  -- What each of the three ways on requires and leaves.
  abbrev pub WakeIsRight : Executor T → Wake T × Executor T → Type 0
  WakeIsRight e (waits, e') =
      (e.stopping ≡ false)
      × (e.io_queue ≡ [])
      × (e.default_queue ≡ [])
      × (e.background_queue ≡ [])
      × (e' ≡ e)
  WakeIsRight e (exits, e') =
      ((e.stopping ≡ true) ⊎ (e.drain_mode ≡ true))
      × (e.io_queue ≡ [])
      × (e.default_queue ≡ [])
      × (e.background_queue ≡ [])
      × (e' ≡ e)
  WakeIsRight e (runs t, e') =
      (e.io_queue ≡ t ∷ e'.io_queue)
      ⊎ ((e.io_queue ≡ []) × (e.default_queue ≡ t ∷ e'.default_queue))
      ⊎ ((e.io_queue ≡ [])
          × (e.default_queue ≡ [])
          × (e.background_queue ≡ t ∷ e'.background_queue))

  -- A worker leaves its loop only if the executor is stopped or drains and no task waits in any queue;
  -- it goes back to waiting only if the executor runs and no task waits; otherwise it takes the
  -- oldest task of the first queue that holds one, in the order of the priorities.
  pub worker_wake_lem : (e : Executor T) → WakeIsRight e (worker_wake e)
  unfolding worker_wake dequeue_highest_priority has_any_task
  worker_wake_lem e = ground arith

-- The queue from which the next task is taken.
abbrev source {ℓ} : {T : Type ℓ} → Executor T → Option TaskPriority
source e = elim e.io_queue [
  | _ ∷ _ ↦ some io_bound
  | [] ↦ elim e.default_queue [
    | _ ∷ _ ↦ some default
    | [] ↦ elim e.background_queue [ _ ∷ _ ↦ some background | [] ↦ none ]
  ]
]

abbrev same_priority : TaskPriority → TaskPriority → Bool
same_priority io_bound io_bound = true
same_priority default default = true
same_priority background background = true
same_priority _ _ = false

abbrev is_from : Option TaskPriority → TaskPriority → Bool
is_from none p = false
is_from (some q) p = same_priority q p

abbrev taken_if {ℓ} : {T : Type ℓ} → Bool → Wake T → List T
taken_if true (runs t) = t ∷ []
taken_if _ _ = []

abbrev kept_if {ℓ} : {T : Type ℓ} → Bool → T → Result (Unit {0}) → List T
kept_if true t (ok _) = t ∷ []
kept_if _ _ _ = []

module _ {ℓ} {T : Type ℓ} (p : TaskPriority) where
  -- What one call hands to a worker from the queue of priority `p`, and what it adds there.
  abbrev pub started : Executor T → Call T → List T
  started e wakes = taken_if (is_from (source e) p) (worker_wake e).0
  started e _ = []

  abbrev pub accepted : Executor T → Call T → List T
  accepted e (posts (some t) q) = kept_if (same_priority q p) t (post e (some t) q).1
  accepted e _ = []

  abbrev pub all_started : Executor T → List (Call T) → List T
  all_started e [] = []
  all_started e (c ∷ cs) = started e c ++ all_started (step e c) cs

  abbrev pub all_accepted : Executor T → List (Call T) → List T
  all_accepted e [] = []
  all_accepted e (c ∷ cs) = accepted e c ++ all_accepted (step e c) cs

abbrev pub IsNoCancel {ℓ} : {T : Type ℓ} → Call T → Type 0
IsNoCancel cancels = ⊥
IsNoCancel _ = Unit

module _ {T : Type 0} where
  post_moves :
      (p q : TaskPriority) (e : Executor T) (t : T)
      → queue_at (post e (some t) q).0 p
        ≡ queue_at e p ++ kept_if (same_priority q p) t (post e (some t) q).1
  unfolding post
  post_moves io_bound io_bound e t = ground (arith, append-nil e.io_queue)
  post_moves io_bound default e t = ground (arith, append-nil e.io_queue)
  post_moves io_bound background e t = ground (arith, append-nil e.io_queue)
  post_moves default io_bound e t = ground (arith, append-nil e.default_queue)
  post_moves default default e t = ground (arith, append-nil e.default_queue)
  post_moves default background e t = ground (arith, append-nil e.default_queue)
  post_moves background io_bound e t = ground (arith, append-nil e.background_queue)
  post_moves background default e t = ground (arith, append-nil e.background_queue)
  post_moves background background e t = ground (arith, append-nil e.background_queue)

  wake_moves :
      (p : TaskPriority) (e : Executor T)
      → taken_if (is_from (source e) p) (worker_wake e).0 ++ queue_at (worker_wake e).1 p
        ≡ queue_at e p
  unfolding worker_wake dequeue_highest_priority has_any_task
  wake_moves io_bound e = ground arith
  wake_moves default e = ground arith
  wake_moves background e = ground arith

  shutdown_moves : (p : TaskPriority) (e : Executor T) → queue_at (shutdown e) p ≡ queue_at e p
  unfolding shutdown
  shutdown_moves io_bound e = ground arith
  shutdown_moves default e = ground arith
  shutdown_moves background e = ground arith

  step_moves :
      (p : TaskPriority) (e : Executor T) (c : Call T)
      → IsNoCancel c
      → started p e c ++ queue_at (step e c) p ≡ queue_at e p ++ accepted p e c
  unfolding step
  step_moves p e (posts none q) h = unfold post in sym (append-nil (queue_at e p))
  step_moves p e (posts (some t) q) h = post_moves p q e t
  step_moves p e wakes h = wake_moves p e ∙ sym (append-nil _)
  step_moves p e shuts_down h = shutdown_moves p e ∙ sym (append-nil _)
  step_moves p e cancels h = absurd h

  -- Without `cancel_and_stop`, each queue is first in, first out and loses nothing, before and
  -- during a shutdown: over any history, what was taken from it followed by what it still holds
  -- is what it held at first followed by what `post` accepted for it, in this order.
  pub run_is_fifo :
      (p : TaskPriority) (e : Executor T) (cs : List (Call T))
      → All IsNoCancel cs
      → all_started p e cs ++ queue_at (run e cs) p ≡ queue_at e p ++ all_accepted p e cs
  unfolding run
  run_is_fifo p e [] h = sym (append-nil _)
  run_is_fifo p e (c ∷ cs) (h, hs) =
      append_assoc (started p e c) _ _
      ∙ ap (◌++◌ (started p e c)) (run_is_fifo p (step e c) cs hs)
      ∙ sym (append_assoc (started p e c) _ _)
      ∙ ap (λ l. l ++ all_accepted p (step e c) cs) (step_moves p e c h)
      ∙ append_assoc (queue_at e p) _ _
