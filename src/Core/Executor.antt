-- ===== src/Core/Executor.antt =====
-- The queues and the life cycle of sdk/core/include/cxxmcp/core/executor.hpp, over an abstract type
-- `T` of callable tasks; `none` is an empty `std::function`. A lock section is one operation, and
-- `worker_wake` is what a worker does from the moment the wait's predicate holds.
pub mod Queues
mod Tests
use cxxmcp.Prelude.{
  ℕ, ◌+◌, Bool, true, false, not, ◌&&◌, ◌||◌, Option, none, some, List, [], ◌∷◌, ◌++◌, Result, ok,
  err, Bytes, Error, pos, text, leb, ◌==◌, length, if◌then◌else◌,
}

pub data TaskPriority : Type 0 where
  io_bound default background : TaskPriority

pub record Executor {ℓ} (T : Type ℓ) : Type ℓ where
  pub worker_count : ℕ
  pub max_queue_size : ℕ
  pub io_queue : List T
  pub default_queue : List T
  pub background_queue : List T
  pub stopping : Bool
  pub drain_mode : Bool

unfoldable pub executor_error : Bytes → Error
executor_error message = record {
  code = pos 1;
  message = message;
  detail = [];
  category = text "executor";
}

-- What a worker does next.
pub data Wake {ℓ} (T : Type ℓ) : Type ℓ where
  waits : Wake T
  exits : Wake T
  runs : T → Wake T

module _ {ℓ} {T : Type ℓ} where
  -- the constructor: no worker count below 1
  unfoldable pub init : ℕ → ℕ → Executor T
  init workers size = record {
    worker_count = if workers == 0 then 1 else workers;
    max_queue_size = size;
    io_queue = [];
    default_queue = [];
    background_queue = [];
    stopping = false;
    drain_mode = false;
  }

  -- `queues_[idx]`
  abbrev pub queue_at : Executor T → TaskPriority → List T
  queue_at e io_bound = e.io_queue
  queue_at e default = e.default_queue
  queue_at e background = e.background_queue

  abbrev pub set_queue : Executor T → TaskPriority → List T → Executor T
  set_queue e io_bound q = record e { io_queue = q }
  set_queue e default q = record e { default_queue = q }
  set_queue e background q = record e { background_queue = q }

  unfoldable pub post : Executor T → Option T → TaskPriority → Executor T × Result (Unit {0})
  post e none prio = (e, err (executor_error (text "executor task must be callable")))
  post e (some task) prio =
      if e.stopping
      then (e, err (executor_error (text "executor is stopped")))
      else if leb e.max_queue_size (length (queue_at e prio))
      then (e, err (executor_error (text "executor queue is full")))
      else (set_queue e prio (queue_at e prio ++ task ∷ []), ok tt)

  unfoldable pub enqueue : Executor T → Option T → Executor T × Result (Unit {0})
  enqueue e task = post e task default

  abbrev is_empty : List T → Bool
  is_empty [] = true
  is_empty (x ∷ xs) = false

  unfoldable pub has_any_task : Executor T → Bool
  has_any_task e =
      not (is_empty e.io_queue)
      || not (is_empty e.default_queue)
      || not (is_empty e.background_queue)

  take_from : (List T → Executor T) → List T → Option (T × Executor T) → Option (T × Executor T)
  take_from put [] other = other
  take_from put (task ∷ rest) other = some (task, put rest)

  -- `none` is the empty function that the source returns when every queue is empty.
  unfoldable pub dequeue_highest_priority : Executor T → Option (T × Executor T)
  unfolding take_from
  dequeue_highest_priority e = take_from (set_queue e io_bound) e.io_queue (
      take_from (set_queue e default) e.default_queue
        (take_from (set_queue e background) e.background_queue none))

  -- One round of `worker_loop` up to the call of the task.
  unfoldable pub worker_wake : Executor T → Wake T × Executor T
  worker_wake e =
      if not (e.stopping || e.drain_mode || has_any_task e)
      then (waits, e)
      else if e.stopping && not (has_any_task e)
      then (exits, e)
      else if e.drain_mode && not (has_any_task e)
      then (exits, e)
      else elim (dequeue_highest_priority e) [
        | none ↦ (waits, e)
        | some (task, e') ↦ (runs task, e')
      ]

  -- the first lock section of `shutdown`
  unfoldable pub shutdown : Executor T → Executor T
  shutdown e = if e.stopping then e else record e { stopping = true; drain_mode = true }

  -- the first lock section of `cancel_and_stop`
  unfoldable pub cancel_and_stop : Executor T → Executor T
  cancel_and_stop e =
      if e.stopping
      then e
      else record e { stopping = true; io_queue = []; default_queue = []; background_queue = [] }

-- The lock sections, in the order in which threads take the lock.
pub data Call {ℓ} (T : Type ℓ) : Type ℓ where
  posts : Option T → TaskPriority → Call T
  wakes shuts_down cancels : Call T

module _ {ℓ} {T : Type ℓ} where
  unfoldable pub step : Executor T → Call T → Executor T
  step e (posts task prio) = (post e task prio).0
  step e wakes = (worker_wake e).1
  step e shuts_down = shutdown e
  step e cancels = cancel_and_stop e

  unfoldable pub run : Executor T → List (Call T) → Executor T
  run e [] = e
  run e (c ∷ cs) = run (step e c) cs
