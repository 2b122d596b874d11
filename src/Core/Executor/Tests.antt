-- ===== src/Core/Executor/Tests.antt =====
-- The executor's theorems at concrete histories; tasks are numbered.
use cxxmcp.Prelude.{false, ℕ, ◌≡◌, some, List, [], ◌∷◌, ◌++◌, arith}
use cxxmcp.Core.Executor.{
  Executor, io_bound, default, Call, posts, wakes, shuts_down, run, worker_wake, queue_at,
}
use cxxmcp.Core.Executor.Queues.{
  IsBounded, run-IsBounded, WakeIsRight, worker_wake_lem, all_started, all_accepted, run_is_fifo,
}

abbrev small : Executor ℕ
small = record {
  worker_count = 1;
  max_queue_size = 2;
  io_queue = [];
  default_queue = 7 ∷ [];
  background_queue = 9 ∷ [];
  stopping = false;
  drain_mode = false;
}

small-IsBounded : IsBounded small
small-IsBounded = record { io = ground arith; normal = ground arith; back = ground arith }

-- The third post finds the queue full.
abbrev history : List (Call ℕ)
history =
    posts (some 1) default
    ∷ posts (some 2) default
    ∷ posts (some 3) io_bound
    ∷ wakes
    ∷ wakes
    ∷ shuts_down
    ∷ wakes
    ∷ []

run-IsBounded_example : IsBounded (run small history)
run-IsBounded_example = run-IsBounded small history small-IsBounded

worker_wake_lem_example : WakeIsRight small (worker_wake small)
worker_wake_lem_example = worker_wake_lem small

run_is_fifo_example :
    all_started default small history ++ queue_at (run small history) default
    ≡ queue_at small default ++ all_accepted default small history
run_is_fifo_example = run_is_fifo default small history (tt, (tt, (tt, (tt, (tt, (tt, (tt, tt)))))))
