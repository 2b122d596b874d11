-- ===== src/Server/TaskManager/Soundness.antt =====
-- Every lock section keeps the invariant.
use cxxmcp.Prelude.{
  ℕ, ◌+◌, ◌%◌, ◌≤◌, ◌<◌, ◌≡◌, inl, inr, refl, false, Bytes, bytes_eq, bytes_eq_iff, bytes_ne,
  Option, none, some, List, [], ◌∷◌, ◌++◌, arith, length, ℤ, Result, ok, err, Bool-cases,
  Option-cases,
}
use cxxmcp.Prelude.Dict.{find, emplace, find-emplace, find-erase}
use cxxmcp.Server.TaskManager.State.{
  working, Task, TaskRecord, Options, Table, Processor, Readings, is_terminal, ProgressToken,
}
use cxxmcp.Server.TaskManager.Trim.{is_working, time_out, refresh_record, refresh}
use cxxmcp.Server.TaskManager.Operations.{
  task_id_at, finish_record, finish_task, run_job, result_of, task_of, register_task, job_for,
  enqueue_job, withdraw_task, Descriptor, refreshed,
}
use cxxmcp.Server.TaskManager.Methods.{
  cancel_record, cancel_found, cancel_task, Call, registers, enqueues, withdraws, ends, refreshes,
  cancels, stops, wakes, wake, stop, step, run, init, registered,
}
use cxxmcp.Server.TaskManager.Keys.{
  mem, mem-append_one, mem-remove_id, remove_id-Distinct, append_one-Distinct,
}
use cxxmcp.Server.TaskManager.Invariant.{
  InPhase, index_limit, IsSound, task_id_at_injective, TableSound, trim-TableSound, map-TableSound,
  update-TableSound,
}

module _ {Json : Type 0} where
  refresh-InPhase :
      (now : ℕ) (timestamp id : Bytes) (r : TaskRecord Json)
      → InPhase id r
      → InPhase id (refresh_record now timestamp r)
  unfolding refresh_record time_out
  refresh-InPhase now timestamp id r h = ground arith

  finish-InPhase :
      (c : Readings) (res : Result Json) (id : Bytes) (r : TaskRecord Json)
      → InPhase id r
      → InPhase id (finish_record c res r)
  unfolding finish_record
  finish-InPhase c (ok j) id r h = (h.0, (refl, refl, refl))
  finish-InPhase c (err e) id r h = (h.0, (refl, refl, refl))

  cancel-InPhase :
      (c : Readings) (id : Bytes) (r : TaskRecord Json)
      → InPhase id r
      → InPhase id (cancel_record c id r)
  unfolding cancel_record
  cancel-InPhase c id r h = (h.0, (refl, refl, refl))

  table_of : (p : Processor Json) → IsSound p → TableSound p.next_task_index p.table
  table_of p h = (h.keyed, h.phases, h.fresh)

  IsSound-of : (p : Processor Json) → TableSound p.next_task_index p.table → IsSound p
  IsSound-of p h = record { keyed = h.0; phases = h.1; fresh = h.2 }

  pub refresh-IsSound : (p : Processor Json) (c : Readings) → IsSound p → IsSound (refreshed p c)
  unfolding refresh
  refresh-IsSound p c h = IsSound-of (refreshed p c) (
      trim-TableSound _ p.options c.trim_now _ (
        map-TableSound _ (refresh_record c.now c.timestamp) p.table
          (refresh-InPhase c.now c.timestamp) (table_of p h)))

  finish-IsSound :
      (p : Processor Json) (id : Bytes) (res : Result Json) (c : Readings)
      → IsSound p
      → IsSound (finish_task p id res c).0
  unfolding finish_task
  finish-IsSound p id res c h = elim (Option-cases (find id p.tasks)) [
    | inl e ↦ rw (e, finish_task) h
    | inr (r, e) ↦ elim (Bool-cases (is_working r.task.status)) [
      | inr idle ↦ rw (e, finish_task, idle) h
      | inl busy ↦
          rw (e, finish_task, busy)
            (IsSound-of _ (
              trim-TableSound _ p.options c.trim_now _ (
                update-TableSound _ id (finish_record c res) p.table r e
                  (finish-InPhase c res id r (h.phases id r e)) (table_of p h))))
    ]
  ]

  cancel_found-IsSound :
      (p : Processor Json) (id : Bytes) (c : Readings) (r : TaskRecord Json)
      → find id p.tasks ≡ some r
      → IsSound p
      → IsSound (cancel_found p id c)
  unfolding cancel_found
  cancel_found-IsSound p id c r e h = IsSound-of _ (
      trim-TableSound _ p.options c.trim_now _ (
        update-TableSound _ id (cancel_record c id) p.table r e
          (cancel-InPhase c id r (h.phases id r e)) (table_of p h)))

  cancel-IsSound :
      (p : Processor Json) (id : Bytes) (c c' : Readings)
      → IsSound p
      → IsSound (cancel_task p id c c').0
  unfolding cancel_task
  cancel-IsSound p id c c' h = elim (Option-cases (find id (refreshed p c).tasks)) [
    | inl e ↦ rw (e, cancel_task) (refresh-IsSound p c h)
    | inr (r, e) ↦ elim (Bool-cases (is_terminal r.task.status)) [
      | inl over ↦ rw (e, cancel_task, over) (refresh-IsSound p c h)
      | inr live ↦
          rw (e, cancel_task, live)
            (cancel_found-IsSound (refreshed p c) id c' r e (refresh-IsSound p c h))
    ]
  ]

  withdraw-IsSound : (p : Processor Json) (id : Bytes) → IsSound p → IsSound (withdraw_task p id)
  unfolding withdraw_task
  withdraw-IsSound p id h = record {
    keyed = record {
      distinct = remove_id-Distinct id p.order h.keyed.distinct;
      keyed =
          λ j. ground (arith, h.keyed.keyed j, mem-remove_id j id p.order, find-erase id j p.tasks);
    };
    phases = λ j r e. h.phases j r (ground (arith, find-erase id j p.tasks));
    fresh = λ n le lt. ground (arith, find-erase id (task_id_at n) p.tasks, h.fresh n le lt);
  }

  -- The task that the first lock section starts from is working.
  pub task_of_is_working :
      (empty_object : Json) (o : Options) (d : Descriptor) (timestamp : Bytes) (blank : Task Json)
      (timeout : ℤ)
      → task_of empty_object o d timestamp ≡ ok (blank, timeout)
      → blank.status ≡ working
  unfolding task_of
  task_of_is_working empty_object o d timestamp blank timeout made = ground arith

  insert-TableSound :
      (next : ℕ) (rec : TaskRecord Json) (t : Table Json)
      → next + 1 < index_limit
      → InPhase (task_id_at next) rec
      → TableSound next t
      → TableSound (next + 1) (record {
        tasks = emplace (task_id_at next) rec t.tasks;
        order = t.order ++ task_id_at next ∷ [];
      })
  insert-TableSound next rec t room phase (k, ph, fr) =
      let id = task_id_at next in
      let unused : find id t.tasks ≡ none = fr next (omega arith) (omega arith) in
      let absent : mem id t.order ≡ false = ground (arith, k.keyed id) in
      (
        record {
          distinct = append_one-Distinct id t.order absent k.distinct;
          keyed = λ j. ground (
            arith,
            mem-append_one j id t.order,
            find-emplace id j rec t.tasks,
            k.keyed j,
            bytes_eq_iff id j,
          );
        },
        λ j r e. elim (Bool-cases (bytes_eq id j)) [
          | inr other ↦ ph j r (ground (arith, find-emplace id j rec t.tasks))
          | inl here ↦
              let e1 : id ≡ j = (bytes_eq_iff id j).0 here in
              let same : rec ≡ r = ground (arith, find-emplace id j rec t.tasks) in
              rw (← e1, ← same) phase
        ],
        λ n le lt.
            let other : bytes_eq id (task_id_at n) ≡ false =
              bytes_ne id (task_id_at n)
                (λ e. absurd (omega (arith, task_id_at_injective next n (omega arith) lt e))) in
            ground (arith, find-emplace id (task_id_at n) rec t.tasks, fr n (omega arith) lt),
      )

  register-IsSound :
      (p : Processor Json) (blank : Task Json) (timeout : ℤ) (token : Option ProgressToken)
      (started_at : ℕ)
      → blank.status ≡ working
      → p.next_task_index + 1 < index_limit
      → IsSound p
      → IsSound (register_task p blank token timeout started_at).0
  unfolding register_task
  register-IsSound p blank timeout token started_at new room h =
      let next : (p.next_task_index + 1) % 18446744073709551616 ≡ p.next_task_index + 1 =
        omega arith in
      IsSound-of _ (
        rw next (
          insert-TableSound p.next_task_index _ p.table room (rw new (refl, (refl, refl, refl)))
            (table_of p h)))

  enqueue-IsSound :
      (p : Processor Json) (id : Bytes) → IsSound p → IsSound (enqueue_job p (job_for p id)).0
  unfolding enqueue_job
  enqueue-IsSound p id h = record { keyed = h.keyed; phases = h.phases; fresh = h.fresh }

  registered-IsSound :
      (empty_object : Json) (p : Processor Json) (d : Descriptor) (timestamp : Bytes)
      (started_at : ℕ) (made : Result (Task Json × ℤ))
      → task_of empty_object p.options d timestamp ≡ made
      → p.next_task_index + 1 < index_limit
      → IsSound p
      → IsSound (registered p d started_at made)
  unfolding registered
  registered-IsSound empty_object p d timestamp started_at (err e) made room h = h
  registered-IsSound empty_object p d timestamp started_at (ok (blank, timeout)) made room h =
      register-IsSound p blank timeout d.progress_token started_at
        (task_of_is_working empty_object p.options d timestamp blank timeout made) room h

  pub step-IsSound :
      (p : Processor Json) (c : Call Json)
      → p.next_task_index + 1 < index_limit
      → IsSound p
      → IsSound (step p c)
  unfolding step run_job stop wake
  step-IsSound p (registers empty d timestamp started_at) room h =
      registered-IsSound empty p d timestamp started_at (task_of empty p.options d timestamp) refl
        room h
  step-IsSound p (enqueues id) room h = enqueue-IsSound p id h
  step-IsSound p (withdraws id) room h = withdraw-IsSound p id h
  step-IsSound p (ends job outcome c) room h = finish-IsSound p job.task_id (result_of outcome) c h
  step-IsSound p (refreshes c) room h = refresh-IsSound p c h
  step-IsSound p (cancels id c c') room h = cancel-IsSound p id c c' h
  step-IsSound p wakes room h = record { keyed = h.keyed; phases = h.phases; fresh = h.fresh }
  step-IsSound p stops room h = record { keyed = h.keyed; phases = h.phases; fresh = h.fresh }

  step_index :
      (p : Processor Json) (c : Call Json)
      → p.next_task_index + 1 < index_limit
      → (step p c).next_task_index ≤ p.next_task_index + 1
  unfolding step stop wake run_job finish_task cancel_task cancel_found withdraw_task enqueue_job
      registered register_task
  step_index p c room = ground arith

  run-IsSound :
      (p : Processor Json) (cs : List (Call Json))
      → p.next_task_index + length cs < index_limit
      → IsSound p
      → IsSound (run p cs)
  unfolding run
  run-IsSound p [] room h = h
  run-IsSound p (c ∷ cs) room h =
      run-IsSound (step p c) cs (omega (arith, step_index p c (omega arith)))
        (step-IsSound p c (omega arith) h)

  -- From the constructor, after fewer than 2^64 - 1 lock sections of any threads in any order: the
  -- order list names each task once; every task carries its key as its identifier; a working task
  -- has no result, no failure and no end time, a completed one an end time and a result only, a
  -- failed or cancelled one an end time and a failure only; and an identifier that is still to be
  -- given out is unused.
  pub run-init-IsSound :
      (o : Options) (worker_count queue_size : ℕ) (cs : List (Call Json))
      → 1 + length cs < index_limit
      → IsSound (run (init {Json = Json} o worker_count queue_size) cs)
  run-init-IsSound o worker_count queue_size cs room =
      run-IsSound (init o worker_count queue_size) cs (unfold init in room) (
        unfold init find in
        record {
          keyed = record { distinct = tt; keyed = λ id. refl };
          phases = λ id r e. absurd (cc e);
          fresh = λ n le lt. refl;
        })
