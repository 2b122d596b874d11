-- ===== src/Server/TaskManager/Final.antt =====
-- A terminal task never changes again.
use cxxmcp.Prelude.{
  ℤ, ℕ, ◌≡◌, ◌⊎◌, inl, inr, true, false, Bytes, bytes_eq_iff, Option, none, some, arith, Result, ok,
  err, Bool-cases, Option-cases,
}
use cxxmcp.Prelude.Dict.{
  Dict, find, emplace, find-emplace, find-erase, find-update, find-map_values,
}
use cxxmcp.Server.TaskManager.State.{
  Task, ProgressToken, TaskRecord, Table, Processor, Readings, is_terminal, Options,
}
use cxxmcp.Server.TaskManager.Trim.{
  is_working, is_timed_out, refresh_record, refresh, trim_completed,
}
use cxxmcp.Server.TaskManager.Operations.{
  Descriptor, task_id_at, finish_record, finish_task, run_job, result_of, task_of, register_task,
  enqueue_job, withdraw_task, refreshed,
}
use cxxmcp.Server.TaskManager.Methods.{
  cancel_record, cancel_found, cancel_task, Call, registers, enqueues, withdraws, ends, refreshes,
  cancels, stops, wakes, wake, stop, step, registered,
}
use cxxmcp.Server.TaskManager.Keys.{IsKeyed}
use cxxmcp.Server.TaskManager.Trimmed.{trim_completed-Survives}
use cxxmcp.Server.TaskManager.Invariant.{IsSound, IsKeyed-map_values, IsKeyed-update}
use cxxmcp.Server.TaskManager.Soundness.{refresh-IsSound}

module _ {Json : Type 0} (id : Bytes) (r : TaskRecord Json)
    (over : is_terminal r.task.status ≡ true) where
  -- The record is as it was, or the task was forgotten.
  abbrev pub SameOrGone : Option (TaskRecord Json) → Type 0
  SameOrGone o = (o ≡ some r) ⊎ (o ≡ none)

  not_working : is_working r.task.status ≡ false
  unfolding is_working is_terminal
  not_working = ground (arith, over)

  refresh_same : (now : ℕ) (timestamp : Bytes) → refresh_record now timestamp r ≡ r
  unfolding refresh_record is_timed_out is_working is_terminal
  refresh_same now timestamp = ground (arith, over)

  trim_same :
      (o : Options) (now : ℕ) (t : Table Json)
      → IsKeyed t
      → SameOrGone (find id t.tasks)
      → SameOrGone (find id (trim_completed o now t).tasks)
  trim_same o now t k h = ground (arith, trim_completed-Survives o now t k id)

  refreshed_same :
      (p : Processor Json) (c : Readings)
      → IsSound p
      → find id p.tasks ≡ some r
      → SameOrGone (find id (refreshed p c).tasks)
  unfolding refresh
  refreshed_same p c h e =
      trim_same p.options c.trim_now _
        (IsKeyed-map_values (refresh_record c.now c.timestamp) p.table h.keyed)
        (ground (
          arith,
          find-map_values (refresh_record c.now c.timestamp) id p.tasks,
          refresh_same c.now c.timestamp,
        ))

  finish_same :
      (p : Processor Json) (j : Bytes) (res : Result Json) (c : Readings)
      → IsSound p
      → find id p.tasks ≡ some r
      → SameOrGone (find id (finish_task p j res c).0.tasks)
  unfolding finish_task
  finish_same p j res c h e = elim (Option-cases (find j p.tasks)) [
    | inl e' ↦ rw (e', finish_task) (inl e)
    | inr (s, e') ↦ elim (Bool-cases (is_working s.task.status)) [
      | inr idle ↦ rw (e', finish_task, idle) (inl e)
      | inl busy ↦
          rw (e', finish_task, busy)
            (trim_same p.options c.trim_now _
              (IsKeyed-update j (finish_record c res) p.table h.keyed)
              (ground (
                arith,
                find-update j id (finish_record c res) p.tasks,
                bytes_eq_iff j id,
                not_working,
              )))
    ]
  ]

  cancel_found_same :
      (p : Processor Json) (j : Bytes) (c : Readings) (s : TaskRecord Json)
      → find j p.tasks ≡ some s
      → is_terminal s.task.status ≡ false
      → IsSound p
      → SameOrGone (find id p.tasks)
      → SameOrGone (find id (cancel_found p j c).tasks)
  unfolding cancel_found
  cancel_found_same p j c s e' live h kept =
      trim_same p.options c.trim_now _ (IsKeyed-update j (cancel_record c j) p.table h.keyed)
        (ground (arith, find-update j id (cancel_record c j) p.tasks, bytes_eq_iff j id, over))

  cancel_same :
      (p : Processor Json) (j : Bytes) (c c' : Readings)
      → IsSound p
      → find id p.tasks ≡ some r
      → SameOrGone (find id (cancel_task p j c c').0.tasks)
  unfolding cancel_task
  cancel_same p j c c' h e =
      let kept = refreshed_same p c h e in
      elim (Option-cases (find j (refreshed p c).tasks)) [
        | inl e' ↦ rw (e', cancel_task) kept
        | inr (s, e') ↦ elim (Bool-cases (is_terminal s.task.status)) [
          | inl done ↦ rw (e', cancel_task, done) kept
          | inr live ↦
              rw (e', cancel_task, live)
                (cancel_found_same (refreshed p c) j c' s e' live (refresh-IsSound p c h) kept)
        ]
      ]

  emplace_same :
      (k : Bytes) (rec : TaskRecord Json) (m : Dict (TaskRecord Json))
      → find id m ≡ some r
      → find id (emplace k rec m) ≡ some r
  emplace_same k rec m e = ground (arith, find-emplace k id rec m, bytes_eq_iff k id)

  register_same :
      (p : Processor Json) (blank : Task Json) (token : Option ProgressToken) (timeout : ℤ)
      (started_at : ℕ)
      → find id p.tasks ≡ some r
      → SameOrGone (find id (register_task p blank token timeout started_at).0.tasks)
  unfolding register_task
  register_same p blank token timeout started_at e =
      inl (emplace_same (task_id_at p.next_task_index) _ p.tasks e)

  registered_same :
      (p : Processor Json) (d : Descriptor) (started_at : ℕ) (made : Result (Task Json × ℤ))
      → find id p.tasks ≡ some r
      → SameOrGone (find id (registered p d started_at made).tasks)
  unfolding registered
  registered_same p d started_at (err x) e = inl e
  registered_same p d started_at (ok (blank, timeout)) e =
      register_same p blank d.progress_token timeout started_at e

  -- In a sound processor, whatever lock section comes next, a task that has ended keeps its status, its result, its
  -- failure and all else, or it is no longer in the table.
  pub terminal_is_final :
      (p : Processor Json) (c : Call Json)
      → IsSound p
      → find id p.tasks ≡ some r
      → SameOrGone (find id (step p c).tasks)
  unfolding step run_job stop wake
  terminal_is_final p (registers empty d timestamp started_at) h e =
      registered_same p d started_at (task_of empty p.options d timestamp) e
  terminal_is_final p (enqueues j) h e = unfold enqueue_job in inl e
  terminal_is_final p (withdraws j) h e =
      unfold withdraw_task in ground (arith, find-erase j id p.tasks)
  terminal_is_final p (ends job outcome c) h e = finish_same p job.task_id (result_of outcome) c h e
  terminal_is_final p (refreshes c) h e = refreshed_same p c h e
  terminal_is_final p (cancels j c c') h e = cancel_same p j c c' h e
  terminal_is_final p wakes h e = inl e
  terminal_is_final p stops h e = inl e
