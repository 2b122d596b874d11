-- ===== src/Server/TaskManager/Operations.antt =====
-- The lock sections and the methods of the processor.
use cxxmcp.Prelude.{
  ℕ, ◌+◌, ◌%◌, ◌^◌, true, false, not, ◌||◌, Bytes, text, bytes_eq, Option, none, some, List, [],
  ◌∷◌, ◌++◌, Result, ok, err, ErrorCode, ℤ, pos, negsuc, if◌then◌else◌,
}
use cxxmcp.Prelude.Decimal.{to_string}
use cxxmcp.Prelude.Dict.{find, emplace, erase, update}
use cxxmcp.Core.Executor.{enqueue}
use cxxmcp.Server.TaskManager.State.{
  TaskStatus, working, input_required, completed, failed, cancelled, Task, ProgressToken,
  TaskRecord, Options, Job, Processor, TaskUpdate, Readings, is_terminal, make_task_error,
}
use cxxmcp.Server.TaskManager.Trim.{update_of, is_working, refresh_updates, trim_completed, refresh}

unfoldable pub task_status_to_string : TaskStatus → Bytes
task_status_to_string working = text "working"
task_status_to_string input_required = text "input_required"
task_status_to_string completed = text "completed"
task_status_to_string failed = text "failed"
task_status_to_string cancelled = text "cancelled"

-- What a hook is called with. The progress is 0.0 or 1.0 of a total of 1.0.
pub data Emission (Json : Type 0) : Type 0 where
  status_changed : Task Json → Emission Json
  progressed : ProgressToken → (progress total : ℕ) → Bytes → Emission Json

-- What a method returns. `dangling` is a read through a pointer to an erased record, which has no
-- defined result; `throws` is the `std::length_error` of `reserve`.
pub data Reply {ℓ} (A : Type ℓ) : Type ℓ where
  reply : Result A → Reply A
  dangling throws : Reply A

pub record TaskListResult (Json : Type 0) : Type 0 where
  pub tasks : List (Task Json)
  pub next_cursor : Option Bytes
  pub total : ℕ

pub record Descriptor : Type 0 where
  pub name : Bytes
  pub ttl : Option ℤ
  pub progress_token : Option ProgressToken

-- How a task's operation ends.
pub data Outcome (Json : Type 0) : Type 0 where
  returned : Result Json → Outcome Json
  threw : Bytes → Outcome Json
  threw_unknown : Outcome Json

-- `make_task_id`
unfoldable pub task_id_at : ℕ → Bytes
task_id_at n = text "task-" ++ to_string n

unfoldable pub remove_id : Bytes → List Bytes → List Bytes
remove_id id [] = []
remove_id id (x ∷ xs) = let rest = remove_id id xs in if bytes_eq x id then rest else x ∷ rest

module _ {Json : Type 0} where
  abbrev message_of : Task Json → Bytes
  message_of task = elim task.status_message [
    | some m ↦ m
    | none ↦ task_status_to_string task.status
  ]

  abbrev emit_status : Options → TaskUpdate Json → List (Emission Json)
  emit_status o u = if o.has_status_hook then status_changed u.task ∷ [] else []

  abbrev emit_progress : Options → TaskUpdate Json → List (Emission Json)
  emit_progress o u =
      if not o.emit_progress_for_task_state_changes || not o.has_progress_hook
      then []
      else elim u.progress_token [
        | none ↦ []
        | some token ↦
            progressed token (if is_terminal u.task.status then 1 else 0) 1 (message_of u.task) ∷ []
      ]

  unfoldable pub emit_updates : Options → List (TaskUpdate Json) → List (Emission Json)
  emit_updates o [] = []
  emit_updates o (u ∷ us) = emit_status o u ++ (emit_progress o u ++ emit_updates o us)

  abbrev pub refreshed : Processor Json → Readings → Processor Json
  refreshed p r = record p { table = refresh p.options r.now r.trim_now r.timestamp p.table }

  abbrev pub refresh_emissions : Processor Json → Readings → List (Emission Json)
  refresh_emissions p r = emit_updates p.options (refresh_updates r.now r.timestamp p.tasks)

  unfoldable pub finish_record : Readings → Result Json → TaskRecord Json → TaskRecord Json
  finish_record r (ok result) rec = record rec {
    task = record (rec.task) {
      last_updated_at = r.timestamp;
      status = completed;
      status_message = none;
    };
    terminal_at = some r.now;
    result = some result;
    failure = none;
  }
  finish_record r (err e) rec = record rec {
    task = record (rec.task) {
      last_updated_at = r.timestamp;
      status = failed;
      status_message = some e.message;
    };
    terminal_at = some r.now;
    failure = some e;
    result = none;
  }

  unfoldable pub finish_task :
      Processor Json → Bytes → Result Json → Readings → Processor Json × List (Emission Json)
  finish_task p task_id result r = elim (find task_id p.tasks) [
    | none ↦ (p, [])
    | some rec ↦ if not (is_working rec.task.status) then (p, []) else (
      record p {
        table =
            trim_completed p.options r.trim_now
              (record (p.table) { tasks = update task_id (finish_record r result) p.tasks });
      },
      emit_updates p.options (update_of (finish_record r result rec) ∷ []),
    )
  ]

  -- What the lambda that the executor runs makes of the operation's end.
  unfoldable pub result_of : Outcome Json → Result Json
  result_of (returned result) = result
  result_of (threw what) =
      err (make_task_error ErrorCode.internal_error (text "task operation threw an exception") what)
  result_of threw_unknown = err (
      make_task_error ErrorCode.internal_error (text "task operation threw an unknown exception")
        [])

  unfoldable pub run_job :
      Processor Json → Job → Outcome Json → Readings → Processor Json × List (Emission Json)
  run_job p job outcome r = finish_task p job.task_id (result_of outcome) r

  -- The snapshot that `submit_operation` makes before the first lock section, and the timeout.
  unfoldable pub task_of : Json → Options → Descriptor → Bytes → Result (Task Json × ℤ)
  task_of empty_object o d timestamp =
      let task : ℤ → Task Json = λ ttl. record {
        task_id = [];
        status = working;
        status_message = none;
        created_at = timestamp;
        ttl = some ttl;
        poll_interval = o.poll_interval;
        last_updated_at = timestamp;
        extensions = empty_object;
      } in
      elim d.ttl [
        | some (negsuc n) ↦ err (
            make_task_error ErrorCode.invalid_request (text "task ttl must be non-negative") d.name)
        | some (pos n) ↦ ok (task (pos n), pos n)
        | none ↦ ok (task o.default_timeout, o.default_timeout)
      ]

  -- The first lock section of `submit_operation`; the index is a `uint64_t`.
  unfoldable pub register_task :
      Processor Json → Task Json → Option ProgressToken → ℤ → ℕ → Processor Json × Task Json
  register_task p task token timeout started_at =
      let task_id = task_id_at p.next_task_index in
      let task : Task Json = record task { task_id = task_id } in
      let rec : TaskRecord Json = record {
        task = task;
        progress_token = token;
        started_at = started_at;
        terminal_at = none;
        timeout = some timeout;
        cancellation = false;
        result = none;
        failure = none;
      } in
      (
        record p {
          table = record { tasks = emplace task_id rec p.tasks; order = p.order ++ task_id ∷ [] };
          next_task_index = (p.next_task_index + 1) % 2 ^ 64;
        },
        task,
      )

  -- the second lock section: the token of the record, or a detached one
  unfoldable pub job_for : Processor Json → Bytes → Job
  job_for p task_id = record {
    task_id = task_id;
    cancellable = elim (find task_id p.tasks) [ none ↦ false | some _ ↦ true ];
  }

  unfoldable pub enqueue_job : Processor Json → Job → Processor Json × Result (Unit {0})
  enqueue_job p job =
      let (executor, queued) = enqueue p.executor (some job) in
      (record p { executor = executor }, queued)

  -- the lock section after a refused `enqueue`
  unfoldable pub withdraw_task : Processor Json → Bytes → Processor Json
  withdraw_task p task_id = record p {
    table = record { tasks = erase task_id p.tasks; order = remove_id task_id p.order };
  }
