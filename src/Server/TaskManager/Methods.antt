-- ===== src/Server/TaskManager/Methods.antt =====
-- The methods of the processor, and histories of its lock sections.
use cxxmcp.Prelude.{
  ℕ, ◌+◌, ◌-◌, ◌%◌, ◌^◌, min, Bool, true, false, Bytes, text, Option, none, some, List, [], ◌∷◌,
  ◌++◌, Result, ok, err, Error, ErrorCode, ℤ, ltb, ◌==◌, if◌then◌else◌, length, take, drop,
}
use cxxmcp.Prelude.Decimal.{to_string}
use cxxmcp.Prelude.Dict.{Dict, find, update}
use cxxmcp.Core.Executor
use cxxmcp.Server.TaskManager.State.{
  Options, cancelled, Task, TaskRecord, Table, Job, Processor, Readings, is_terminal,
  make_task_error, task_not_found_error,
}
use cxxmcp.Server.TaskManager.Cursor.{parse_task_list_cursor}
use cxxmcp.Server.TaskManager.Trim.{update_of, trim_completed}
use cxxmcp.Server.TaskManager.Operations.{
  Emission, Reply, reply, dangling, throws, TaskListResult, Descriptor, Outcome, emit_updates,
  refreshed, refresh_emissions, run_job, task_of, register_task, job_for, enqueue_job,
  withdraw_task,
}

module _ {Json : Type 0} where
  -- `submit_operation` after its `enqueue`
  unfoldable pub submit_queued :
      Descriptor
      → Processor Json
      → Task Json
      → Result (Unit {0})
      → Processor Json × List (Emission Json) × Result (Task Json)
  submit_queued d p task (err e) = (withdraw_task p task.task_id, [], err e)
  submit_queued d p task (ok _) = (
    p,
    emit_updates p.options (record { task = task; progress_token = d.progress_token } ∷ []),
    ok task,
  )

  -- `submit_operation` from its first lock section on
  unfoldable pub submit_made :
      Processor Json
      → Descriptor
      → (started_at : ℕ) → Result (Task Json × ℤ)
      → Processor Json × List (Emission Json) × Result (Task Json)
  submit_made p d started_at (err e) = (p, [], err e)
  submit_made p d started_at (ok (blank, timeout)) =
      let (p1, task) = register_task p blank d.progress_token timeout started_at in
      let (p2, queued) = enqueue_job p1 (job_for p1 task.task_id) in submit_queued d p2 task queued

  -- `submit_operation` with no other thread between its lock sections; `callable` tells whether the
  -- handler is.
  unfoldable pub submit_operation :
      Json
      → Processor Json
      → Descriptor
      → (callable : Bool) → (timestamp : Bytes) → (started_at : ℕ)
      → Processor Json × List (Emission Json) × Result (Task Json)
  submit_operation empty_object p d false timestamp started_at = (
    p,
    [],
    err (
        make_task_error ErrorCode.invalid_request (text "task operation handler must be callable")
          d.name),
  )
  submit_operation empty_object p d true timestamp started_at =
      submit_made p d started_at (task_of empty_object p.options d timestamp)

  unfoldable pub tasks_of : Dict (TaskRecord Json) → List Bytes → List (Task Json)
  tasks_of tasks [] = []
  tasks_of tasks (id ∷ ids) =
      let rest = tasks_of tasks ids in elim (find id tasks) [ none ↦ rest | some r ↦ r.task ∷ rest ]

  -- One page from `cursor`; `start + page_size` is a 64-bit sum, and a page that would end before it
  -- starts asks `reserve` for more than a vector can hold.
  unfoldable pub list_page : ℕ → ℕ → Table Json → Reply (TaskListResult Json)
  list_page cursor list_page_size t =
      let total = length t.order in
      let start = min cursor total in
      let page_size = (if list_page_size == 0 then total else list_page_size) in
      let end = min ((start + page_size) % 2 ^ 64) total in
      if ltb end start
      then throws
      else reply (
          ok (record {
            tasks = tasks_of t.tasks (take (end - start) (drop start t.order));
            next_cursor = if ltb end total then some (to_string end) else none;
            total = total;
          }))

  unfoldable pub list_tasks :
      Processor Json
      → Option Bytes
      → Readings
      → Processor Json × List (Emission Json) × Reply (TaskListResult Json)
  list_tasks p cursor r = elim (parse_task_list_cursor cursor) [
    | err e ↦ (p, [], reply (err e))
    | ok offset ↦ (
      refreshed p r,
      refresh_emissions p r,
      list_page offset p.options.list_page_size (refreshed p r).table,
    )
  ]

  abbrev snapshot : Bytes → Option (TaskRecord Json) → Result (Task Json)
  snapshot task_id none = err (task_not_found_error task_id)
  snapshot task_id (some rec) = ok rec.task

  unfoldable pub get_task :
      Processor Json → Bytes → Readings → Processor Json × List (Emission Json) × Result (Task Json)
  get_task p task_id r =
      (refreshed p r, refresh_emissions p r, snapshot task_id (find task_id (refreshed p r).tasks))

  unfoldable pub cancel_record : Readings → Bytes → TaskRecord Json → TaskRecord Json
  cancel_record r task_id rec = record rec {
    task = record (rec.task) {
      status = cancelled;
      status_message = some (text "Operation cancelled");
      last_updated_at = r.timestamp;
    };
    cancellation = true;
    terminal_at = some r.now;
    failure = some (make_task_error ErrorCode.internal_error (text "Operation cancelled") task_id);
    result = none;
  }

  -- The change that `cancel_task` makes to a task that is not terminal.
  unfoldable pub cancel_found : Processor Json → Bytes → Readings → Processor Json
  cancel_found p task_id r = record p {
    table =
        trim_completed p.options r.trim_now
          (record (p.table) { tasks = update task_id (cancel_record r task_id) p.tasks });
  }

  -- `task = record->task` comes after the trim.
  abbrev pub read_back : Option (TaskRecord Json) → Reply (Task Json)
  read_back none = dangling
  read_back (some rec) = reply (ok rec.task)

  -- `r` are the readings of `refresh_locked`, `r'` those of the cancellation itself.
  unfoldable pub cancel_task :
      Processor Json
      → Bytes
      → Readings
      → Readings
      → Processor Json × List (Emission Json) × Reply (Task Json)
  cancel_task p task_id r r' =
      let p1 = refreshed p r in
      let q = cancel_found p1 task_id r' in
      elim (find task_id p1.tasks) [
        | none ↦ (p1, refresh_emissions p r, reply (err (task_not_found_error task_id)))
        | some rec ↦
            if is_terminal rec.task.status
            then (p1, refresh_emissions p r, reply (ok rec.task))
            else (
              q,
              refresh_emissions p r
                  ++ emit_updates p.options (update_of (cancel_record r' task_id rec) ∷ []),
              read_back (find task_id q.tasks),
            )
      ]

  abbrev pub stored_outcome : Bytes → Option Json → Option Error → Result Json
  stored_outcome task_id (some result) failure = ok result
  stored_outcome task_id none (some failure) = err failure
  stored_outcome task_id none none =
      err (make_task_error ErrorCode.invalid_request (text "task result is not available") task_id)

  abbrev pub stored_result : Bytes → Option (TaskRecord Json) → Result Json
  stored_result task_id none = err (task_not_found_error task_id)
  stored_result task_id (some rec) = stored_outcome task_id rec.result rec.failure

  unfoldable pub task_result :
      Processor Json → Bytes → Readings → Processor Json × List (Emission Json) × Result Json
  task_result p task_id r = (
    refreshed p r,
    refresh_emissions p r,
    stored_result task_id (find task_id (refreshed p r).tasks),
  )

-- The lock sections, in the order in which threads take the lock: any interleaving of the methods
-- is such a sequence.
pub data Call (Json : Type 0) : Type 0 where
  registers :
      (empty_object : Json) → Descriptor → (timestamp : Bytes) → (started_at : ℕ) → Call Json
  enqueues withdraws : Bytes → Call Json
  ends : Job → Outcome Json → Readings → Call Json
  refreshes : Readings → Call Json
  cancels : Bytes → Readings → Readings → Call Json
  wakes stops : Call Json

module _ {Json : Type 0} where
  -- A refused request has no lock section.
  unfoldable pub registered :
      Processor Json → Descriptor → ℕ → Result (Task Json × ℤ) → Processor Json
  registered p d started_at (err e) = p
  registered p d started_at (ok (task, timeout)) =
      (register_task p task d.progress_token timeout started_at).0

  -- A worker of the executor looks for a job.
  unfoldable pub wake : Processor Json → Processor Json
  wake p = record p { executor = (Executor.worker_wake p.executor).1 }

  -- `stop` up to the joining of the workers
  unfoldable pub stop : Processor Json → Processor Json
  stop p = record p { executor = Executor.shutdown p.executor }

  unfoldable pub step : Processor Json → Call Json → Processor Json
  step p (registers empty_object d timestamp started_at) =
      registered p d started_at (task_of empty_object p.options d timestamp)
  step p (enqueues task_id) = (enqueue_job p (job_for p task_id)).0
  step p (withdraws task_id) = withdraw_task p task_id
  step p (ends job outcome r) = (run_job p job outcome r).0
  step p (refreshes r) = refreshed p r
  step p (cancels task_id r r') = (cancel_task p task_id r r').0
  step p wakes = wake p
  step p stops = stop p

  unfoldable pub run : Processor Json → List (Call Json) → Processor Json
  run p [] = p
  run p (c ∷ cs) = run (step p c) cs

  -- the constructor, with the executor's two limits
  unfoldable pub init : Options → (worker_count queue_size : ℕ) → Processor Json
  init options worker_count queue_size = record {
    options = options;
    executor = Executor.init worker_count queue_size;
    table = record { tasks = []; order = [] };
    next_task_index = 1;
  }
