-- ===== src/Server/TaskManager/Trim.antt =====
-- `refresh_locked`, `trim_completed_locked` and `append_update_locked`. A loop over `order_` that
-- erases through its iterator is a recursion that returns the identifiers it keeps.
use cxxmcp.Prelude.{
  ℕ, ◌+◌, ◌-◌, Bool, true, false, ◌&&◌, Bytes, text, Option, none, some, List, [], ◌∷◌, ErrorCode,
  ℤ, ltb, if◌then◌else◌,
}
use cxxmcp.Prelude.Dict.{Dict, find, erase, map_values}
use cxxmcp.Server.TaskManager.State.{
  TaskStatus, working, failed, TaskRecord, Options, Table, TaskUpdate, is_terminal,
  elapsed_at_least, make_task_error, nanoseconds_per_second, nanoseconds_per_millisecond,
}

unfoldable pub is_working : TaskStatus → Bool
is_working working = true
is_working _ = false

abbrev pub out_of_time : ℕ → Option ℤ → ℕ → Bool
out_of_time now none started_at = false
out_of_time now (some timeout) started_at =
    elapsed_at_least nanoseconds_per_second timeout (now - started_at)

abbrev pub aged : ℤ → ℕ → Option ℕ → Bool
aged ttl now none = false
aged ttl now (some terminal_at) =
    elapsed_at_least nanoseconds_per_millisecond ttl (now - terminal_at)

module _ {Json : Type 0} where
  abbrev pub update_of : TaskRecord Json → TaskUpdate Json
  update_of record_ = record { task = record_.task; progress_token = record_.progress_token }

  unfoldable pub is_timed_out : ℕ → TaskRecord Json → Bool
  unfolding is_working
  is_timed_out now r = is_working r.task.status && out_of_time now r.timeout r.started_at

  unfoldable pub time_out : ℕ → Bytes → TaskRecord Json → TaskRecord Json
  time_out now timestamp r = record r {
    task = record (r.task) {
      status = failed;
      status_message = some (text "Operation timed out");
      last_updated_at = timestamp;
    };
    cancellation = true;
    terminal_at = some now;
    failure =
        some (make_task_error ErrorCode.internal_error (text "Operation timed out") r.task.task_id);
    result = none;
  }

  -- the body of the loop of `refresh_locked`
  unfoldable pub refresh_record : ℕ → Bytes → TaskRecord Json → TaskRecord Json
  refresh_record now timestamp r = if is_timed_out now r then time_out now timestamp r else r

  unfoldable pub refresh_updates : ℕ → Bytes → Dict (TaskRecord Json) → List (TaskUpdate Json)
  refresh_updates now timestamp [] = []
  refresh_updates now timestamp ((id, r) ∷ rest) =
      let later = refresh_updates now timestamp rest in
      if is_timed_out now r then update_of (time_out now timestamp r) ∷ later else later

  unfoldable pub is_terminal_at : Option (TaskRecord Json) → Bool
  is_terminal_at none = false
  is_terminal_at (some r) = is_terminal r.task.status

  unfoldable pub is_expired_at : ℤ → ℕ → Option (TaskRecord Json) → Bool
  is_expired_at ttl now none = false
  is_expired_at ttl now (some r) = is_terminal r.task.status && aged ttl now r.terminal_at

  abbrev pub keep_id : Bytes → Table Json → Table Json
  keep_id id t = record t { order = id ∷ t.order }

  -- the first loop
  unfoldable pub trim_expired : ℤ → ℕ → List Bytes → Dict (TaskRecord Json) → Table Json
  trim_expired ttl now [] tasks = record { tasks = tasks; order = [] }
  trim_expired ttl now (id ∷ ids) tasks =
      let gone = is_expired_at ttl now (find id tasks) in
      let rest = trim_expired ttl now ids (if gone then erase id tasks else tasks) in
      if gone then rest else keep_id id rest

  unfoldable pub count_terminal : List Bytes → Dict (TaskRecord Json) → ℕ
  count_terminal [] tasks = 0
  count_terminal (id ∷ ids) tasks =
      let rest = count_terminal ids tasks in
      if is_terminal_at (find id tasks) then rest + 1 else rest

  -- the last loop
  unfoldable pub trim_excess : ℕ → ℕ → List Bytes → Dict (TaskRecord Json) → Table Json
  trim_excess limit count [] tasks = record { tasks = tasks; order = [] }
  trim_excess limit count (id ∷ ids) tasks =
      let gone = is_terminal_at (find id tasks) in
      let rest =
        trim_excess limit (if gone then count - 1 else count) ids
          (if gone then erase id tasks else tasks) in
      if ltb limit count
      then (if gone then rest else keep_id id rest)
      else record { tasks = tasks; order = id ∷ ids }

  abbrev pub trim_aged : Option ℤ → ℕ → Table Json → Table Json
  trim_aged none now t = t
  trim_aged (some ttl) now t = trim_expired ttl now t.order t.tasks

  abbrev pub trim_to : ℕ → Table Json → Table Json
  trim_to limit t = trim_excess limit (count_terminal t.order t.tasks) t.order t.tasks

  unfoldable pub trim_completed : Options → ℕ → Table Json → Table Json
  trim_completed options now t =
      trim_to options.max_completed_tasks (trim_aged options.completed_task_ttl now t)

  unfoldable pub refresh : Options → ℕ → ℕ → Bytes → Table Json → Table Json
  refresh options now trim_now timestamp t =
      trim_completed options trim_now
        (record t { tasks = map_values (refresh_record now timestamp) t.tasks })
