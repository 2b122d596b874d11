-- ===== src/Server/TaskManager/Tests.antt =====
-- The processor's theorems at concrete states.
use cxxmcp.Prelude.{
  suc, bytes_eq, ℕ, ◌+◌, ◌-◌, ◌*◌, ◌≡◌, ◌≤◌, ◌<◌, ◌↔◌, ◌⊎◌, refl, true, Bytes, text, none, some,
  List, map, ok, length, drop, arith,
}
use cxxmcp.Prelude.Decimal.{to_string}
use cxxmcp.Prelude.Dict.{find, erase, emplace, update, map_values}
use cxxmcp.Server.TaskManager.State.{elapsed_at_least, cancelled, Task, TaskRecord, is_terminal}
use cxxmcp.Server.TaskManager.Cursor.{parse_task_list_cursor, max_size, parse-to_string}
use cxxmcp.Server.TaskManager.Trim.{
  is_working, refresh, is_terminal_at, trim_excess, refresh_record, is_timed_out, trim_completed,
  trim_aged, count_terminal,
}
use cxxmcp.Server.TaskManager.Operations.{
  register_task, task_of, enqueue_job, job_for, finish_task, finish_record, run_job, result_of,
  task_id_at, refreshed, reply, dangling,
}
use cxxmcp.Server.TaskManager.Methods.{
  registered, cancels, init, run, step, task_result, cancel_task,
}
use cxxmcp.Server.TaskManager.Retention.{terminal_ids, trim_completed_keeps_newest}
use cxxmcp.Server.TaskManager.Keys.{mem, is_some, Distinct}
use cxxmcp.Server.TaskManager.Invariant.{IsSound}
use cxxmcp.Server.TaskManager.Soundness.{run-init-IsSound}
use cxxmcp.Server.TaskManager.Final.{terminal_is_final}
use cxxmcp.Server.TaskManager.Timeouts.{TimedOutOrGone, refreshed_times_out}
use cxxmcp.Server.TaskManager.Replies.{Answers, task_result-Answers}
use cxxmcp.Server.TaskManager.Cancelling.{cancel_replies, cancel_dangles}
use cxxmcp.Server.TaskManager.Pages.{effective, snapshot_in, walk, walk_is_complete}
use cxxmcp.Server.TaskManager.Samples.{options, at, calls, served, served-IsSound, finished, busy}

run-init-IsSound_example : IsSound (served 5)
run-init-IsSound_example = run-init-IsSound (options 5) 1 4 calls (ground arith)

served_first : find (text "task-1") (served 5).tasks ≡ some finished
unfolding run step registered register_task task_of init enqueue_job job_for emplace find update
    finish_task finish_record run_job result_of task_id_at trim_completed trim_excess count_terminal
    is_terminal_at is_terminal is_working bytes_eq text to_string
served_first = refl

terminal_is_final_example :
    (find (text "task-1") (step (served 5) (cancels (text "task-1") (at 30) (at 31))).tasks
      ≡ some finished)
    ⊎ (find (text "task-1") (step (served 5) (cancels (text "task-1") (at 30) (at 31))).tasks
        ≡ none)
terminal_is_final_example =
    terminal_is_final (text "task-1") finished (unfold is_terminal in refl) (served 5)
      (cancels (text "task-1") (at 30) (at 31)) (served-IsSound 5) served_first

trim_completed_keeps_newest_example :
    (terminal_ids
        (trim_completed (options 5) 30 (served 5).table).order
        (trim_completed (options 5) 30 (served 5).table).tasks
      ≡ drop
          (length (
              terminal_ids
                (trim_aged none 30 (served 5).table).order
                (trim_aged none 30 (served 5).table).tasks)
            - 5)
          (terminal_ids
            (trim_aged none 30 (served 5).table).order
            (trim_aged none 30 (served 5).table).tasks))
    × (length (
          terminal_ids
            (trim_completed (options 5) 30 (served 5).table).order
            (trim_completed (options 5) 30 (served 5).table).tasks)
        ≤ 5)
trim_completed_keeps_newest_example =
    trim_completed_keeps_newest (options 5) 30 (served 5).table (served-IsSound 5).keyed

task_result-Answers_example :
    Answers
      (text "task-1")
      (find (text "task-1") (refreshed (served 5) (at 30)).tasks)
      (task_result (served 5) (text "task-1") (at 30)).2
task_result-Answers_example =
    task_result-Answers (served 5) (text "task-1") (at 30) (served-IsSound 5)

second_works : find (text "task-2") (served 5).tasks ≡ some busy
unfolding run step registered register_task task_of init enqueue_job job_for emplace find update
    finish_task finish_record run_job result_of task_id_at trim_completed trim_excess count_terminal
    is_terminal_at is_terminal is_working bytes_eq text to_string
second_works = refl

refreshed_times_out_example :
    ((60 * 1000000000 ≤ 60000000011 - 11)
      ↔ TimedOutOrGone
          (at 60000000011)
          busy
          (find (text "task-2") (refreshed (served 5) (at 60000000011)).tasks))
    × ((60000000011 - 11 < 60 * 1000000000)
        ↔ (find (text "task-2") (refreshed (served 5) (at 60000000011)).tasks ≡ some busy))
refreshed_times_out_example =
    refreshed_times_out (text "task-2") busy 60 (served 5) (at 60000000011) (served-IsSound 5)
      second_works refl refl (ground arith)

second_is_busy : find (text "task-2") (refreshed (served 5) (at 30)).tasks ≡ some busy
unfolding run step registered register_task task_of init enqueue_job job_for emplace find update
    finish_task finish_record run_job result_of task_id_at trim_completed trim_excess count_terminal
    is_terminal_at is_terminal is_working bytes_eq text to_string refresh map_values refresh_record
    is_timed_out elapsed_at_least
second_is_busy = refl

second_is_busy_there : find (text "task-2") (refreshed (served 0) (at 30)).tasks ≡ some busy
unfolding run step registered register_task task_of init enqueue_job job_for emplace find update
    finish_task finish_record run_job result_of task_id_at trim_completed trim_excess count_terminal
    is_terminal_at is_terminal is_working bytes_eq text to_string refresh map_values refresh_record
    is_timed_out elapsed_at_least erase
second_is_busy_there = refl

one_is_terminal :
    count_terminal (refreshed (served 5) (at 30)).order (refreshed (served 5) (at 30)).tasks
    < (served 5).options.max_completed_tasks
unfolding run step registered register_task task_of init enqueue_job job_for emplace find update
    finish_task finish_record run_job result_of task_id_at trim_completed trim_excess count_terminal
    is_terminal_at is_terminal is_working bytes_eq text to_string refresh map_values refresh_record
    is_timed_out elapsed_at_least
one_is_terminal = ground arith

kept_forever : (served 5).options.completed_task_ttl ≡ none
unfolding run step registered register_task task_of init enqueue_job job_for emplace find update
    finish_task finish_record run_job result_of task_id_at trim_completed trim_excess count_terminal
    is_terminal_at is_terminal is_working bytes_eq text to_string
kept_forever = refl

none_kept : (served 0).options.max_completed_tasks ≡ 0
unfolding run step registered register_task task_of init enqueue_job job_for emplace find update
    finish_task finish_record run_job result_of task_id_at trim_completed trim_excess count_terminal
    is_terminal_at is_terminal is_working bytes_eq text to_string
none_kept = refl

two_fit : effective 1 (length (served 5).order) + length (served 5).order ≤ max_size
unfolding run step registered register_task task_of init enqueue_job job_for emplace find update
    finish_task finish_record run_job result_of task_id_at trim_completed trim_excess count_terminal
    is_terminal_at is_terminal is_working bytes_eq text to_string
two_fit = ground arith

cancel_replies_example :
    (s : TaskRecord ℕ) × ((cancel_task (served 5) (text "task-2") (at 30) (at 31)).2
      ≡ reply (ok s.task))
    × (find (text "task-2") (cancel_task (served 5) (text "task-2") (at 30) (at 31)).0.tasks
        ≡ some s)
    × (s.task.status ≡ cancelled)
    × (s.cancellation ≡ true)
cancel_replies_example =
    cancel_replies (served 5) (text "task-2") (at 30) (at 31) busy (served-IsSound 5) kept_forever
      one_is_terminal second_is_busy (unfold is_terminal in refl)

cancel_dangles_example : (cancel_task (served 0) (text "task-2") (at 30) (at 31)).2 ≡ dangling
cancel_dangles_example =
    cancel_dangles (served 0) (text "task-2") (at 30) (at 31) busy (served-IsSound 0) none_kept
      second_is_busy_there (unfold is_terminal in refl)

walk_is_complete_example :
    (seen : List (Task ℕ)) × (walk (suc (length (served 5).order)) none 1 (served 5).table
      ≡ some seen)
    × (map (λ task. task.task_id) seen ≡ (served 5).order)
    × (map some seen ≡ map (λ id. snapshot_in (served 5).tasks id) (served 5).order)
    × Distinct (served 5).order
    × ((id : Bytes) → mem id (served 5).order ≡ is_some (find id (served 5).tasks))
walk_is_complete_example = walk_is_complete 1 (served 5) (served-IsSound 5) two_fit

parse-to_string_example : parse_task_list_cursor (some (to_string 120)) ≡ ok 120
parse-to_string_example = parse-to_string 120 (ground arith)
