-- ===== src/Server/TaskManager/SubmissionTests.antt =====
-- The theorems on submissions at concrete states.
use cxxmcp.Prelude.{
  ErrorCode, bytes_eq, ℕ, ◌≡◌, ◌<◌, refl, true, text, some, [], ok, err, pos, negsuc, arith,
}
use cxxmcp.Prelude.Decimal.{to_string}
use cxxmcp.Prelude.Dict.{find, emplace, update}
use cxxmcp.Server.TaskManager.State.{make_task_error, working, Task, TaskRecord, is_terminal}
use cxxmcp.Server.TaskManager.Trim.{
  is_working, is_terminal_at, trim_excess, trim_completed, count_terminal,
}
use cxxmcp.Server.TaskManager.Operations.{
  register_task, task_of, enqueue_job, job_for, finish_task, finish_record, run_job, result_of,
  task_id_at, Descriptor, refreshed,
}
use cxxmcp.Server.TaskManager.Methods.{
  submit_made, submit_queued, registered, init, run, step, submit_operation,
}
use cxxmcp.Core.Executor
use cxxmcp.Core.Executor.{enqueue, post}
use cxxmcp.Server.TaskManager.Invariant.{index_limit}
use cxxmcp.Server.TaskManager.Timeouts.{TimedOutOrGone}
use cxxmcp.Server.TaskManager.LongTtl.{long_ttl_is_timed_out}
use cxxmcp.Server.TaskManager.Submission.{SameTasks, IsAccepted, submit_refused, submit-IsAccepted}
use cxxmcp.Server.TaskManager.Samples.{at, descriptor, served, served-IsSound, busy}

abbrev bad_ttl : Descriptor
bad_ttl = record descriptor { ttl = some (negsuc 0) }

room_left : (served 5).next_task_index < index_limit
unfolding run step registered register_task task_of init enqueue_job job_for emplace find update
    finish_task finish_record run_job result_of task_id_at trim_completed trim_excess count_terminal
    is_terminal_at is_terminal is_working bytes_eq text to_string
room_left = ground arith

refused_ttl :
    (submit_operation 0 (served 5) bad_ttl true (text "now") 40).2
    ≡ err (
        make_task_error ErrorCode.invalid_request
          (text "task ttl must be non-negative")
          (text "work"))
unfolding run step registered register_task task_of init enqueue_job job_for emplace find update
    finish_task finish_record run_job result_of task_id_at trim_completed trim_excess count_terminal
    is_terminal_at is_terminal is_working bytes_eq text to_string submit_operation submit_made
refused_ttl = refl

accepted_third :
    (submit_operation 0 (served 5) descriptor true (text "now") 40).2
    ≡ ok (record (busy.task) {
      task_id = text "task-3";
      created_at = text "now";
      last_updated_at = text "now";
    })
unfolding run step registered register_task task_of init enqueue_job job_for emplace find update
    finish_task finish_record run_job result_of task_id_at trim_completed trim_excess count_terminal
    is_terminal_at is_terminal is_working bytes_eq text to_string submit_operation submit_made
    submit_queued enqueue post Executor.init
accepted_third = refl

abbrev long_lived : Descriptor
long_lived = record descriptor { ttl = some (pos 10000000000) }

abbrev third : Task ℕ
third = record (busy.task) {
  task_id = text "task-3";
  created_at = text "now";
  last_updated_at = text "now";
  ttl = some (pos 10000000000);
}

accepted_long_lived : (submit_operation 0 (served 5) long_lived true (text "now") 40).2 ≡ ok third
unfolding run step registered register_task task_of init enqueue_job job_for emplace find update
    finish_task finish_record run_job result_of task_id_at trim_completed trim_excess count_terminal
    is_terminal_at is_terminal is_working bytes_eq text to_string submit_operation submit_made
    submit_queued enqueue post Executor.init
accepted_long_lived = refl

long_ttl_is_timed_out_example :
    (r : TaskRecord ℕ) × (find
        (text "task-3")
        (submit_operation 0 (served 5) long_lived true (text "now") 40).0.tasks
      ≡ some r)
    × (r.task ≡ third)
    × (working ≡ working)
    × TimedOutOrGone (at 41) r (
        find
          (text "task-3")
          (refreshed
            (submit_operation 0 (served 5) long_lived true (text "now") 40).0
            (at 41)).tasks)
long_ttl_is_timed_out_example =
    long_ttl_is_timed_out 0 (served 5) long_lived (text "now") 40 10000000000 third (at 41) refl
      (ground arith) (ground arith) (served-IsSound 5) room_left accepted_long_lived

submit_refused_example :
    SameTasks (served 5).table (submit_operation 0 (served 5) bad_ttl true (text "now") 40).0.table
    × ((submit_operation 0 (served 5) bad_ttl true (text "now") 40).1 ≡ [])
submit_refused_example =
    submit_refused 0 (served 5) bad_ttl true (text "now") 40 _ (served-IsSound 5) room_left
      refused_ttl

submit-IsAccepted_example :
    (true ≡ true)
    × IsAccepted
        (served 5)
        (submit_operation 0 (served 5) descriptor true (text "now") 40).0
        (record (busy.task) {
          task_id = text "task-3";
          created_at = text "now";
          last_updated_at = text "now";
        })
submit-IsAccepted_example =
    submit-IsAccepted 0 (served 5) descriptor true (text "now") 40
      (record (busy.task) {
        task_id = text "task-3";
        created_at = text "now";
        last_updated_at = text "now";
      })
      (served-IsSound 5) room_left accepted_third
