-- ===== src/Server/TaskManager/Samples.antt =====
-- A processor of concrete tasks. A JSON value is a number here.
use cxxmcp.Prelude.{ℕ, true, false, Bytes, text, none, some, List, [], ◌∷◌, ok, pos, arith}
use cxxmcp.Server.TaskManager.State.{
  working, completed, TaskRecord, Options, Processor, Readings, Job,
}
use cxxmcp.Server.TaskManager.Operations.{Descriptor, returned}
use cxxmcp.Server.TaskManager.Methods.{Call, registers, enqueues, ends, init, run}
use cxxmcp.Server.TaskManager.Invariant.{IsSound}
use cxxmcp.Server.TaskManager.Soundness.{run-init-IsSound}

abbrev pub options : ℕ → Options
options kept = record {
  default_timeout = pos 300;
  poll_interval = none;
  completed_task_ttl = none;
  max_completed_tasks = kept;
  list_page_size = 1;
  has_status_hook = true;
  has_progress_hook = false;
  emit_progress_for_task_state_changes = true;
}

abbrev pub at : ℕ → Readings
at now = record { now = now; trim_now = now; timestamp = text "then" }

abbrev pub descriptor : Descriptor
descriptor = record { name = text "work"; ttl = some (pos 60); progress_token = none }

abbrev pub job : Bytes → Job
job id = record { task_id = id; cancellable = true }

-- Two submissions; the first task then completes with the value 42.
abbrev pub calls : List (Call ℕ)
calls =
    registers 0 descriptor (text "then") 10
    ∷ enqueues (text "task-1")
    ∷ registers 0 descriptor (text "then") 11
    ∷ enqueues (text "task-2")
    ∷ ends (job (text "task-1")) (returned (ok 42)) (at 20)
    ∷ []

abbrev pub served : ℕ → Processor ℕ
served kept = run (init (options kept) 1 4) calls

pub served-IsSound : (kept : ℕ) → IsSound (served kept)
served-IsSound kept = run-init-IsSound (options kept) 1 4 calls (ground arith)

abbrev pub finished : TaskRecord ℕ
finished = record {
  task = record {
    task_id = text "task-1";
    status = completed;
    status_message = none;
    created_at = text "then";
    ttl = some (pos 60);
    poll_interval = none;
    last_updated_at = text "then";
    extensions = 0;
  };
  progress_token = none;
  started_at = 10;
  terminal_at = some 20;
  timeout = some (pos 60);
  cancellation = false;
  result = some 42;
  failure = none;
}

abbrev pub busy : TaskRecord ℕ
busy = record {
  task = record {
    task_id = text "task-2";
    status = working;
    status_message = none;
    created_at = text "then";
    ttl = some (pos 60);
    poll_interval = none;
    last_updated_at = text "then";
    extensions = 0;
  };
  progress_token = none;
  started_at = 11;
  terminal_at = none;
  timeout = some (pos 60);
  cancellation = false;
  result = none;
  failure = none;
}
