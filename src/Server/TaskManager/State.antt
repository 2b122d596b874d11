-- ===== src/Server/TaskManager/State.antt =====
-- The records of task_manager.hpp and of protocol/task.hpp.
use cxxmcp.Prelude.{
  ℕ, ◌+◌, ◌-◌, ◌*◌, ◌%◌, ◌^◌, Bool, true, false, Bytes, text, Option, List, [], Error, ErrorCode,
  error_code, ℤ, pos, negsuc, leb,
}
use cxxmcp.Prelude.Dict.{Dict}
use cxxmcp.Core.Executor.{Executor}

pub data TaskStatus : Type 0 where
  working input_required completed failed cancelled : TaskStatus

pub record Task (Json : Type 0) : Type 0 where
  pub task_id : Bytes
  pub status : TaskStatus
  pub status_message : Option Bytes
  pub created_at : Bytes
  pub ttl : Option ℤ
  pub poll_interval : Option ℤ
  pub last_updated_at : Bytes
  pub extensions : Json

-- `std::variant<std::int64_t, std::string>`
pub data ProgressToken : Type 0 where
  number : ℤ → ProgressToken
  string : Bytes → ProgressToken

pub record TaskRecord (Json : Type 0) : Type 0 where
  pub task : Task Json
  pub progress_token : Option ProgressToken
  pub started_at : ℕ
  pub terminal_at : Option ℕ
  pub timeout : Option ℤ
  pub cancellation : Bool
  pub result : Option Json
  pub failure : Option Error

-- The two hooks are present or not; what they do is the host's.
pub record Options : Type 0 where
  pub default_timeout : ℤ
  pub poll_interval : Option ℤ
  pub completed_task_ttl : Option ℤ
  pub max_completed_tasks : ℕ
  pub list_page_size : ℕ
  pub has_status_hook : Bool
  pub has_progress_hook : Bool
  pub emit_progress_for_task_state_changes : Bool

-- What the executor is given: the task to run, and whether its token is attached to a source.
pub record Job : Type 0 where
  pub task_id : Bytes
  pub cancellable : Bool

-- `tasks_` and `order_`, which change together.
pub record Table (Json : Type 0) : Type 0 where
  pub tasks : Dict (TaskRecord Json)
  pub order : List Bytes

pub record Processor (Json : Type 0) : Type 0 where
  pub options : Options
  pub executor : Executor Job
  pub table : Table Json
  pub open table use *
  pub next_task_index : ℕ

pub record TaskUpdate (Json : Type 0) : Type 0 where
  pub task : Task Json
  pub progress_token : Option ProgressToken

-- One pass through a lock section reads the steady clock twice, the second time in
-- `trim_completed_locked`, and the system clock once.
pub record Readings : Type 0 where
  pub now : ℕ
  pub trim_now : ℕ
  pub timestamp : Bytes

unfoldable pub make_task_error : ErrorCode → Bytes → Bytes → Error
make_task_error code message detail = record {
  code = error_code code;
  message = message;
  detail = detail;
  category = [];
}

unfoldable pub is_terminal : TaskStatus → Bool
is_terminal completed = true
is_terminal failed = true
is_terminal cancelled = true
is_terminal _ = false

-- Whether a span of `elapsed` nanoseconds is at least a duration of `count` units of `unit`
-- nanoseconds: the comparison converts to a signed 64-bit count of nanoseconds, and a product out
-- of its range is taken to wrap around.
unfoldable pub elapsed_at_least : ℕ → ℤ → ℕ → Bool
elapsed_at_least unit (pos count) elapsed =
    let bits = count * unit % 2 ^ 64 in
    elim (leb (2 ^ 63) bits) [ true ↦ true | false ↦ leb bits elapsed ]
elapsed_at_least unit (negsuc count) elapsed =
    let bits = (2 ^ 64 - (count + 1) * unit % 2 ^ 64) % 2 ^ 64 in
    elim (leb (2 ^ 63) bits) [ true ↦ true | false ↦ leb bits elapsed ]

abbrev pub nanoseconds_per_second : ℕ
nanoseconds_per_second = 1000000000

abbrev pub nanoseconds_per_millisecond : ℕ
nanoseconds_per_millisecond = 1000000

unfoldable pub task_not_found_error : Bytes → Error
task_not_found_error task_id =
    make_task_error ErrorCode.invalid_request (text "task not found") task_id
