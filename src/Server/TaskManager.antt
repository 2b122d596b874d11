-- ===== src/Server/TaskManager.antt =====
-- sdk/server/src/task_manager.cpp, `TaskOperationProcessor`: its state and its lock sections. Readings
-- of the clocks are arguments, in nanoseconds of the steady clock and as printed timestamps; the
-- steady clock does not run backwards. `Json` is the type of JSON values, which the processor only
-- stores. A `CancellationSource` is the flag that its tokens read.
pub mod State
pub mod Cursor
pub mod Trim
pub mod Operations
pub mod Methods
pub mod Keys
pub mod Trimmed
pub mod Retention
pub mod Invariant
pub mod Soundness
pub mod Final
pub mod Timeouts
pub mod LongTtl
pub mod Replies
pub mod Cancelling
pub mod Pages
pub mod Submission
mod Samples
mod Tests
mod SubmissionTests
