-- ===== src/Core.antt =====
-- sdk/core: the executor that runs background work.
pub mod Executor
