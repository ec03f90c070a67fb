-- ===== src/Scheduler.antt =====
-- backend/app/services/scheduler.py, by parts: the guarded statements, the retry policy, the
-- scheduling pass, the final aggregation and the job handlers.
pub mod Statements
pub mod Retry
pub mod Pass
pub mod Finalize
pub mod Handlers
