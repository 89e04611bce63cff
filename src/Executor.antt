-- ===== src/Executor.antt =====
-- src/executor.ts: waves of node attempts under bounded budgets, retries, checker feedback, resume
-- and close. Timestamps, log lines and the durable save between the steps are not part of the state.
pub mod Services
pub mod Reserve
pub mod Gate
pub mod Reply
pub mod Checks
pub mod Record
pub mod Feedback
pub mod Limits
pub mod Resume
pub mod Reopening
pub mod Reopened
pub mod Loop
pub mod Budget
pub mod Verdict
