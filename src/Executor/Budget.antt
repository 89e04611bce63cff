-- ===== src/Executor/Budget.antt =====
-- The attempt budgets of `executeRun`: what each step of an execution does to them.
mod Ledger
mod Reserving
mod Skipping
mod Settling
mod Routing
pub mod Resuming
pub mod Execution
unfoldable pub use Ledger.*
