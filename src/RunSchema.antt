-- ===== src/RunSchema.antt =====
-- src/schemas.ts: the rules of `RunStateCoreSchema.superRefine` on a run's nodes and attempts, which
-- the store applies whenever it reads or writes a run.
mod State
mod Rules
pub mod Counts
pub mod Closing
pub mod Verdict
unfoldable pub use State.*
unfoldable pub use Rules.*
