-- ===== src/Replication.antt =====
-- src/environment-memory/replication.ts: a journal replicated to an object store, and its recovery.
pub mod Data
pub mod Chain
pub mod Parsing
pub mod Remote
pub mod Attempt
pub mod Backed
pub mod Sole
pub mod Sound
pub mod Published
pub mod Appended
pub mod Replicated
pub mod Recovered
pub mod Formed
pub mod RoundTrip
pub mod Recoverable
