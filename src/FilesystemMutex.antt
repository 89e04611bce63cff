-- ===== src/FilesystemMutex.antt =====
-- src/filesystem-mutex.ts: the lease file, the short claim beside it, and takeover of stale files.
pub mod Files
pub mod Acquire
pub mod Holder
pub mod Closed
pub mod Held
pub mod Renewed
pub mod Waiting
pub mod Patience
