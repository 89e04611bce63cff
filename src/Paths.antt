-- ===== src/Paths.antt =====
-- src/paths.ts: safe identifiers.
pub mod SafeId
