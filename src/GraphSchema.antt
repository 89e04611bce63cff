-- ===== src/GraphSchema.antt =====
-- `GraphDefSchema` of src/schemas.ts: the numeric limits of a graph and the semantic checks of its
-- `superRefine`, each issue a value. `serialized_bytes` stands for the length of JSON.stringify.
pub mod Inputs
pub mod Refine
pub mod Sound
pub mod References
