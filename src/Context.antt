-- ===== src/Context.antt =====
-- src/context-budget.ts: how much may be added to a model call, planned from the model's window.
pub mod Plan
pub mod Bounds
pub mod Spending
pub mod Usage
pub mod Windows
