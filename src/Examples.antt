-- ===== src/Examples.antt =====
-- Runs, graphs and processes on which the theorems of the development apply, and tests on them.
mod Samples
mod Graphs
mod Runs
mod Locks
mod Windows
mod Owners
mod Replicas
mod Waits
mod Dialogue
mod Choices
