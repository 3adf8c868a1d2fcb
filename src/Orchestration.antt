-- ===== src/Orchestration.antt =====
-- The deterministic control plane of src/orchestration.
pub mod RunStateMachine
pub mod Planner
pub mod DagCompiler
pub mod TurnBudget
pub mod Skeptic
pub mod Skills
pub mod Crucible
pub mod RunControl
