-- ===== src/Rthsm.antt =====
-- The hierarchical state machine engine, src/rthsm.
pub mod Types
pub mod Tree
pub mod Setup
pub mod Engine
pub mod Step
pub mod Run
mod Tests
