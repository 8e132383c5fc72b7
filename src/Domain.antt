-- ===== src/Domain.antt =====
-- src/ascend_kernel_lab/domain: enumerations, life cycles, floats and scores.
pub mod Enums
pub mod StateMachine
pub mod Float
pub mod Scoring
