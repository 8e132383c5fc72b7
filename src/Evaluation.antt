-- ===== src/Evaluation.antt =====
-- src/ascend_kernel_lab/evaluation: the stages of the evaluation of one candidate.
pub mod Values
pub mod Stages
pub mod Attribution
pub mod Orchestrator
pub mod Pipeline
pub mod Gating
pub mod Consistency
pub mod Statuses
pub mod Failures
mod Samples
