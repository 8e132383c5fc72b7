-- ===== src/Controller.antt =====
-- src/ascend_kernel_lab/orchestration/controller.py: what the controller makes of an
-- evaluation.
pub mod Readings
pub mod Gates
pub mod Advance
mod Samples
