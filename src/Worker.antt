-- ===== src/Worker.antt =====
-- src/ascend_kernel_lab/worker/service.py: one attempt of a worker at a job.
pub mod Health
pub mod Canonical
pub mod Service
pub mod Documents
pub mod Reports
mod Samples
