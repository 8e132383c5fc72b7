-- ===== src/Storage/Queue.antt =====
-- src/ascend_kernel_lab/storage/job_queue.py: the evaluation queue with expiring leases.
pub mod Jobs
pub mod Enqueue
pub mod Claim
pub mod Finish
pub mod Invariant
pub mod Sweep
pub mod Calls
pub mod Changes
pub mod Steps
pub mod Admission
pub mod Safety
pub mod Statuses
pub mod Selection
pub mod Leases
pub mod Retries
pub mod Failing
pub mod Samples
