-- ===== src/Storage.antt =====
-- src/ascend_kernel_lab/storage: the event log, the evaluation queue and the state store.
pub mod Events
pub mod Queue
pub mod Store
