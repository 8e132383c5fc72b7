-- ===== src/Storage/Store.antt =====
-- src/ascend_kernel_lab/storage/state_store.py: experiments, tasks, rounds, candidates, artifacts.
pub mod Tables
pub mod Lifecycle
pub mod Rounds
pub mod Evidence
pub mod Scores
pub mod Calls
pub mod Swaps
pub mod Effects
pub mod Changes
pub mod ScoreChanges
pub mod Serving
pub mod Contiguity
pub mod Opening
pub mod Keeping
pub mod Numbering
pub mod Safety
pub mod Linking
pub mod References
pub mod Outcomes
pub mod Scored
pub mod Replays
mod Samples
