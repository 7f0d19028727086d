-- ===== src/Coordinator.antt =====
-- internal/coordinator/service.go and runner.go: the coordinator's admission, dispatch and life
-- cycle of runs.
pub mod State
pub mod Dispatch
pub mod Lifecycle
pub mod Watchdog
pub mod Streams
pub mod Queries
pub mod Slots
mod Cases
pub mod Accounting
pub mod Reaping
pub mod Events
pub mod Rehydration
pub mod Queueing
pub mod Ending
pub mod Verdicts
mod Aborting
pub mod Orphans
