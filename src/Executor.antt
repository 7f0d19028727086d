-- ===== src/Executor.antt =====
-- internal/worker/executor: how a worker produces the load of a run.
pub mod Ramp
pub mod Limits
pub mod Pool
pub mod Arrival
pub mod Barrier
pub mod Thinking
pub mod Iterating
