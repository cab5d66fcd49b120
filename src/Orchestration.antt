-- ===== src/Orchestration.antt =====
-- src/modules/orchestration: the retention of data, and the scheduler's ticks.
pub mod Retention
pub mod Batches
pub mod Draining
pub mod Tick
mod Examples
