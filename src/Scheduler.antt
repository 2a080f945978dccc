-- ===== src/Scheduler.antt =====
-- savvy_scheduler/libscheduler.c: the scheduler of jobs.
pub mod Comparers
pub mod Defs
pub mod Quantum
pub mod Runs
pub mod Averages
pub mod Selection
mod Examples
