-- ===== src/Scheduler.antt =====
-- The package `scheduler`: schedules and jobs, the worker, and the Firestore store of jobs.
pub mod Daily
pub mod Job
pub mod Worker
pub mod Tick
pub mod Store
pub mod Schedule
