-- ===== src/Scheduler.antt =====
-- Kernel/processes/scheduler.c and process.c.
pub mod Peers
pub mod Table
pub mod Dispatch
pub mod Lifecycle
pub mod Exit
pub mod NextPid
pub mod Wf
pub mod Info
