-- ===== src/Tests.antt =====
-- The properties at concrete inputs.
pub mod Disk
pub mod Files
pub mod Processes
pub mod Scheduling
pub mod Calls
pub mod Links
pub mod Shell
pub mod Jobs
pub mod Commands
