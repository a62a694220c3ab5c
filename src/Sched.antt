-- ===== src/Sched.antt =====
-- The scheduler and the processes of PennOS, src/scheduler: its modules.
pub mod State
pub mod Queue
pub mod Select
pub mod Move
pub mod Exit
pub mod Wait
pub mod Create
pub mod Sys
pub mod Spawn
pub mod Own
