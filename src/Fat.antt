-- ===== src/Fat.antt =====
-- The PennFAT file system, src/pennfat: its modules.
pub mod State
pub mod Config
pub mod Chain
pub mod Disk
pub mod Dir
pub mod FdTable
pub mod Open
pub mod Seek
pub mod Read
pub mod Write
pub mod Edit
pub mod Names
pub mod Mount
