-- ===== src/Log/Atomic.antt =====
-- log.c: recovery, commit and crashes.
pub mod Recover
pub mod Commit
pub mod Crash
