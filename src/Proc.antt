-- ===== src/Proc.antt =====
-- proc.c and proc.h: the process table, its scheduler and the calls that change it.
-- The table is an array of `nproc` slots; each locked section of proc.c is one function on it.
pub mod Types
pub mod Sched
pub mod Signals
pub mod Life
pub mod Calls
pub mod Step
pub mod Inv
pub mod Pick
pub mod Safety
pub mod Effects
pub mod Lifecycle
pub mod Adoption
pub mod Waiting
pub mod Pids
mod Tests
