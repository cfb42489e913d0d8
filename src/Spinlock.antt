-- ===== src/Spinlock.antt =====
-- spinlock.c: `pushcli` and `popcli`, which turn the interrupts of a processor off and on.
pub mod Nesting
mod Tests
use test_ascii.Common.{
  ℕ, ◌+◌, Bool, true, false, ◌&&◌, ◌==◌, if◌then◌else◌, u32, sub32, slt, Outcome, done, panic,
}

-- `ncli` and `intena` of `struct cpu`, and the interrupt flag of its `eflags`.
pub record Cpu : Type 0 where
  pub ncli : ℕ
  pub intena : Bool
  pub enabled : Bool

unfoldable pub pushcli : Cpu → Cpu
pushcli c = record {
  ncli = u32 (c.ncli + 1);
  intena = if c.ncli == 0 then c.enabled else c.intena;
  enabled = false;
}

unfoldable pub popcli : Cpu → Outcome Cpu
popcli c =
    let n = sub32 c.ncli 1 in
    if c.enabled
    then panic
    else if slt n 0
    then panic
    else done (record c { ncli = n; enabled = n == 0 && c.intena })
