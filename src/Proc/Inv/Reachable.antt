-- ===== src/Proc/Inv/Reachable.antt =====
-- The invariant holds of every table that boot leads to.
use test_ascii.Common.{arith}
use test_ascii.Proc.Types.{Table, boot, object}
use test_ascii.Proc.Step.{
  Step, init_made, claimed, no_stack, stack_set, fork_failed, copied, forked, retired, exited,
  child_reaped, wait_slept, slept, sleep_ended, woken, killed, prioritised, yielded, scheduled,
  ticked, Reach, booted, later,
}
use test_ascii.Proc.Inv.{Inv}
use test_ascii.Proc.Inv.Local.{
  set_state_unused-Inv, unclaim-Inv, set_kstack-Inv, set_runnable-Inv, retire-Inv, sleep_end-Inv,
}
use test_ascii.Proc.Inv.Wakes.{wakeup1-Inv, kill-Inv, setpriority-Inv, clock_tick-Inv}
use test_ascii.Proc.Inv.Switch.{yield-Inv, sleep-Inv, schedule-Inv}
use test_ascii.Proc.Inv.Make.{
  claim-Inv, set_init-Inv, set_copy-Inv, child_reaped-Inv, wait_slept-Inv,
}
use test_ascii.Proc.Inv.Exit.{exit_locked-Inv}

pub Step-Inv : {t u : Table} → Step t u → Inv t → Inv u
Step-Inv (init_made t i pgdir root e p q) inv = set_init-Inv inv i pgdir root e p q
Step-Inv (no_stack t i e p) inv = set_state_unused-Inv inv i e p
Step-Inv (stack_set t i page e) inv = set_kstack-Inv inv i page
Step-Inv (fork_failed t i e p) inv = unclaim-Inv inv i e p
Step-Inv (copied t cpu c n pgdir a e) inv = set_copy-Inv inv n pgdir a e
Step-Inv (forked t n e) inv = set_runnable-Inv inv n e
Step-Inv (retired t cpu c a) inv = retire-Inv inv c
Step-Inv (exited t cpu c a ni) inv = exit_locked-Inv inv a (ground arith)
Step-Inv (child_reaped t t' cpu c j pid a e) inv = child_reaped-Inv inv cpu c j pid t' e
Step-Inv (wait_slept t t' cpu c a e) inv = wait_slept-Inv inv t' a e
Step-Inv (slept t cpu c n a) inv = sleep-Inv inv n a
Step-Inv (sleep_ended t cpu c a) inv = sleep_end-Inv inv c
Step-Inv (woken t n) inv = wakeup1-Inv inv (object n)
Step-Inv (killed t pid) inv = kill-Inv inv pid
Step-Inv (prioritised t pid priority h) inv = setpriority-Inv inv pid priority h
Step-Inv (yielded t cpu c a) inv = yield-Inv inv a
Step-Inv (scheduled t cpu free) inv = schedule-Inv cpu inv free
Step-Inv (ticked t) inv = clock_tick-Inv inv

boot-Inv : Inv boot
boot-Inv = record {
  nextpid_pos = omega arith;
  nextpid_small = omega arith;
  slots = λ i. ground arith;
  pairs = λ i j. ground arith;
  cpus = λ k l. record { runs = λ c h. absurd (cc); one_cpu = λ c h h'. absurd (cc) };
}

pub Reach-Inv : {t : Table} → Reach t → Inv t
Reach-Inv booted = boot-Inv
Reach-Inv (claimed r i e h) = claim-Inv (Reach-Inv r) i e h
Reach-Inv (later r s) = Step-Inv s (Reach-Inv r)
