-- ===== src/Proc/Pids.antt =====
-- proc.c: the pids that `allocproc` has given, however often it was called.
use test_ascii.Common.{
  ℕ, zero, suc, ◌+◌, ◌^◌, ◌<◌, ◌≡◌, ◌⊎◌, inl, inr, refl, sym, ◌∙◌, ap, arith, Option, none, some,
  false, subst, if_lem, u32, slt, ◌||◌,
}
use native.Mathlib.Decide.{ℕ_discrete}
use test_ascii.Proc.Types.{Table, unused, boot, nproc, is_running, min_priority, max_priority}
use test_ascii.Proc.Sched.{schedule, yield, switch_back, account_all, pick, run_chosen}
use test_ascii.Proc.Signals.{
  wakeup1, sleep, sleep_end, kill, kill_found, find_pid, setpriority, setpriority_found, clock_tick,
  tick_running, ticks_chan,
}
use test_ascii.Proc.Life.{
  claim, find_unused, set_state_unused, set_kstack, set_copy, set_runnable, unclaim, exit_locked,
  retire, wait_pass, scan_children, give_to_init, reparent, reparent_from, set_zombie, chan_of,
}
use test_ascii.Proc.Waiting.{WaitSpec, wait_result-WaitSpec}
use test_ascii.Proc.Inv.Exit.{reparent_cases}
use test_ascii.Proc.Inv.Reachable.{Reach-Inv}
use test_ascii.Proc.Step.{
  Step, init_made, no_stack, stack_set, fork_failed, copied, forked, retired, exited, child_reaped,
  wait_slept, slept, sleep_ended, woken, killed, prioritised, yielded, scheduled, ticked, Reach,
  booted, claimed, later, set_init,
}

-- The tables that boot and any interleaving lead to when `allocproc` has given `n` pids, without a
-- bound on `n`.
pub data Run : ℕ → Table → Type 0 where
  at_boot : Run 0 boot
  gave_pid :
      {n : ℕ} {t : Table} (i : ℕ) → Run n t → find_unused t ≡ some i → Run (suc n) (claim i t)
  went_on : {n : ℕ} {t u : Table} → Run n t → Step t u → Run n u

nextpid-reparent_from : (c n i : ℕ) (t : Table) → (reparent_from c n i t).nextpid ≡ t.nextpid
unfolding reparent_from
nextpid-reparent_from c zero i t = refl
nextpid-reparent_from c (suc n) i t =
    nextpid-reparent_from c n (i + 1) (reparent c i t) ∙ nextpid-reparent i t
  where
    nextpid-reparent : (i : ℕ) (t : Table) → (reparent c i t).nextpid ≡ t.nextpid
    nextpid-reparent i t =
        reparent_cases c i t (λ u. u.nextpid ≡ t.nextpid) (λ e. refl)
          (λ e f. unfold give_to_init wakeup1 in refl) (λ e f. unfold give_to_init in refl)

nextpid-exit_locked : (cpu c : ℕ) (t : Table) → (exit_locked cpu c t).nextpid ≡ t.nextpid
unfolding exit_locked switch_back set_zombie
nextpid-exit_locked cpu c t =
    nextpid-reparent_from c nproc 0 (wakeup1 (chan_of (t.procs c).parent) t)
    ∙ (unfold wakeup1 in refl)

nextpid-kill_found : (o : Option ℕ) (t : Table) → (kill_found o t).1.nextpid ≡ t.nextpid
unfolding kill_found
nextpid-kill_found none t = refl
nextpid-kill_found (some i) t = refl

nextpid-setpriority_found :
    (o : Option ℕ) (priority : ℕ) (t : Table)
    → (setpriority_found o priority t).1.nextpid ≡ t.nextpid
unfolding setpriority_found
nextpid-setpriority_found none priority t = refl
nextpid-setpriority_found (some i) priority t = refl

nextpid-setpriority :
    (pid priority : ℕ) (t : Table) → (setpriority pid priority t).1.nextpid ≡ t.nextpid
unfolding setpriority
nextpid-setpriority pid priority t =
    if_lem (λ (r : ℕ × Table). r.1.nextpid ≡ t.nextpid)
      (slt priority min_priority || slt max_priority priority) (λ _. refl)
      (λ _. nextpid-setpriority_found (find_pid pid t) priority t)

nextpid-run_chosen : (cpu : ℕ) (o : Option ℕ) (t : Table) → (run_chosen cpu o t).nextpid ≡ t.nextpid
unfolding run_chosen
nextpid-run_chosen cpu none t = refl
nextpid-run_chosen cpu (some c) t = refl

nextpid-schedule : (cpu : ℕ) (t : Table) → (schedule cpu t).nextpid ≡ t.nextpid
unfolding schedule
nextpid-schedule cpu t =
    nextpid-run_chosen cpu (pick (account_all t)) (account_all t) ∙ (unfold account_all in refl)

nextpid-tick_running : (o : Option ℕ) (t : Table) → (tick_running o t).nextpid ≡ t.nextpid
unfolding tick_running
nextpid-tick_running none t = refl
nextpid-tick_running (some c) t =
    if_lem (λ (u : Table). u.nextpid ≡ t.nextpid) (is_running (t.procs c).state) (λ _. refl)
      (λ _. refl)

nextpid-clock_tick : (t : Table) → (clock_tick t).nextpid ≡ t.nextpid
unfolding clock_tick
nextpid-clock_tick t =
    nextpid-tick_running (t.running_on 0)
      (wakeup1 ticks_chan (record t { ticks = u32 (t.ticks + 1) }))
    ∙ (unfold wakeup1 in refl)

wait_pass-WaitSpec : (cpu c : ℕ) (t : Table) → WaitSpec t cpu c (wait_pass cpu c t)
unfolding wait_pass
wait_pass-WaitSpec cpu c t =
    wait_result-WaitSpec t cpu c (scan_children t.procs c nproc 0 false) refl

-- Only `allocproc` moves the next pid.
Step-nextpid : {t u : Table} → Step t u → u.nextpid ≡ t.nextpid
Step-nextpid (init_made t i pgdir root e p q) = unfold set_init in refl
Step-nextpid (no_stack t i e p) = unfold set_state_unused in refl
Step-nextpid (stack_set t i page e) = unfold set_kstack in refl
Step-nextpid (fork_failed t i e p) = unfold unclaim in refl
Step-nextpid (copied t cpu c n pgdir a e) = unfold set_copy in refl
Step-nextpid (forked t n e) = unfold set_runnable in refl
Step-nextpid (retired t cpu c a) = unfold retire in refl
Step-nextpid (exited t cpu c a ni) = nextpid-exit_locked cpu c t
Step-nextpid (child_reaped t t' cpu c j pid a e) =
    let (mine, dead, number, freed) = subst (WaitSpec t cpu c) e (wait_pass-WaitSpec cpu c t) in
    ap (λ (u : Table). u.nextpid) freed
Step-nextpid (wait_slept t t' cpu c a e) =
    let (alive, spared, child, fell) = subst (WaitSpec t cpu c) e (wait_pass-WaitSpec cpu c t) in
    fell.next_pid
Step-nextpid (slept t cpu c n a) = unfold sleep switch_back in refl
Step-nextpid (sleep_ended t cpu c a) = unfold sleep_end in refl
Step-nextpid (woken t n) = unfold wakeup1 in refl
Step-nextpid (killed t pid) = unfold kill in nextpid-kill_found (find_pid pid t) t
Step-nextpid (prioritised t pid priority h) = nextpid-setpriority pid priority t
Step-nextpid (yielded t cpu c a) = unfold yield switch_back in refl
Step-nextpid (scheduled t cpu free) = nextpid-schedule cpu t
Step-nextpid (ticked t) = nextpid-clock_tick t

nextpid-claim :
    (m i : ℕ) (t : Table) → t.nextpid ≡ m + 1 → suc m + 1 < 2 ^ 31 → (claim i t).nextpid ≡ suc m + 1
unfolding claim
nextpid-claim m i t e few = omega (arith, e, few)

-- As long as the counter has not passed the greatest `int`, it counts the pids given.
Run-nextpid : {n : ℕ} {t : Table} → Run n t → n + 1 < 2 ^ 31 → t.nextpid ≡ n + 1
Run-nextpid at_boot few = refl
Run-nextpid {n = suc m} (gave_pid {t = t} i r e) few =
    nextpid-claim m i t (Run-nextpid r (omega (arith, few))) few
Run-nextpid (went_on r step) few = Step-nextpid step ∙ Run-nextpid r few

pub Run-Reach : {n : ℕ} {t : Table} → Run n t → n + 1 < 2 ^ 31 → Reach t
Run-Reach at_boot few = booted
Run-Reach {n = suc m} (gave_pid {t = t} i r e) few =
    claimed (Run-Reach r (omega (arith, few))) i e
      (omega (arith, few, Run-nextpid r (omega (arith, few))))
Run-Reach (went_on r step) few = later (Run-Reach r few) step

-- While `allocproc` has given fewer than 2^31 - 1 pids since boot, so that the counter `nextpid` has
-- not passed the greatest `int`: two slots that hold the same pid are the same slot, or are both free
-- with pid 0.
pub pids_unique :
    {n : ℕ} {t : Table}
    → Run n t
    → n + 1 < 2 ^ 31
    → (i j : ℕ) → (t.procs i).pid ≡ (t.procs j).pid
    → (i ≡ j)
      ⊎ (((t.procs i).pid ≡ 0) × ((t.procs i).state ≡ unused) × ((t.procs j).state ≡ unused))
pids_unique {n} {t} run few i j same =
    let inv = Reach-Inv (Run-Reach run few) in
    elim (ℕ_discrete (t.procs i).pid 0) [
      | yes z ↦ inr (z, (inv.slots i).pid_used z, (inv.slots j).pid_used (sym same ∙ z))
      | no nz ↦ inl (ground (arith, inv.pairs i j))
    ]
