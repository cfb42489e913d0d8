-- ===== src/Proc/Tests.antt =====
-- Concrete process tables of proc.c: boot, init running, its first child, and the calls on them.
use test_ascii.Common.{
  ℕ, ◌+◌, ◌≡◌, ◌≢◌, ◌≤◌, ◌⊎◌, ◌<◌, true, refl, some, arith, done, minus_one, u32, if◌then◌else◌,
}
use test_ascii.Common.Arrays.{update, find_from}
use test_ascii.Proc.Types.{Table, boot, running, runnable, zombie, unused, slot, is_sleeping, nproc}
use test_ascii.Proc.Sched.{
  schedule, yield, account, account_all, beats, pick, pick_from, run_chosen, switch_to, switch_back,
}
use test_ascii.Proc.Signals.{kill, setpriority, clock_tick, sleep}
use test_ascii.Proc.Life.{
  Services, claim, find_unused, set_kstack, set_copy, set_runnable, wait_pass, scan_children,
  wait_result, asleep, copy_proc, exit_locked, retire,
}
use test_ascii.Proc.Calls.{
  fork, fork_alloc, fork_copied, allocproc, alloc_found, alloc_stack, dup_files, close_files, exit,
  wait, wait_release,
}
use test_ascii.Proc.Step.{
  Reach, booted, later, claimed, stack_set, init_made, scheduled, copied, forked, wait_slept,
  set_init, Acts,
}
use test_ascii.Proc.Inv.{is_live}
use test_ascii.Proc.Safety.{no_lost_wakeup, parent_is_live, one_processor}
use test_ascii.Proc.Pick.{Chosen, schedule-Chosen}
use test_ascii.Proc.Effects.{
  IsFirst, kill_effect, setpriority_effect, tick_charged_twice, kill_zero,
}
use test_ascii.Proc.Lifecycle.{NotForked, Forked, fork_effect}
use test_ascii.Proc.Adoption.{Exited, exit_effect}
use test_ascii.Proc.Pids.{Run, at_boot, gave_pid, went_on, pids_unique}
use test_ascii.Proc.Waiting.{WaitSpec, wait_effect}

-- `userinit` on the table of boot.
abbrev with_init : Table
with_init = set_init 0 7 1 (set_kstack 0 5 (claim 0 boot))

-- Init runs on processor 0.
abbrev init_runs : Table
init_runs = schedule 0 with_init

Reach-with_init : Reach with_init
unfolding set_init set_kstack claim find_unused find_from
Reach-with_init =
    later (later (claimed booted 0 refl (omega arith)) (stack_set _ 0 5 refl))
      (init_made _ 0 7 1 refl refl refl)

Reach-init_runs : Reach init_runs
unfolding set_init set_kstack claim
Reach-init_runs = later Reach-with_init (scheduled _ 0 refl)

-- Init has forked a child, in slot 1.
abbrev with_child : Table
with_child = set_runnable 1 (set_copy 0 1 (some 9) (set_kstack 1 6 (claim 1 init_runs)))

init-Acts : Acts init_runs 0 0
unfolding set_init set_kstack claim schedule account account_all pick pick_from beats run_chosen
    switch_to
init-Acts = record { on_cpu = refl; is_running = refl }

child_set_up : Reach (set_kstack 1 6 (claim 1 init_runs))
unfolding set_init set_kstack claim schedule account account_all pick pick_from beats run_chosen
    switch_to find_unused find_from
child_set_up = later (claimed Reach-init_runs 1 refl (omega arith)) (stack_set _ 1 6 refl)

Reach-with_child : Reach with_child
unfolding set_init set_kstack claim schedule account account_all pick pick_from beats run_chosen
    switch_to set_copy copy_proc
Reach-with_child =
    later
      (later child_set_up
        (copied _ 0 0 1 (some 9) (record { on_cpu = refl; is_running = refl }) refl))
      (forked _ 1 refl)

-- Then it has gone to sleep in `wait`.
abbrev init_waits : Table
init_waits = sleep 0 0 (slot 0) with_child

child-Acts : Acts with_child 0 0
unfolding set_init set_kstack claim schedule account account_all pick pick_from beats run_chosen
    switch_to set_copy copy_proc set_runnable
child-Acts = record { on_cpu = refl; is_running = refl }

waits : wait_pass 0 0 with_child ≡ asleep init_waits
unfolding set_init set_kstack claim schedule account account_all pick pick_from beats run_chosen
    switch_to set_copy copy_proc set_runnable wait_pass wait_result scan_children
waits = refl

Reach-init_waits : Reach init_waits
Reach-init_waits = later Reach-with_child (wait_slept _ _ 0 0 child-Acts waits)

no_lost_wakeup_example : (init_waits.procs 1).state ≢ zombie
unfolding set_init set_kstack claim schedule account account_all pick pick_from beats run_chosen
    switch_to set_copy copy_proc set_runnable sleep switch_back
no_lost_wakeup_example = no_lost_wakeup Reach-init_waits 1 0 refl refl refl

parent_is_live_example : is_live (init_waits.procs 0).state ≡ true
unfolding set_init set_kstack claim schedule account account_all pick pick_from beats run_chosen
    switch_to set_copy copy_proc set_runnable sleep switch_back
parent_is_live_example = parent_is_live Reach-init_waits 1 0 refl

-- The same first steps, with the pids counted.
Run-with_init : Run 1 with_init
unfolding set_init set_kstack claim find_unused find_from
Run-with_init =
    went_on (went_on (gave_pid 0 at_boot refl) (stack_set _ 0 5 refl))
      (init_made _ 0 7 1 refl refl refl)

-- Init has pid 1 in slot 0; slots 3 and 4 are two free ones, which share the pid 0.
pids_unique_example :
    (◌≡◌ {A = ℕ} 3 4)
    ⊎ (((with_init.procs 3).pid ≡ 0)
        × ((with_init.procs 3).state ≡ unused)
        × ((with_init.procs 4).state ≡ unused))
unfolding set_init set_kstack claim
pids_unique_example = pids_unique Run-with_init (omega arith) 3 4 refl

one_processor_example : ((with_child.procs 0).state ≡ running) × (◌≡◌ {A = ℕ} 0 0)
unfolding set_init set_kstack claim schedule account account_all pick pick_from beats run_chosen
    switch_to set_copy copy_proc set_runnable
one_processor_example = one_processor Reach-with_child 0 0 0 refl refl

schedule-Chosen_example : Chosen with_init.procs nproc ((schedule 0 with_init).running_on 0)
unfolding set_init set_kstack claim
schedule-Chosen_example = schedule-Chosen with_init 0 refl

setpriority_effect_example :
    (31 < 40 × (setpriority 1 40 with_child ≡ (minus_one, with_child)))
    ⊎ (((j : ℕ) → j < nproc → (with_child.procs j).pid ≢ 1)
        × (setpriority 1 40 with_child ≡ (minus_one, with_child)))
    ⊎ ((40 ≤ 31)
        × ((i : ℕ) × IsFirst with_child 1 i
            × (setpriority 1 40 with_child ≡ (
              0,
              record with_child {
                procs = update with_child.procs i (record (with_child.procs i) { priority = 40 });
              },
            ))))
setpriority_effect_example = setpriority_effect with_child 1 40 (omega arith)

kill_effect_example :
    (((j : ℕ) → j < nproc → (init_waits.procs j).pid ≢ 1)
      × (kill 1 init_waits ≡ (minus_one, init_waits)))
    ⊎ ((i : ℕ) × IsFirst init_waits 1 i
        × (kill 1 init_waits ≡ (
          0,
          record init_waits {
            procs = update init_waits.procs i (record (init_waits.procs i) {
              killed = 1;
              state =
                  if is_sleeping (init_waits.procs i).state
                  then runnable
                  else (init_waits.procs i).state;
            });
          },
        )))
kill_effect_example = kill_effect init_waits 1

-- Init runs at tick 5, charged up to then.
abbrev at_five : Table
at_five = record init_runs {
  ticks = 5;
  procs = update init_runs.procs 0 (record (init_runs.procs 0) { last_scheduled = 5 });
}

tick_charged_twice_example :
    ((yield 0 0 (clock_tick at_five)).ticks ≡ 6)
    × (((yield 0 0 (clock_tick at_five)).procs 0).run_time ≡ u32 ((at_five.procs 0).run_time + 2))
unfolding set_init set_kstack claim schedule account account_all pick pick_from beats run_chosen
    switch_to
tick_charged_twice_example =
    tick_charged_twice at_five 0 refl refl refl (λ e. absurd (omega arith)) (omega arith)

kill_zero_example :
    ((kill 0 init_runs).0 ≡ 0)
    × (find_unused (kill 0 init_runs).1 ≡ some 1)
    × (((claim 1 (kill 0 init_runs).1).procs 1).killed ≡ 1)
unfolding set_init set_kstack claim schedule account account_all pick pick_from beats run_chosen
    switch_to find_unused find_from
kill_zero_example = kill_zero 1 Reach-init_runs refl refl

-- Other parts that hand out page numbers in turn and never panic.
abbrev services : Services
services = record {
  Sys = ℕ;
  kalloc = λ s. (some s, s + 1);
  kfree = λ page s. done s;
  copyuvm = λ pgdir sz s. done (some s, s + 1);
  freevm = λ pgdir s. done s;
  filedup = λ f s. done s;
  fileclose = λ f s. done s;
  idup = λ ip s. done s;
  put_cwd = λ ip s. done s;
}

abbrev child_runs : Table
child_runs = schedule 0 init_waits

fork_effect_example :
    ((2 ≡ minus_one)
      × NotForked init_runs
          (set_runnable 1 (set_copy 0 1 (some 7) (set_kstack 1 6 (claim 1 init_runs)))))
    ⊎ ((n : ℕ) × Forked init_runs
          (set_runnable 1 (set_copy 0 1 (some 7) (set_kstack 1 6 (claim 1 init_runs))))
          0
          n
          2)
unfolding set_init set_kstack claim schedule account account_all pick pick_from beats run_chosen
    switch_to set_copy copy_proc set_runnable fork fork_alloc fork_copied allocproc alloc_found
    alloc_stack find_unused find_from dup_files
fork_effect_example = fork_effect services 0 init_runs 6 refl refl

exit_effect_example :
    (child_runs.initproc ≢ some 1) × Exited child_runs (exit_locked 0 1 (retire 1 child_runs)) 0 1
unfolding set_init set_kstack claim schedule account account_all pick pick_from beats run_chosen
    switch_to set_copy copy_proc set_runnable sleep switch_back exit close_files
exit_effect_example = exit_effect services 0 1 child_runs 20 {s' = 20} refl

wait_effect_example : WaitSpec with_child 0 0 (asleep init_waits)
unfolding wait wait_release
wait_effect_example = wait_effect services 0 0 with_child 6 (asleep init_waits) 6 (rw waits refl)
