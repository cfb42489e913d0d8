-- ===== src/Proc/Safety.antt =====
-- What holds of every process table that boot leads to, whatever the interleaving.
use test_ascii.Common.{ℕ, ◌≡◌, ◌≢◌, ◌≤◌, some, none, true, arith}
use test_ascii.Proc.Types.{Table, sleeping, running, zombie, slot, max_priority}
use test_ascii.Proc.Inv.{is_live}
use test_ascii.Proc.Inv.Reachable.{Reach-Inv}
use test_ascii.Proc.Step.{Reach}

module _ {t : Table} (r : Reach t) where
  -- No wakeup is lost: no process sleeps in `wait`, on its own slot, while a child of it is a
  -- zombie.
  pub no_lost_wakeup :
      (i j : ℕ)
      → (t.procs i).parent ≡ some j
      → (t.procs j).state ≡ sleeping
      → (t.procs j).chan ≡ slot j
      → (t.procs i).state ≢ zombie
  no_lost_wakeup i j p s w z = absurd (ground (arith, (Reach-Inv r).pairs i j))

  -- No process is an orphan: a parent pointer names a process that is sleeping, runnable or
  -- running, never a free slot, one being made or a zombie.
  pub parent_is_live : (i j : ℕ) → (t.procs i).parent ≡ some j → is_live (t.procs j).state ≡ true
  parent_is_live i j p = ground (arith, (Reach-Inv r).pairs i j)

  -- A process that a processor has is in state RUNNING, and no other processor has it.
  pub one_processor :
      (k l c : ℕ)
      → t.running_on k ≡ some c
      → t.running_on l ≡ some c
      → ((t.procs c).state ≡ running) × (k ≡ l)
  one_processor k l c e f =
      (((Reach-Inv r).cpus k k).runs c e, ((Reach-Inv r).cpus k l).one_cpu c e f)

  -- Every priority is between 0 and 31; the first process never leaves the table, but is
  -- sleeping, runnable or running and has no parent, once it is made.
  pub init_and_priorities :
      (i j : ℕ)
      → t.initproc ≡ some i
      → ((t.procs j).priority ≤ max_priority)
        × (is_live (t.procs i).state ≡ true)
        × ((t.procs i).parent ≡ none)
  init_and_priorities i j e = (
    ((Reach-Inv r).slots j).priority_range,
    ground (arith, (Reach-Inv r).slots i),
    ground (arith, (Reach-Inv r).slots i),
  )
