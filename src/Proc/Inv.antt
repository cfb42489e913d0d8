-- ===== src/Proc/Inv.antt =====
-- What holds of the process table between two locked sections.
pub mod Local
pub mod Wakes
pub mod Switch
pub mod Make
pub mod Exit
pub mod Reachable
use test_ascii.Common.{
  ◌≤◌, ◌<◌, ◌^◌, ◌≡◌, ◌≢◌, ◌⊎◌, Bool, true, false, none, some, ◌&&◌, points_to, ℕ, Option, arith,
}
use test_ascii.Common.Arrays.{update}
use test_ascii.Proc.Types.{
  Proc, ProcState, unused, embryo, sleeping, runnable, running, zombie, Table, slot, is_zombie,
  is_sleeping, max_priority, nproc,
}
use test_ascii.Proc.Signals.{same_chan}

-- A process that was made runnable and has not exited.
abbrev pub is_live : ProcState → Bool
is_live unused = false
is_live embryo = false
is_live sleeping = true
is_live runnable = true
is_live running = true
is_live zombie = false

-- Process `j` sleeps in `wait`.
abbrev pub in_wait : Table → ℕ → Bool
in_wait t j = is_sleeping (t.procs j).state && same_chan (t.procs j).chan (slot j)

-- What holds of slot `i`.
pub record SlotInv (t : Table) (i : ℕ) : Type 0 where
  pub priority_range : (t.procs i).priority ≤ max_priority
  pub pid_below : (t.procs i).pid < t.nextpid
  pub outside : nproc ≤ i → (t.procs i).state ≡ unused
  pub unused_root : (t.procs i).state ≡ unused → (t.procs i).parent ≡ none
  pub pid_used : (t.procs i).pid ≡ 0 → (t.procs i).state ≡ unused
  pub not_own_parent : points_to (t.procs i).parent i ≡ false
  pub init_live : points_to t.initproc i ≡ true → is_live (t.procs i).state ≡ true
  pub init_root : points_to t.initproc i ≡ true → (t.procs i).parent ≡ none

-- What holds of slots `i` and `j`.
pub record PairInv (t : Table) (i j : ℕ) : Type 0 where
  -- No two slots share a pid, but for the pid 0 of slots that were never used or were reaped.
  pub pids_distinct : (t.procs i).pid ≡ (t.procs j).pid → ((t.procs i).pid ≡ 0) ⊎ (i ≡ j)
  -- A parent is live.
  pub parent_live : points_to (t.procs i).parent j ≡ true → is_live (t.procs j).state ≡ true
  -- No process sleeps in `wait` beside a zombie child.
  pub no_lost_wakeup :
      points_to (t.procs i).parent j ≡ true
      → in_wait t j ≡ true
      → is_zombie (t.procs i).state ≡ false

-- What holds of two processors.
pub record CpuInv (t : Table) (k l : ℕ) : Type 0 where
  pub runs : (c : ℕ) → t.running_on k ≡ some c → (t.procs c).state ≡ running
  pub one_cpu : (c : ℕ) → t.running_on k ≡ some c → t.running_on l ≡ some c → k ≡ l

pub record Inv (t : Table) : Type 0 where
  pub nextpid_pos : 0 < t.nextpid
  pub nextpid_small : t.nextpid < 2 ^ 31
  pub slots : (i : ℕ) → SlotInv t i
  pub pairs : (i j : ℕ) → PairInv t i j
  pub cpus : (k l : ℕ) → CpuInv t k l

-- A rewrite of slot `i` to `p` that the invariant on slots allows.
pub record Fits (t : Table) (i : ℕ) (p : Proc) : Type 0 where
  pub same_pid : p.pid ≡ (t.procs i).pid
  pub same_parent : p.parent ≡ (t.procs i).parent
  pub in_range : p.priority ≤ max_priority
  pub live_kept : is_live (t.procs i).state ≡ true → is_live p.state ≡ true
  pub zombie_kept : is_zombie p.state ≡ true → is_zombie (t.procs i).state ≡ true
  pub wait_kept : (is_sleeping p.state && same_chan p.chan (slot i)) ≡ true → in_wait t i ≡ true
  pub unused_kept : p.state ≡ unused → p.parent ≡ none
  pub unused_stays : (t.procs i).state ≡ unused → p.state ≡ unused
  pub outside_kept : nproc ≤ i → p.state ≡ unused

pub Fits-Inv :
    {t : Table} (f : ℕ → Proc) (on : ℕ → Option ℕ)
    → Inv t
    → ((i : ℕ) → Fits t i (f i))
    → ((k l : ℕ) → CpuInv (record t { procs = f; running_on = on }) k l)
    → Inv (record t { procs = f; running_on = on })
Fits-Inv {t} f on inv fits cpu = record {
  nextpid_pos = inv.nextpid_pos;
  nextpid_small = inv.nextpid_small;
  slots = λ i. ground (arith, inv.slots i, fits i);
  pairs = λ i j. ground (arith, inv.pairs i j, fits i, fits j);
  cpus = cpu;
}

-- The same, where no processor changes hands.
pub Fits-Inv_same :
    {t : Table} (f : ℕ → Proc)
    → Inv t
    → ((i : ℕ) → Fits t i (f i))
    → ((i : ℕ) → (t.procs i).state ≡ running → (f i).state ≡ running)
    → Inv (record t { procs = f })
Fits-Inv_same {t} f inv fits keeps = Fits-Inv f t.running_on inv fits λ k l. record {
  runs = λ c h. keeps c ((inv.cpus k l).runs c h);
  one_cpu = (inv.cpus k l).one_cpu;
}

-- The write of one slot.
pub Fits-Inv-update :
    {t : Table} (i : ℕ) (p : Proc)
    → Inv t
    → Fits t i p
    → ((t.procs i).state ≡ running → p.state ≡ running)
    → Inv (record t { procs = update t.procs i p })
Fits-Inv-update {t} i p inv fits keeps =
    Fits-Inv_same (update t.procs i p) inv (λ a. ground (arith, inv.slots a)) (λ a h. ground arith)
