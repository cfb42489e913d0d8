-- ===== src/Proc/Step.antt =====
-- The life of the process table: `userinit`, the locked sections of proc.c and the clock
-- interrupt as the steps of a relation, and the tables that they reach from boot.
use test_ascii.Common.{ℕ, ◌+◌, ◌^◌, ◌<◌, ◌≡◌, ◌≢◌, Option, none, some, [], ◌∷◌}
use test_ascii.Common.Arrays.{update}
use test_ascii.Proc.Types.{Table, TrapFrame, object, embryo, runnable, running, boot}
use test_ascii.Proc.Sched.{schedule, yield}
use test_ascii.Proc.Signals.{wakeup1, sleep, sleep_end, kill, setpriority, clock_tick}
use test_ascii.Proc.Life.{
  claim, find_unused, set_state_unused, set_kstack, set_copy, set_runnable, unclaim, exit_locked,
  retire, reaped, asleep, wait_pass,
}

-- mmu.h: the selectors and flags of the first process.
abbrev user_frame : TrapFrame
user_frame = record {
  eax = 0;
  eip = 0;
  esp = 4096;
  eflags = 0x200;
  cs = 0x1b;
  ds = 0x23;
  es = 0x23;
  ss = 0x23;
}

-- The slot that `userinit` makes, with the page table of `setupkvm` and the inode of "/".
unfoldable pub set_init : ℕ → ℕ → ℕ → Table → Table
set_init i pgdir root t = record t {
  procs = update t.procs i (record (t.procs i) {
    pgdir = some pgdir;
    sz = 4096;
    tf = user_frame;
    name = b'i' ∷ b'n' ∷ b'i' ∷ b't' ∷ b'c' ∷ b'o' ∷ b'd' ∷ b'e' ∷ [];
    cwd = some root;
    state = runnable;
  });
  initproc = some i;
}

-- A process that acts is the one that its processor runs.
pub record Acts (t : Table) (cpu c : ℕ) : Type 0 where
  pub on_cpu : t.running_on cpu ≡ some c
  pub is_running : (t.procs c).state ≡ running

-- The locked sections but for `allocproc`'s, which takes a pid.
pub data Step : Table → Table → Type 0 where
  init_made :
      (t : Table) (i pgdir root : ℕ)
      → (t.procs i).state ≡ embryo
      → (t.procs i).parent ≡ none
      → t.initproc ≡ none
      → Step t (set_init i pgdir root t)
  no_stack :
      (t : Table) (i : ℕ)
      → (t.procs i).state ≡ embryo
      → (t.procs i).parent ≡ none
      → Step t (set_state_unused i t)
  stack_set : (t : Table) (i page : ℕ) → (t.procs i).state ≡ embryo → Step t (set_kstack i page t)
  fork_failed :
      (t : Table) (i : ℕ)
      → (t.procs i).state ≡ embryo
      → (t.procs i).parent ≡ none
      → Step t (unclaim i t)
  copied :
      (t : Table) (cpu c n : ℕ) (pgdir : Option ℕ)
      → Acts t cpu c
      → (t.procs n).state ≡ embryo
      → Step t (set_copy c n pgdir t)
  forked : (t : Table) (n : ℕ) → (t.procs n).state ≡ embryo → Step t (set_runnable n t)
  retired : (t : Table) (cpu c : ℕ) → Acts t cpu c → Step t (retire c t)
  exited :
      (t : Table) (cpu c : ℕ) → Acts t cpu c → t.initproc ≢ some c → Step t (exit_locked cpu c t)
  child_reaped :
      (t t' : Table) (cpu c j pid : ℕ)
      → Acts t cpu c
      → wait_pass cpu c t ≡ reaped j pid t'
      → Step t t'
  wait_slept : (t t' : Table) (cpu c : ℕ) → Acts t cpu c → wait_pass cpu c t ≡ asleep t' → Step t t'
  slept : (t : Table) (cpu c n : ℕ) → Acts t cpu c → Step t (sleep cpu c (object n) t)
  sleep_ended : (t : Table) (cpu c : ℕ) → Acts t cpu c → Step t (sleep_end c t)
  woken : (t : Table) (n : ℕ) → Step t (wakeup1 (object n) t)
  killed : (t : Table) (pid : ℕ) → Step t (kill pid t).1
  prioritised :
      (t : Table) (pid priority : ℕ) → priority < 2 ^ 32 → Step t (setpriority pid priority t).1
  yielded : (t : Table) (cpu c : ℕ) → Acts t cpu c → Step t (yield cpu c t)
  scheduled : (t : Table) (cpu : ℕ) → t.running_on cpu ≡ none → Step t (schedule cpu t)
  ticked : (t : Table) → Step t (clock_tick t)

-- What boot, `allocproc` and any interleaving of these sections can lead to, while the counter of
-- pids stays below the greatest `int`: pids beyond that, where `nextpid++` overflows, are left out.
pub data Reach : Table → Type 0 where
  booted : Reach boot
  claimed :
      {t : Table}
      → Reach t
      → (i : ℕ) → find_unused t ≡ some i
      → t.nextpid + 1 < 2 ^ 31
      → Reach (claim i t)
  later : {t u : Table} → Reach t → Step t u → Reach u
