-- ===== src/Proc/Types.antt =====
-- proc.h and param.h: `struct proc`, `struct cpu`, and the table of proc.c.
use test_ascii.Common.{ℕ, Bool, true, false, Option, none, List, []}

-- param.h
abbrev pub nproc : ℕ
nproc = 64

abbrev pub nofile : ℕ
nofile = 16

abbrev pub default_priority : ℕ
default_priority = 16

abbrev pub min_priority : ℕ
min_priority = 0

abbrev pub max_priority : ℕ
max_priority = 31

-- `enum procstate`
pub data ProcState : Type 0 where
  unused embryo sleeping runnable running zombie : ProcState

abbrev pub is_unused : ProcState → Bool
is_unused unused = true
is_unused _ = false

abbrev pub is_sleeping : ProcState → Bool
is_sleeping sleeping = true
is_sleeping _ = false

abbrev pub is_runnable : ProcState → Bool
is_runnable runnable = true
is_runnable _ = false

abbrev pub is_running : ProcState → Bool
is_running running = true
is_running _ = false

abbrev pub is_zombie : ProcState → Bool
is_zombie zombie = true
is_zombie _ = false

-- `void *chan`, an address that is only compared: null, a slot of the table (`wait` sleeps on
-- its own), or any other kernel object.
pub data Chan : Type 0 where
  null : Chan
  slot : ℕ → Chan
  object : ℕ → Chan

-- The saved registers that proc.c reads or writes.
pub record TrapFrame : Type 0 where
  pub eax : ℕ
  pub eip : ℕ
  pub esp : ℕ
  pub eflags : ℕ
  pub cs : ℕ
  pub ds : ℕ
  pub es : ℕ
  pub ss : ℕ

-- `struct proc`. Pointers to other slots, pages, files and inodes are their numbers, `none` for
-- null; `int` and `uint` fields are 32-bit patterns.
pub record Proc : Type 0 where
  pub sz : ℕ
  pub pgdir : Option ℕ
  pub kstack : Option ℕ
  pub state : ProcState
  pub pid : ℕ
  pub parent : Option ℕ
  pub tf : TrapFrame
  pub chan : Chan
  pub killed : ℕ
  pub ofile : ℕ → Option ℕ
  pub cwd : Option ℕ
  pub name : List ℕ
  pub priority : ℕ
  pub wait_time : ℕ
  pub run_time : ℕ
  pub turnaround_time : ℕ
  pub creation_time : ℕ
  pub last_scheduled : ℕ

-- `ptable`, with the globals `nextpid`, `initproc` and `ticks`, and each processor's `c->proc`.
pub record Table : Type 0 where
  pub procs : ℕ → Proc
  pub nextpid : ℕ
  pub ticks : ℕ
  pub initproc : Option ℕ
  pub running_on : ℕ → Option ℕ

abbrev pub zero_frame : TrapFrame
zero_frame = record { eax = 0; eip = 0; esp = 0; eflags = 0; cs = 0; ds = 0; es = 0; ss = 0 }

-- A slot of the zeroed `.bss`.
abbrev pub empty_proc : Proc
empty_proc = record {
  sz = 0;
  pgdir = none;
  kstack = none;
  state = unused;
  pid = 0;
  parent = none;
  tf = zero_frame;
  chan = null;
  killed = 0;
  ofile = λ _. none;
  cwd = none;
  name = [];
  priority = 0;
  wait_time = 0;
  run_time = 0;
  turnaround_time = 0;
  creation_time = 0;
  last_scheduled = 0;
}

-- The table at boot.
abbrev pub boot : Table
boot = record {
  procs = λ _. empty_proc;
  nextpid = 1;
  ticks = 0;
  initproc = none;
  running_on = λ _. none;
}
