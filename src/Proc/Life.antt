-- ===== src/Proc/Life.antt =====
-- proc.c: `allocproc`, `fork`, `exit` and `wait`, over what they ask of the other parts.
use test_ascii.Common.{
  ℕ, zero, suc, ◌+◌, Bool, true, false, not, ◌&&◌, ◌||◌, Option, none, some, [], ltb, ◌==◌, u32,
  if◌then◌else◌, sub32, points_to, take, Outcome,
}
use test_ascii.Common.Arrays.{update, find_from}
use test_ascii.Proc.Types.{
  Proc, Table, Chan, null, slot, embryo, runnable, zombie, unused, is_unused, is_zombie, nproc,
  nofile, default_priority,
}
use test_ascii.Proc.Sched.{switch_back}
use test_ascii.Proc.Signals.{wakeup1, sleep}

-- What proc.c calls in kalloc.c, vm.c, file.c, fs.c and log.c, over the state of those parts.
pub record Services : Type 1 where
  pub Sys : Type 0
  pub kalloc : Sys → Option ℕ × Sys
  pub kfree : Option ℕ → Sys → Outcome Sys
  pub copyuvm : Option ℕ → ℕ → Sys → Outcome (Option ℕ × Sys)
  pub freevm : Option ℕ → Sys → Outcome Sys
  pub filedup : ℕ → Sys → Outcome Sys
  pub fileclose : ℕ → Sys → Outcome Sys
  pub idup : Option ℕ → Sys → Outcome Sys
  -- `begin_op(); iput(ip); end_op()`
  pub put_cwd : Option ℕ → Sys → Outcome Sys

-- The locked section of `allocproc`, for the slot that its loop has found.
unfoldable pub claim : ℕ → Table → Table
claim i t = record t {
  procs = update t.procs i (record (t.procs i) {
    state = embryo;
    pid = t.nextpid;
    priority = default_priority;
    wait_time = 0;
    run_time = 0;
    turnaround_time = 0;
    creation_time = t.ticks;
    last_scheduled = t.ticks;
  });
  nextpid = u32 (t.nextpid + 1);
}

unfoldable pub find_unused : Table → Option ℕ
unfolding find_from
find_unused t = find_from (λ i. is_unused (t.procs i).state) nproc 0

unfoldable pub set_state_unused : ℕ → Table → Table
set_state_unused i t = record t {
  procs = update t.procs i (record (t.procs i) { kstack = none; state = unused });
}

unfoldable pub set_kstack : ℕ → ℕ → Table → Table
set_kstack i page t = record t {
  procs = update t.procs i (record (t.procs i) { kstack = some page });
}

-- What `fork` writes into the child's slot before it makes it runnable. A null entry of the
-- parent's `ofile` leaves the child's.
unfoldable pub copy_proc : Proc → ℕ → Option ℕ → Proc → Proc
copy_proc cur c pgdir np = record np {
  pgdir = pgdir;
  sz = cur.sz;
  parent = some c;
  tf = record (cur.tf) { eax = 0 };
  ofile = λ fd.
      if ltb fd nofile
      then elim (cur.ofile fd) [ none ↦ np.ofile fd | some f ↦ some f ]
      else np.ofile fd;
  cwd = cur.cwd;
  name = take 15 cur.name;
  priority = cur.priority;
}

unfoldable pub set_copy : ℕ → ℕ → Option ℕ → Table → Table
unfolding copy_proc
set_copy c n pgdir t = record t {
  procs = update t.procs n (copy_proc (t.procs c) c pgdir (t.procs n));
}

unfoldable pub set_runnable : ℕ → Table → Table
set_runnable n t = record t { procs = update t.procs n (record (t.procs n) { state = runnable }) }

-- The failing path of `fork` once `copyuvm` has returned null and the stack is freed.
unfoldable pub unclaim : ℕ → Table → Table
unclaim n t = record t {
  procs = update t.procs n (record (t.procs n) { kstack = none; state = unused });
}

-- `exit`: the address of a slot, or null, as a channel.
abbrev pub chan_of : Option ℕ → Chan
chan_of none = null
chan_of (some i) = slot i

unfoldable pub give_to_init : ℕ → Table → Table
give_to_init i t = record t {
  procs = update t.procs i (record (t.procs i) { parent = t.initproc });
}

-- The body of the loop that passes abandoned children to init.
unfoldable pub reparent : ℕ → ℕ → Table → Table
unfolding wakeup1 give_to_init
reparent c i t =
    if points_to (t.procs i).parent c
    then (if is_zombie (t.procs i).state
        then wakeup1 (chan_of t.initproc) (give_to_init i t)
        else give_to_init i t)
    else t

-- The loop itself: `n` slots from `i` on.
unfoldable pub reparent_from : ℕ → ℕ → ℕ → Table → Table
unfolding reparent
reparent_from c zero i t = t
reparent_from c (suc n) i t = reparent_from c n (i + 1) (reparent c i t)

unfoldable pub set_zombie : ℕ → Table → Table
set_zombie c t = record t { procs = update t.procs c (record (t.procs c) { state = zombie }) }

-- The locked section of `exit`, up to the scheduler's next round.
unfoldable pub exit_locked : ℕ → ℕ → Table → Table
exit_locked cpu c t =
    switch_back cpu c
      (set_zombie c (reparent_from c nproc 0 (wakeup1 (chan_of (t.procs c).parent) t)))

-- What `exit` writes to its own slot before that: the turnaround time, no files, no directory.
unfoldable pub retire : ℕ → Table → Table
retire c t = record t {
  procs = update t.procs c (record (t.procs c) {
    turnaround_time = sub32 t.ticks (t.procs c).creation_time;
    ofile = λ fd. if ltb fd nofile then none else (t.procs c).ofile fd;
    cwd = none;
  });
}

-- The scan of `wait`: the first zombie child, and whether a child was seen.
unfoldable pub scan_children : (ℕ → Proc) → ℕ → ℕ → ℕ → Bool → Option ℕ × Bool
scan_children procs c zero i kids = (none, kids)
scan_children procs c (suc n) i kids =
    let mine = points_to (procs i).parent c in
    let rest = scan_children procs c n (i + 1) (kids || mine) in
    if mine && is_zombie (procs i).state then (some i, true) else rest

-- What `wait` writes to the slot that it reaps.
unfoldable pub reap : ℕ → Table → Table
reap j t = record t {
  procs = update t.procs j (record (t.procs j) {
    kstack = none;
    pid = 0;
    parent = none;
    name = [];
    killed = 0;
    state = unused;
  });
}

-- One pass of `wait`: it returns a reaped slot's pid, or -1, or it sleeps and will pass again.
pub data WaitPass : Type 0 where
  reaped : ℕ → ℕ → Table → WaitPass
  no_children : WaitPass
  asleep : Table → WaitPass

unfoldable pub wait_result : ℕ → ℕ → Option ℕ × Bool → Table → WaitPass
unfolding reap sleep
wait_result cpu c (some j, kids) t = reaped j (t.procs j).pid (reap j t)
wait_result cpu c (none, kids) t =
    if not kids || not ((t.procs c).killed == 0)
    then no_children
    else asleep (sleep cpu c (slot c) t)

unfoldable pub wait_pass : ℕ → ℕ → Table → WaitPass
unfolding wait_result scan_children
wait_pass cpu c t = wait_result cpu c (scan_children t.procs c nproc 0 false) t
