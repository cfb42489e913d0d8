-- ===== src/Proc/Signals.antt =====
-- proc.c: `sleep`, `wakeup1`, `kill`, `setpriority`, `getstats`; trap.c: the clock tick.
use test_ascii.Common.{
  ℕ, ◌+◌, Bool, true, false, Option, none, some, ltb, ◌==◌, if◌then◌else◌, u32, sub32, slt,
  minus_one, ◌&&◌, ◌||◌,
}
use test_ascii.Common.Arrays.{update, find_from}
use test_ascii.Proc.Types.{
  Proc, Table, Chan, null, slot, object, runnable, sleeping, is_running, is_sleeping, is_zombie,
  is_unused, nproc, min_priority, max_priority,
}
use test_ascii.Proc.Sched.{switch_back}

abbrev pub same_chan : Chan → Chan → Bool
same_chan null null = true
same_chan (slot i) (slot j) = i == j
same_chan (object i) (object j) = i == j
same_chan _ _ = false

-- The body of the loop of `wakeup1`.
unfoldable pub wake : Chan → Proc → Proc
wake chan p =
    if is_sleeping p.state && same_chan p.chan chan then record p { state = runnable } else p

-- `wakeup1` (and `wakeup`, which takes the lock around it): each slot by itself.
unfoldable pub wakeup1 : Chan → Table → Table
unfolding wake
wakeup1 chan t = record t { procs = λ i. if ltb i nproc then wake chan (t.procs i) else t.procs i }

-- `sleep` by the process of slot `c` on processor `cpu`, up to `sched` and back to the scheduler.
unfoldable pub sleep : ℕ → ℕ → Chan → Table → Table
unfolding switch_back
sleep cpu c chan t =
    switch_back cpu c
      (record t { procs = update t.procs c (record (t.procs c) { chan = chan; state = sleeping }) })

-- The tidying up of `sleep`, once the process runs again.
unfoldable pub sleep_end : ℕ → Table → Table
sleep_end c t = record t { procs = update t.procs c (record (t.procs c) { chan = null }) }

-- The first slot with this pid.
unfoldable pub find_pid : ℕ → Table → Option ℕ
unfolding find_from
find_pid pid t = find_from (λ i. (t.procs i).pid == pid) nproc 0

-- What `kill` does to the slot that it finds.
unfoldable pub kill_slot : Proc → Proc
kill_slot p =
    if is_sleeping p.state
    then record p { killed = 1; state = runnable }
    else record p { killed = 1 }

unfoldable pub kill_found : Option ℕ → Table → ℕ × Table
unfolding kill_slot
kill_found none t = (minus_one, t)
kill_found (some i) t = (0, record t { procs = update t.procs i (kill_slot (t.procs i)) })

unfoldable pub kill : ℕ → Table → ℕ × Table
unfolding kill_found find_pid
kill pid t = kill_found (find_pid pid t) t

unfoldable pub setpriority_found : Option ℕ → ℕ → Table → ℕ × Table
setpriority_found none priority t = (minus_one, t)
setpriority_found (some i) priority t =
    (0, record t { procs = update t.procs i (record (t.procs i) { priority = priority }) })

unfoldable pub setpriority : ℕ → ℕ → Table → ℕ × Table
unfolding setpriority_found find_pid
setpriority pid priority t =
    if slt priority min_priority || slt max_priority priority
    then (minus_one, t)
    else setpriority_found (find_pid pid t) priority t

-- pstat.h
pub record Pstat : Type 0 where
  pub pid : ℕ
  pub priority : ℕ
  pub wait_time : ℕ
  pub run_time : ℕ
  pub turnaround_time : ℕ

unfoldable pub stats_of : ℕ → Proc → Pstat
stats_of ticks p = record {
  pid = p.pid;
  priority = p.priority;
  wait_time = p.wait_time;
  run_time = p.run_time;
  turnaround_time =
      if is_zombie p.state || is_unused p.state
      then p.turnaround_time
      else sub32 ticks p.creation_time;
}

-- `getstats` up to `copyout`, which the caller passes: whether the write to user memory succeeds.
unfoldable pub getstats_found : Option ℕ → (Pstat → Bool) → Table → ℕ × Option Pstat
unfolding stats_of
getstats_found none copyout t = (minus_one, none)
getstats_found (some i) copyout t =
    let st = stats_of t.ticks (t.procs i) in if copyout st then (0, some st) else (minus_one, none)

unfoldable pub getstats : ℕ → (Pstat → Bool) → Table → ℕ × Option Pstat
unfolding getstats_found find_pid
getstats pid copyout t = getstats_found (find_pid pid t) copyout t

-- The process that the clock interrupt finds on processor 0 is charged a tick.
unfoldable pub tick_running : Option ℕ → Table → Table
tick_running none t = t
tick_running (some c) t =
    if is_running (t.procs c).state
    then record t {
      procs = update t.procs c (record (t.procs c) { run_time = u32 ((t.procs c).run_time + 1) });
    }
    else t

-- The address of the global `ticks`, on which `sys_sleep` sleeps.
abbrev pub ticks_chan : Chan
ticks_chan = object 0

-- The clock interrupt on processor 0: `ticks++`, `wakeup(&ticks)`, one tick of run time.
unfoldable pub clock_tick : Table → Table
unfolding wakeup1 tick_running
clock_tick t =
    tick_running (t.running_on 0) (wakeup1 ticks_chan (record t { ticks = u32 (t.ticks + 1) }))
