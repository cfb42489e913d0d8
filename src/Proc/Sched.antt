-- ===== src/Proc/Sched.antt =====
-- proc.c: `scheduler`, `sched` and `yield`; trap.c: the clock tick.
use test_ascii.Common.{
  ℕ, zero, suc, ◌+◌, Bool, true, Option, none, some, ltb, ◌==◌, if◌then◌else◌, u32, sub32, slt,
  ◌&&◌, not,
}
use test_ascii.Common.Arrays.{update}
use test_ascii.Proc.Types.{
  Proc, Table, runnable, running, is_running, is_runnable, is_unused, nproc,
}

-- The body of the scheduler's accounting loop, for one slot.
unfoldable pub account : ℕ → Proc → Proc
account ticks p =
    if not (is_unused p.state) && not (p.last_scheduled == 0)
    then (if is_running p.state
        then record p {
          run_time = u32 (p.run_time + sub32 ticks p.last_scheduled);
          last_scheduled = ticks;
        }
        else if is_runnable p.state
        then record p {
          wait_time = u32 (p.wait_time + sub32 ticks p.last_scheduled);
          last_scheduled = ticks;
        }
        else record p { last_scheduled = ticks })
    else p

-- The accounting loop: each slot by itself.
unfoldable pub account_all : Table → Table
account_all t = record t {
  procs = λ i. if ltb i nproc then account t.ticks (t.procs i) else t.procs i;
}

-- `chosen == 0 || p->priority < chosen->priority`
unfoldable pub beats : (ℕ → Proc) → ℕ → Option ℕ → Bool
beats procs i none = true
beats procs i (some c) = slt (procs i).priority (procs c).priority

-- The selection loop, from slot `i` on, with `n` slots left.
unfoldable pub pick_from : (ℕ → Proc) → ℕ → ℕ → Option ℕ → Option ℕ
unfolding beats
pick_from procs zero i chosen = chosen
pick_from procs (suc n) i chosen =
    pick_from procs n (i + 1)
      (if is_runnable (procs i).state && beats procs i chosen then some i else chosen)

unfoldable pub pick : Table → Option ℕ
unfolding pick_from
pick t = pick_from t.procs nproc 0 none

-- What the scheduler of processor `cpu` writes before it switches to the chosen slot.
unfoldable pub switch_to : ℕ → ℕ → Table → Table
switch_to cpu c t = record t {
  procs = update t.procs c (record (t.procs c) { last_scheduled = t.ticks; state = running });
  running_on = update t.running_on cpu (some c);
}

unfoldable pub run_chosen : ℕ → Option ℕ → Table → Table
unfolding switch_to
run_chosen cpu none t = t
run_chosen cpu (some c) t = switch_to cpu c t

-- One round of the scheduler's loop up to `swtch`: account, choose, switch.
unfoldable pub schedule : ℕ → Table → Table
unfolding account_all pick run_chosen
schedule cpu t = let t' = account_all t in run_chosen cpu (pick t') t'

-- The rest of the round, once the process has called `sched`.
unfoldable pub charge : ℕ → Proc → Proc
charge ticks p = record p {
  run_time =
      if not (p.last_scheduled == 0)
      then u32 (p.run_time + sub32 ticks p.last_scheduled)
      else p.run_time;
  last_scheduled = ticks;
}

unfoldable pub switch_back : ℕ → ℕ → Table → Table
unfolding charge
switch_back cpu c t = record t {
  procs = update t.procs c (charge t.ticks (t.procs c));
  running_on = update t.running_on cpu none;
}

-- `yield` by the process of slot `c` on processor `cpu`.
unfoldable pub yield : ℕ → ℕ → Table → Table
unfolding switch_back
yield cpu c t =
    switch_back cpu c
      (record t { procs = update t.procs c (record (t.procs c) { state = runnable }) })
