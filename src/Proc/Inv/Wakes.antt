-- ===== src/Proc/Inv/Wakes.antt =====
-- `wakeup1`, `kill`, `setpriority` and the clock interrupt keep the invariant.
use test_ascii.Common.{
  ℕ, ◌^◌, ◌<◌, ◌≤◌, Option, none, some, arith, ltb, ◌||◌, slt, if◌then◌else◌, Bool-cases, inl, inr,
}
use test_ascii.Proc.Types.{Table, Chan, nproc, min_priority, max_priority, is_running}
use test_ascii.Proc.Signals.{
  wakeup1, wake, kill, kill_found, find_pid, setpriority, setpriority_found, clock_tick,
  tick_running, ticks_chan,
}
use test_ascii.Proc.Inv.{Inv, SlotInv, Fits, Fits-Inv_same, Fits-Inv-update}

pub wake-Fits :
    {t : Table} (chan : Chan) (i : ℕ)
    → SlotInv t i
    → Fits t i (if ltb i nproc then wake chan (t.procs i) else t.procs i)
unfolding wake
wake-Fits chan i s = ground arith

module _ {t : Table} (inv : Inv t) where
  pub wakeup1-Inv : (chan : Chan) → Inv (wakeup1 chan t)
  unfolding wakeup1 wake
  wakeup1-Inv chan = Fits-Inv_same _ inv (λ i. wake-Fits chan i (inv.slots i)) (λ i h. ground arith)

  kill_found-Inv : (o : Option ℕ) → Inv (kill_found o t).1
  unfolding kill_found
  kill_found-Inv none = inv
  kill_found-Inv (some i) = Fits-Inv-update i _ inv (ground (arith, inv.slots i)) (ground arith)

  pub kill-Inv : (pid : ℕ) → Inv (kill pid t).1
  unfolding kill
  kill-Inv pid = kill_found-Inv (find_pid pid t)

  setpriority_found-Inv :
      (o : Option ℕ) (priority : ℕ)
      → priority ≤ max_priority
      → Inv (setpriority_found o priority t).1
  unfolding setpriority_found
  setpriority_found-Inv none priority h = inv
  setpriority_found-Inv (some i) priority h =
      Fits-Inv-update i _ inv (ground (arith, inv.slots i)) (λ r. r)

  pub setpriority-Inv : (pid priority : ℕ) → priority < 2 ^ 32 → Inv (setpriority pid priority t).1
  unfolding setpriority
  setpriority-Inv pid priority h =
      elim (Bool-cases (slt priority min_priority || slt max_priority priority)) [
        | inl out ↦ rw out inv
        | inr ok ↦ rw ok (setpriority_found-Inv (find_pid pid t) priority (ground arith))
      ]

  tick_running-Inv : (o : Option ℕ) → Inv (tick_running o t)
  unfolding tick_running
  tick_running-Inv none = inv
  tick_running-Inv (some c) = elim (Bool-cases (is_running (t.procs c).state)) [
    | inl e ↦ rw e (Fits-Inv-update c _ inv (ground (arith, inv.slots c)) (λ r. r))
    | inr e ↦ rw e inv
  ]

  pub set_ticks-Inv : (n : ℕ) → Inv (record t { ticks = n })
  set_ticks-Inv n = record {
    nextpid_pos = inv.nextpid_pos;
    nextpid_small = inv.nextpid_small;
    slots = λ i. ground (arith, inv.slots i);
    pairs = λ i j. ground (arith, inv.pairs i j);
    cpus = λ k l. record { runs = (inv.cpus k l).runs; one_cpu = (inv.cpus k l).one_cpu };
  }

pub clock_tick-Inv : {t : Table} → Inv t → Inv (clock_tick t)
unfolding clock_tick
clock_tick-Inv {t} inv =
    tick_running-Inv (wakeup1-Inv (set_ticks-Inv inv _) ticks_chan) (t.running_on 0)
