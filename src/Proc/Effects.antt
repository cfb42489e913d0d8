-- ===== src/Proc/Effects.antt =====
-- What `kill`, `setpriority` and the clock interrupt do to the table, on every branch.
use test_ascii.Common.{
  ℕ, ◌+◌, ◌^◌, ◌≡◌, ◌≢◌, refl, sym, ◌∙◌, ◌<◌, ◌≤◌, ◌⊎◌, inl, inr, some, none, false, arith,
  Bool-cases, Option-cases, u32, minus_one, slt, ◌||◌, ◌==◌, if◌then◌else◌, ap,
}
use mathlib.Core.Path.{fun_ext}
use test_ascii.Common.Arrays.{update, find_from, find_from-some, find_from-none}
use test_ascii.Proc.Types.{
  Table, Proc, unused, runnable, running, nproc, min_priority, max_priority, is_sleeping, is_unused,
}
use test_ascii.Proc.Sched.{yield}
use test_ascii.Proc.Signals.{
  find_pid, kill, kill_found, kill_slot, setpriority, setpriority_found, clock_tick,
}
use test_ascii.Proc.Life.{claim, find_unused}
use test_ascii.Proc.Step.{Reach}
use test_ascii.Proc.Inv.Reachable.{Reach-Inv}
use test_ascii.Proc.Inv.Make.{find_unused-some}

-- Slot `i` is the first with this pid.
pub record IsFirst (t : Table) (pid i : ℕ) : Type 0 where
  pub inside : i < nproc
  pub has_pid : (t.procs i).pid ≡ pid
  pub none_before : (j : ℕ) → j < i → (t.procs j).pid ≢ pid

find_pid-some : (t : Table) (pid i : ℕ) → find_pid pid t ≡ some i → IsFirst t pid i
unfolding find_pid
find_pid-some t pid i e =
    let (lo, hi, hit, first) = find_from-some (λ k. (t.procs k).pid == pid) nproc 0 i e in
    record {
      inside = omega arith;
      has_pid = ground arith;
      none_before = λ j p q. ground (arith, first j (omega arith) p);
    }

find_pid-none :
    (t : Table) (pid : ℕ) → find_pid pid t ≡ none → (j : ℕ) → j < nproc → (t.procs j).pid ≢ pid
unfolding find_pid
find_pid-none t pid e j p q =
    ground
      (arith, find_from-none (λ k. (t.procs k).pid == pid) nproc 0 e j (omega arith) (omega arith))

-- The first slot is found.
find_pid_of_IsFirst : (t : Table) (pid i : ℕ) → IsFirst t pid i → find_pid pid t ≡ some i
find_pid_of_IsFirst t pid i f = elim (Option-cases (find_pid pid t)) [
  | inl e ↦ absurd (find_pid-none t pid e i f.inside f.has_pid)
  | inr (k, e) ↦
      let g = find_pid-some t pid k e in
      let same : k ≡ i = ground (arith, g, f, g.none_before i, f.none_before k) in rw (e, same)
]

kill_slot_lem :
    (p : Proc)
    → kill_slot p
      ≡ record p { killed = 1; state = if is_sleeping p.state then runnable else p.state }
unfolding kill_slot
kill_slot_lem p = ground arith

-- `kill`: with no slot of this pid it returns -1 and changes nothing; otherwise it returns 0, the
-- first slot of this pid is marked killed and no longer sleeps, keeping its other fields, and all
-- other slots and the processors are as before.
pub kill_effect :
    (t : Table) (pid : ℕ)
    → ((((j : ℕ) → j < nproc → (t.procs j).pid ≢ pid) × (kill pid t ≡ (minus_one, t)))
        ⊎ ((i : ℕ) × IsFirst t pid i
            × (kill pid t ≡ (
              0,
              record t {
                procs = update t.procs i (record (t.procs i) {
                  killed = 1;
                  state = if is_sleeping (t.procs i).state then runnable else (t.procs i).state;
                });
              },
            ))))
unfolding kill kill_found
kill_effect t pid = elim (Option-cases (find_pid pid t)) [
  | inl e ↦ inl (find_pid-none t pid e, rw e)
  | inr (i, e) ↦ inr (
    i,
    find_pid-some t pid i e,
    rw e (ap (λ p. (0, record t { procs = update t.procs i p })) (kill_slot_lem (t.procs i))),
  )
]

-- `setpriority`: out of range (as a signed int) or with no slot of this pid it returns -1 and
-- changes nothing; otherwise it returns 0 and only the priority of the first slot of this pid
-- changes. In no case does any state change or any processor switch.
pub setpriority_effect :
    (t : Table) (pid priority : ℕ)
    → priority < 2 ^ 32
    → ((max_priority < priority) × (setpriority pid priority t ≡ (minus_one, t)))
      ⊎ (((j : ℕ) → j < nproc → (t.procs j).pid ≢ pid)
          × (setpriority pid priority t ≡ (minus_one, t)))
      ⊎ ((priority ≤ max_priority)
          × ((i : ℕ) × IsFirst t pid i
              × (setpriority pid priority t ≡ (
                0,
                record t { procs = update t.procs i (record (t.procs i) { priority = priority }) },
              ))))
unfolding setpriority setpriority_found
setpriority_effect t pid priority small =
    elim (Bool-cases (slt priority min_priority || slt max_priority priority)) [
      | inl out ↦ inl (ground arith, rw out)
      | inr ok ↦ inr (elim (Option-cases (find_pid pid t)) [
        | inl e ↦ inl (find_pid-none t pid e, rw (ok, e))
        | inr (i, e) ↦ inr (ground arith, (i, find_pid-some t pid i e, rw (ok, e)))
      ])
    ]

-- A tick of the clock that ends in a yield charges the running process of processor 0 two ticks:
-- one by the interrupt handler, one by the scheduler.
pub tick_charged_twice :
    (t : Table) (c : ℕ)
    → t.running_on 0 ≡ some c
    → (t.procs c).state ≡ running
    → (t.procs c).last_scheduled ≡ t.ticks
    → t.ticks ≢ 0
    → t.ticks + 1 < 2 ^ 32
    → ((yield 0 c (clock_tick t)).ticks ≡ t.ticks + 1)
      × (((yield 0 c (clock_tick t)).procs c).run_time ≡ u32 ((t.procs c).run_time + 2))
unfolding yield clock_tick
tick_charged_twice t c on r l nz small = rw on (ground arith)

find_unused_first :
    (t : Table) (i j : ℕ) → find_unused t ≡ some i → j < i → is_unused (t.procs j).state ≡ false
unfolding find_unused
find_unused_first t i j e p =
    (find_from-some (λ k. is_unused (t.procs k).state) nproc 0 i e).3 j (omega arith) p

find_unused-same :
    (t u : Table)
    → ((k : ℕ) → is_unused (t.procs k).state ≡ is_unused (u.procs k).state)
    → find_unused t ≡ find_unused u
unfolding find_unused
find_unused-same t u h = ap (λ test. find_from test nproc 0) (fun_ext h)

kill_found_unused :
    (t : Table) (i k : ℕ)
    → (t.procs i).state ≡ unused
    → is_unused (t.procs k).state ≡ is_unused (((kill_found (some i) t).1).procs k).state
unfolding kill_found kill_slot
kill_found_unused t i k e = ground arith

claim-killed : (t : Table) (i : ℕ) → ((claim i ((kill_found (some i) t).1)).procs i).killed ≡ 1
unfolding claim kill_found kill_slot
claim-killed t i = ground arith

-- `kill(0)` marks the slot that the next process will get, and that process is born killed: in a
-- reachable table whose first free slot has pid 0, as after boot or `wait`, the call returns 0,
-- `allocproc` then takes the slot that was marked, and leaves its `killed` at 1.
pub kill_zero :
    {t : Table} (i : ℕ)
    → Reach t
    → find_unused t ≡ some i
    → (t.procs i).pid ≡ 0
    → ((kill 0 t).0 ≡ 0)
      × (find_unused (kill 0 t).1 ≡ some i)
      × (((claim i (kill 0 t).1).procs i).killed ≡ 1)
unfolding kill
kill_zero {t} i r e z =
    let (lo, free) = find_unused-some t i e in
    let f : IsFirst t 0 i = record {
      inside = lo;
      has_pid = z;
      none_before = λ j p q. ground (arith, find_unused_first t i j e p, (Reach-Inv r).slots j);
    } in
    rw (find_pid_of_IsFirst t 0 i f) (
      unfold kill_found in refl,
      sym (find_unused-same t _ (λ k. kill_found_unused t i k free)) ∙ e,
      claim-killed t i,
    )
