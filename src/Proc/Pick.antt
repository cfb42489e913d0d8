-- ===== src/Proc/Pick.antt =====
-- Which process the scheduler of proc.c chooses.
use test_ascii.Common.{
  ℕ, zero, suc, ◌+◌, ◌≡◌, refl, sym, ap, ◌∙◌, ◌<◌, ◌≤◌, Option, none, some, arith, true, false,
  if◌then◌else◌, ◌&&◌, Bool-cases, inl, inr, int_key,
}
use test_ascii.Proc.Types.{Table, Proc, nproc, is_runnable}
use test_ascii.Proc.Sched.{
  beats, pick_from, pick, account, account_all, run_chosen, switch_to, schedule, yield,
}

-- Slot `c` is the best of the slots below `i`: runnable, with the least priority value of the
-- runnable ones, and the first with that value.
pub record IsBest (procs : ℕ → Proc) (i c : ℕ) : Type 0 where
  pub inside : c < i
  pub ready : is_runnable (procs c).state ≡ true
  pub least :
      (j : ℕ)
      → j < i
      → is_runnable (procs j).state ≡ true
      → int_key (procs c).priority ≤ int_key (procs j).priority
  pub first :
      (j : ℕ)
      → j < c
      → is_runnable (procs j).state ≡ true
      → int_key (procs c).priority < int_key (procs j).priority

abbrev pub Chosen : (ℕ → Proc) → ℕ → Option ℕ → Type 0
Chosen procs i none = (j : ℕ) → j < i → is_runnable (procs j).state ≡ false
Chosen procs i (some c) = IsBest procs i c

step-Chosen :
    (procs : ℕ → Proc) (i : ℕ) (o : Option ℕ)
    → Chosen procs i o
    → Chosen procs (i + 1) (if is_runnable (procs i).state && beats procs i o then some i else o)
unfolding beats
step-Chosen procs i none h = elim (Bool-cases (is_runnable (procs i).state)) [
  | inl e ↦ rw e (record {
    inside = omega arith;
    ready = e;
    least = λ j p q. ground (arith, h j);
    first = λ j p q. ground (arith, h j);
  })
  | inr e ↦ rw e λ j p. ground (arith, h j)
]
step-Chosen procs i (some c) h =
    elim (Bool-cases (is_runnable (procs i).state && beats procs i (some c))) [
      | inl e ↦ rw e (record {
        inside = omega arith;
        ready = ground arith;
        least = λ j p q. ground (arith, h.least j);
        first = λ j p q. ground (arith, h.least j);
      })
      | inr e ↦ rw e (record {
        inside = omega (arith, h.inside);
        ready = h.ready;
        least = λ j p q. ground (arith, h.least j);
        first = h.first;
      })
    ]

pick_from-Chosen :
    (procs : ℕ → Proc) (n i m : ℕ) (o : Option ℕ)
    → i + n ≡ m
    → Chosen procs i o
    → Chosen procs m (pick_from procs n i o)
unfolding pick_from
pick_from-Chosen procs zero i m o e h = let q : i ≡ m = omega arith in rw (← q) h
pick_from-Chosen procs (suc n) i m o e h =
    pick_from-Chosen procs n (i + 1) m _ (omega arith) (step-Chosen procs i o h)

-- The choice reads only states and priorities.
Chosen-same :
    (f g : ℕ → Proc) (n : ℕ) (o : Option ℕ)
    → ((i : ℕ) → is_runnable (f i).state ≡ is_runnable (g i).state)
    → ((i : ℕ) → (f i).priority ≡ (g i).priority)
    → Chosen f n o
    → Chosen g n o
Chosen-same f g n none st pr h = λ j p. ground (arith, h j, st j)
Chosen-same f g n (some c) st pr h = record {
  inside = h.inside;
  ready = ground (arith, h, st c);
  least = λ j p q. ground (arith, h.least j, st j, pr j, pr c);
  first = λ j p q. ground (arith, h.first j, st j, pr j, pr c);
}

-- At most one slot is the best.
Chosen-unique :
    (procs : ℕ → Proc) (n c : ℕ) (o : Option ℕ) → IsBest procs n c → Chosen procs n o → o ≡ some c
Chosen-unique procs n c none b h = absurd (ground (arith, b, h c))
Chosen-unique procs n c (some d) b h =
    ground (arith, b, h, b.first d, h.first c, b.least d, h.least c)

account-state :
    (ticks : ℕ) (p : Proc)
    → ((account ticks p).state ≡ p.state) × ((account ticks p).priority ≡ p.priority)
unfolding account
account-state ticks p = ground arith

module _ (t : Table) where
  account_all-state :
      (i : ℕ)
      → (((account_all t).procs i).state ≡ (t.procs i).state)
        × (((account_all t).procs i).priority ≡ (t.procs i).priority)
  unfolding account_all
  account_all-state i = ground (arith, account-state t.ticks (t.procs i))

  pick-Chosen : Chosen t.procs nproc (pick (account_all t))
  unfolding pick
  pick-Chosen =
      Chosen-same (account_all t).procs t.procs nproc _
        (λ i. ap is_runnable (account_all-state i).0) (λ i. (account_all-state i).1)
        (pick_from-Chosen (account_all t).procs nproc 0 nproc none (omega arith)
          (λ j p. absurd (omega arith)))

  account_all-on : (k : ℕ) → (account_all t).running_on k ≡ t.running_on k
  unfolding account_all
  account_all-on k = refl

run_chosen-on :
    (t : Table) (cpu : ℕ) (o : Option ℕ)
    → t.running_on cpu ≡ none
    → (run_chosen cpu o t).running_on cpu ≡ o
unfolding run_chosen
run_chosen-on t cpu none free = free
run_chosen-on t cpu (some c) free = ground arith

schedule-on :
    (t : Table) (cpu : ℕ)
    → t.running_on cpu ≡ none
    → (schedule cpu t).running_on cpu ≡ pick (account_all t)
unfolding schedule
schedule-on t cpu free =
    run_chosen-on (account_all t) cpu (pick (account_all t)) (account_all-on t cpu ∙ free)

-- A round of the scheduler on an idle processor gives it the first of the runnable processes
-- whose priority value, read as a signed int, is least, and leaves it idle only if no process is
-- runnable.
pub schedule-Chosen :
    (t : Table) (cpu : ℕ)
    → t.running_on cpu ≡ none
    → Chosen t.procs nproc ((schedule cpu t).running_on cpu)
schedule-Chosen t cpu free = rw (schedule-on t cpu free) (pick-Chosen t)

module _ (u : Table) (cpu c : ℕ) where
  -- Switching to a runnable process that yields at once changes no state and no priority.
  yield-switch_to :
      is_runnable (u.procs c).state ≡ true
      → (i : ℕ)
      → (is_runnable ((yield cpu c (switch_to cpu c u)).procs i).state
          ≡ is_runnable (u.procs i).state)
        × (((yield cpu c (switch_to cpu c u)).procs i).priority ≡ (u.procs i).priority)
  unfolding yield switch_to
  yield-switch_to ready i = ground arith

  yield-on : (v : Table) → (yield cpu c v).running_on cpu ≡ none
  unfolding yield
  yield-on v = ground arith

-- A process that yields right after the scheduler chose it is chosen again, whoever else is
-- runnable, also with the same priority.
pub yield_rescheduled :
    (t : Table) (cpu c : ℕ)
    → t.running_on cpu ≡ none
    → (schedule cpu t).running_on cpu ≡ some c
    → (schedule cpu (yield cpu c (schedule cpu t))).running_on cpu ≡ some c
unfolding schedule run_chosen
yield_rescheduled t cpu c free e =
    let u = account_all t in
    let picked : pick u ≡ some c = sym (schedule-on t cpu free) ∙ e in
    let best : IsBest t.procs nproc c = rw picked at (pick-Chosen t) in
    let v = yield cpu c (switch_to cpu c u) in
    let ready : is_runnable (u.procs c).state ≡ true =
      ap is_runnable (account_all-state t c).0 ∙ best.ready in
    let same : IsBest v.procs nproc c =
      Chosen-same t.procs v.procs nproc (some c)
        (λ i. sym ((yield-switch_to u cpu c ready i).0 ∙ ap is_runnable (account_all-state t i).0))
        (λ i. sym ((yield-switch_to u cpu c ready i).1 ∙ (account_all-state t i).1)) best in
    rw picked (
      Chosen-unique v.procs nproc c _ same
        (schedule-Chosen v cpu (yield-on u cpu c (switch_to cpu c u))))
