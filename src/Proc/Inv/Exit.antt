-- ===== src/Proc/Inv/Exit.antt =====
-- `exit` keeps the invariant: its parent is awake and its children are init's when it dies.
use test_ascii.Common.{
  ℕ, zero, suc, ◌+◌, ◌≡◌, refl, ◌∙◌, ◌<◌, ◌≤◌, arith, true, false, if◌then◌else◌, Bool-cases, inl,
  inr, points_to,
}
use native.Mathlib.Decide.{dec_lt, ℕ_discrete}
use test_ascii.Proc.Types.{Table, nproc, running, is_zombie}
use test_ascii.Proc.Signals.{wakeup1, wake}
use test_ascii.Proc.Life.{give_to_init, reparent, reparent_from, set_zombie, exit_locked, chan_of}
use test_ascii.Proc.Sched.{switch_back}
use test_ascii.Proc.Step.{Acts}
use test_ascii.Proc.Inv.{Inv, in_wait}
use test_ascii.Proc.Inv.Wakes.{wakeup1-Inv}

-- The process of slot `c` is on its way out: the invariant holds, it runs, it is not init, and
-- its parent does not sleep in `wait`.
pub record Exiting (t : Table) (cpu c : ℕ) : Type 0 where
  pub inv : Inv t
  pub acts : Acts t cpu c
  pub not_init : points_to t.initproc c ≡ false
  pub quiet : (j : ℕ) → points_to (t.procs c).parent j ≡ true → in_wait t j ≡ false

wakeup1-Exiting :
    {t : Table} {cpu c : ℕ}
    → Inv t
    → Acts t cpu c
    → points_to t.initproc c ≡ false
    → Exiting (wakeup1 (chan_of (t.procs c).parent) t) cpu c
unfolding wakeup1 wake
wakeup1-Exiting {t} {cpu} {c} inv a ni = record {
  inv = wakeup1-Inv inv _;
  acts = record { on_cpu = a.on_cpu; is_running = ground (arith, a) };
  not_init = ni;
  quiet = λ j p. ground (arith, inv.slots j);
}

-- A live child of `c` is given to init.
give_live-Inv :
    {t : Table} (c i : ℕ)
    → Inv t
    → points_to t.initproc c ≡ false
    → points_to (t.procs i).parent c ≡ true
    → is_zombie (t.procs i).state ≡ false
    → Inv (give_to_init i t)
unfolding give_to_init
give_live-Inv {t} c i inv ni p live = record {
  nextpid_pos = inv.nextpid_pos;
  nextpid_small = inv.nextpid_small;
  slots = λ b. ground (arith, inv.slots b);
  pairs = λ b d. ground (arith, inv.pairs b d, inv.slots d);
  cpus = λ k l. record {
    runs = λ d h. ground (arith, (inv.cpus k l).runs d);
    one_cpu = (inv.cpus k l).one_cpu;
  };
}

-- A zombie child of `c` is given to init, which is woken.
give_zombie-Inv :
    {t : Table} (c i : ℕ)
    → Inv t
    → points_to t.initproc c ≡ false
    → points_to (t.procs i).parent c ≡ true
    → is_zombie (t.procs i).state ≡ true
    → Inv (wakeup1 (chan_of t.initproc) (give_to_init i t))
unfolding wakeup1 wake give_to_init
give_zombie-Inv {t} c i inv ni p dead = record {
  nextpid_pos = inv.nextpid_pos;
  nextpid_small = inv.nextpid_small;
  slots = λ b. ground (arith, inv.slots b);
  pairs = λ b d. ground (arith, inv.pairs b d, inv.slots d, inv.slots b, inv.slots i);
  cpus = λ k l. record {
    runs = λ d h. ground (arith, (inv.cpus k l).runs d);
    one_cpu = (inv.cpus k l).one_cpu;
  };
}

module _ (c i : ℕ) (t : Table) where
  reparent_other : points_to (t.procs i).parent c ≡ false → reparent c i t ≡ t
  unfolding reparent
  reparent_other e = rw e

  reparent_live :
      points_to (t.procs i).parent c ≡ true
      → is_zombie (t.procs i).state ≡ false
      → reparent c i t ≡ give_to_init i t
  unfolding reparent
  reparent_live e f = rw (e, f)

  reparent_dead :
      points_to (t.procs i).parent c ≡ true
      → is_zombie (t.procs i).state ≡ true
      → reparent c i t ≡ wakeup1 (chan_of t.initproc) (give_to_init i t)
  unfolding reparent
  reparent_dead e f = rw (e, f)

  -- The three ways through the body of the loop.
  pub reparent_cases {ℓ} :
      (P : Table → Type ℓ)
      → (points_to (t.procs i).parent c ≡ false → P t)
      → (points_to (t.procs i).parent c ≡ true
          → is_zombie (t.procs i).state ≡ false
          → P (give_to_init i t))
      → (points_to (t.procs i).parent c ≡ true
          → is_zombie (t.procs i).state ≡ true
          → P (wakeup1 (chan_of t.initproc) (give_to_init i t)))
      → P (reparent c i t)
  reparent_cases P other live dead = elim (Bool-cases (points_to (t.procs i).parent c)) [
    | inr e ↦ rw (reparent_other e) (other e)
    | inl e ↦ elim (Bool-cases (is_zombie (t.procs i).state)) [
      | inr f ↦ rw (reparent_live e f) (live e f)
      | inl f ↦ rw (reparent_dead e f) (dead e f)
    ]
  ]

-- What the body leaves alone, for any slot: a parent changes only from `c` to init, and only
-- sleepers are woken.
record Gentle (t u : Table) (c : ℕ) : Type 0 where
  same_init : u.initproc ≡ t.initproc
  same_on : (k : ℕ) → u.running_on k ≡ t.running_on k
  parent_moves :
      (k : ℕ)
      → (u.procs k).parent
        ≡ (if points_to (t.procs k).parent c then (u.procs k).parent else (t.procs k).parent)
  runs_on : (k : ℕ) → (t.procs k).state ≡ running → (u.procs k).state ≡ running
  waits_less : (k : ℕ) → in_wait t k ≡ false → in_wait u k ≡ false
  orphaned :
      points_to t.initproc c ≡ false
      → (k : ℕ) → points_to (t.procs k).parent c ≡ false
      → points_to (u.procs k).parent c ≡ false

module _ (c i : ℕ) (t : Table) where
  reparent-Gentle : Gentle t (reparent c i t) c
  unfolding give_to_init wakeup1 wake
  reparent-Gentle =
      reparent_cases c i t (λ u. Gentle t u c)
        (λ e. record {
          same_init = refl;
          same_on = λ k. refl;
          parent_moves = λ k. ground arith;
          runs_on = λ k h. h;
          waits_less = λ k h. h;
          orphaned = λ n k h. h;
        })
        (λ e f. record {
          same_init = refl;
          same_on = λ k. refl;
          parent_moves = λ k. ground arith;
          runs_on = λ k h. ground arith;
          waits_less = λ k h. ground arith;
          orphaned = λ n k h. ground arith;
        })
        (λ e f. record {
          same_init = refl;
          same_on = λ k. refl;
          parent_moves = λ k. ground arith;
          runs_on = λ k h. ground arith;
          waits_less = λ k h. ground arith;
          orphaned = λ n k h. ground arith;
        })

  reparent-Inv : Inv t → points_to t.initproc c ≡ false → Inv (reparent c i t)
  reparent-Inv inv ni =
      reparent_cases c i t Inv (λ e. inv) (give_live-Inv c i inv ni) (give_zombie-Inv c i inv ni)

  -- The slot that the body has seen is no child of `c`.
  reparent_clears :
      points_to t.initproc c ≡ false → points_to ((reparent c i t).procs i).parent c ≡ false
  unfolding give_to_init wakeup1 wake
  reparent_clears ni =
      reparent_cases c i t (λ u. points_to (u.procs i).parent c ≡ false) (λ e. e)
        (λ e f. ground arith) (λ e f. ground arith)

module _ {t : Table} {cpu c : ℕ} (i : ℕ) (x : Exiting t cpu c) where
  reparent-Exiting : Exiting (reparent c i t) cpu c
  reparent-Exiting =
      let g = reparent-Gentle c i t in
      record {
        inv = reparent-Inv c i t x.inv x.not_init;
        acts = record {
          on_cpu = g.same_on cpu ∙ x.acts.on_cpu;
          is_running = g.runs_on c x.acts.is_running;
        };
        not_init = rw g.same_init x.not_init;
        quiet = λ j p. g.waits_less j (x.quiet j (ground (arith, g.parent_moves c, x.inv.slots c)));
      }

module _ {cpu c : ℕ} where
  reparent_from-Exiting :
      (n i : ℕ) {t : Table} → Exiting t cpu c → Exiting (reparent_from c n i t) cpu c
  unfolding reparent_from
  reparent_from-Exiting zero i x = x
  reparent_from-Exiting (suc n) i x = reparent_from-Exiting n (i + 1) (reparent-Exiting i x)

  -- A slot that is no child of `c` stays so.
  reparent_from_keeps :
      (n i k : ℕ) {t : Table}
      → Exiting t cpu c
      → points_to (t.procs k).parent c ≡ false
      → points_to ((reparent_from c n i t).procs k).parent c ≡ false
  unfolding reparent_from
  reparent_from_keeps zero i k x e = e
  reparent_from_keeps (suc n) i k {t} x e =
      reparent_from_keeps n (i + 1) k (reparent-Exiting i x)
        ((reparent-Gentle c i t).orphaned x.not_init k e)

  -- After the loop no slot in its range is a child of `c`.
  reparent_from_clears :
      (n i k : ℕ) {t : Table}
      → Exiting t cpu c
      → i ≤ k
      → k < i + n
      → points_to ((reparent_from c n i t).procs k).parent c ≡ false
  unfolding reparent_from
  reparent_from_clears zero i k x p q = absurd (omega arith)
  reparent_from_clears (suc n) i k {t} x p q = elim (ℕ_discrete i k) [
    | yes e ↦
        reparent_from_keeps n (i + 1) k (reparent-Exiting i x)
          (rw (← e) (reparent_clears c i t x.not_init))
    | no ne ↦ reparent_from_clears n (i + 1) k (reparent-Exiting i x) (omega arith) (omega arith)
  ]

  -- Dying is safe for a childless process whose parent is awake.
  die-Inv :
      {t : Table}
      → Exiting t cpu c
      → ((k : ℕ) → points_to (t.procs k).parent c ≡ false)
      → Inv (switch_back cpu c (set_zombie c t))
  unfolding switch_back set_zombie
  die-Inv {t} x childless = record {
    nextpid_pos = x.inv.nextpid_pos;
    nextpid_small = x.inv.nextpid_small;
    slots = λ b. ground (arith, x.inv.slots b, x.acts, x.not_init);
    pairs = λ b d. ground (arith, x.inv.pairs b d, childless b, x.quiet d, x.acts);
    cpus = λ k l. record {
      runs = λ d h. ground (arith, (x.inv.cpus k l).runs d, (x.inv.cpus k cpu).one_cpu d, x.acts);
      one_cpu = λ d h h'. ground (arith, (x.inv.cpus k l).one_cpu d);
    };
  }

-- In the table that the loop leaves, no slot at all is a child of the dying process.
no_children_left :
    {t : Table} {cpu c : ℕ}
    → Exiting t cpu c
    → (k : ℕ) → points_to ((reparent_from c nproc 0 t).procs k).parent c ≡ false
no_children_left {t} {cpu} {c} x k = elim (dec_lt k nproc) [
  | yes inside ↦ reparent_from_clears nproc 0 k x (omega arith) (omega arith)
  | no beyond ↦ reparent_from_keeps nproc 0 k x (ground (arith, x.inv.slots k))
]

pub exit_locked-Inv :
    {t : Table} {cpu c : ℕ}
    → Inv t
    → Acts t cpu c
    → points_to t.initproc c ≡ false
    → Inv (exit_locked cpu c t)
unfolding exit_locked
exit_locked-Inv inv a ni =
    let x = wakeup1-Exiting inv a ni in
    die-Inv (reparent_from-Exiting nproc 0 x) (no_children_left x)
