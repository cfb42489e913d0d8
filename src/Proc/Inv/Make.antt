-- ===== src/Proc/Inv/Make.antt =====
-- `allocproc`, `userinit`, `fork` and `wait` keep the invariant: a slot is claimed, gets its
-- parent, and is reaped.
use test_ascii.Common.{
  ℕ, zero, suc, ◌+◌, ◌≡◌, refl, ◌^◌, ◌<◌, ◌≤◌, Option, none, some, arith, Bool, true, false, ◌||◌,
  Bool-cases, inl, inr, points_to, ◌==◌,
}
use test_ascii.Common.Arrays.{find_from-some}
use test_ascii.Proc.Types.{Table, slot, Proc, nproc, embryo, unused, is_zombie, zombie, is_unused}
use test_ascii.Proc.Signals.{sleep}
use test_ascii.Proc.Life.{
  claim, find_unused, set_copy, scan_children, reap, reaped, asleep, wait_pass, wait_result,
}
use test_ascii.Proc.Step.{Acts, set_init}
use test_ascii.Proc.Inv.{Inv}

pub find_unused-some :
    (t : Table) (i : ℕ) → find_unused t ≡ some i → (i < nproc) × ((t.procs i).state ≡ unused)
unfolding find_unused
find_unused-some t i e =
    let (lo, hi, hit, first) = find_from-some (λ k. is_unused (t.procs k).state) nproc 0 i e in
    (omega arith, ground arith)

module _ {t : Table} (inv : Inv t) where
  open inv use {nextpid_pos, nextpid_small, slots, pairs, cpus}

  pub claim-Inv : (i : ℕ) → find_unused t ≡ some i → t.nextpid + 1 < 2 ^ 31 → Inv (claim i t)
  unfolding claim
  claim-Inv i e h =
      let (lo, free) = find_unused-some t i e in
      record {
        nextpid_pos = ground arith;
        nextpid_small = ground arith;
        slots = λ a. ground (arith, slots a);
        pairs = λ a b. ground (arith, pairs a b, slots a, slots b);
        cpus = λ k l. record {
          runs = λ c q. ground (arith, (cpus k l).runs c);
          one_cpu = (cpus k l).one_cpu;
        };
      }

  pub set_init-Inv :
      (i pgdir root : ℕ)
      → (t.procs i).state ≡ embryo
      → (t.procs i).parent ≡ none
      → t.initproc ≡ none
      → Inv (set_init i pgdir root t)
  unfolding set_init
  set_init-Inv i pgdir root e p q = record {
    nextpid_pos = nextpid_pos;
    nextpid_small = nextpid_small;
    slots = λ a. ground (arith, slots a);
    pairs = λ a b. ground (arith, pairs a b);
    cpus = λ k l. record {
      runs = λ c r. ground (arith, (cpus k l).runs c);
      one_cpu = (cpus k l).one_cpu;
    };
  }

  pub set_copy-Inv :
      {cpu c : ℕ} (n : ℕ) (pgdir : Option ℕ)
      → Acts t cpu c
      → (t.procs n).state ≡ embryo
      → Inv (set_copy c n pgdir t)
  unfolding set_copy
  set_copy-Inv {cpu} {c} n pgdir a e = record {
    nextpid_pos = nextpid_pos;
    nextpid_small = nextpid_small;
    slots = λ b. ground (arith, slots b, slots c, a);
    pairs = λ b d. ground (arith, pairs b d, a);
    cpus = λ k l. record {
      runs = λ d r. ground (arith, (cpus k l).runs d);
      one_cpu = (cpus k l).one_cpu;
    };
  }

  pub reap-Inv : (j : ℕ) → (t.procs j).state ≡ zombie → Inv (reap j t)
  unfolding reap
  reap-Inv j e = record {
    nextpid_pos = nextpid_pos;
    nextpid_small = nextpid_small;
    slots = λ b. ground (arith, slots b);
    pairs = λ b d. ground (arith, pairs b d);
    cpus = λ k l. record {
      runs = λ d r. ground (arith, (cpus k l).runs d);
      one_cpu = (cpus k l).one_cpu;
    };
  }

-- The scan of `wait` finds a zombie child of `c`.
pub scan_children-some :
    (procs : ℕ → Proc) (c n i : ℕ) (kids : Bool) (j : ℕ)
    → (scan_children procs c n i kids).0 ≡ some j
    → ((procs j).state ≡ zombie) × (points_to (procs j).parent c ≡ true)
unfolding scan_children
scan_children-some procs c zero i kids j e = absurd (cc)
scan_children-some procs c (suc n) i kids j e =
    ground (arith, scan_children-some procs c n (i + 1) (kids || points_to (procs i).parent c) j)

-- Where it finds none, no slot in its range is a zombie child of `c`.
pub scan_children-none :
    (procs : ℕ → Proc) (c n i : ℕ) (kids : Bool)
    → (scan_children procs c n i kids).0 ≡ none
    → (j : ℕ) → i ≤ j
    → j < i + n
    → points_to (procs j).parent c ≡ true
    → is_zombie (procs j).state ≡ false
unfolding scan_children
scan_children-none procs c zero i kids e j p q r = absurd (omega arith)
scan_children-none procs c (suc n) i kids e j p q r = elim (Bool-cases (i == j)) [
  | inl same ↦ ground arith
  | inr ne ↦
      scan_children-none procs c n (i + 1) (kids || points_to (procs i).parent c) (ground arith) j
        (ground arith) (omega arith) r
]

module _ {t : Table} (inv : Inv t) where
  -- Falling asleep in `wait` is safe beside no zombie child.
  wait_sleep-Inv :
      {cpu c : ℕ}
      → Acts t cpu c
      → ((j : ℕ) → points_to (t.procs j).parent c ≡ true → is_zombie (t.procs j).state ≡ false)
      → Inv (sleep cpu c (slot c) t)
  unfolding sleep
  wait_sleep-Inv {cpu} {c} a none_dead = record {
    nextpid_pos = inv.nextpid_pos;
    nextpid_small = inv.nextpid_small;
    slots = λ b. ground (arith, inv.slots b, a);
    pairs = λ b d. ground (arith, inv.pairs b d, none_dead b, a);
    cpus = λ k l. record {
      runs = λ d h. ground (arith, (inv.cpus k l).runs d, (inv.cpus k cpu).one_cpu d, a);
      one_cpu = λ d h h'. ground (arith, (inv.cpus k l).one_cpu d);
    };
  }

  child_reaped_of :
      (cpu c : ℕ) (r : Option ℕ × Bool) (j pid : ℕ) (t' : Table)
      → ((i : ℕ) → r.0 ≡ some i → (t.procs i).state ≡ zombie)
      → wait_result cpu c r t ≡ reaped j pid t'
      → Inv t'
  unfolding wait_result
  child_reaped_of cpu c (none, kids) j pid t' z e = absurd (ground arith)
  child_reaped_of cpu c (some i, kids) j pid t' z e =
      let q : reap i t ≡ t' = cc in rw (← q) (reap-Inv inv i (z i refl))

  wait_slept_of :
      {cpu c : ℕ} (r : Option ℕ × Bool) (t' : Table)
      → Acts t cpu c
      → (r.0 ≡ none
          → (j : ℕ) → points_to (t.procs j).parent c ≡ true
          → is_zombie (t.procs j).state ≡ false)
      → wait_result cpu c r t ≡ asleep t'
      → Inv t'
  unfolding wait_result
  wait_slept_of {cpu} {c} (none, kids) t' a z e =
      let q : sleep cpu c (slot c) t ≡ t' = ground arith in rw (← q) (wait_sleep-Inv a (z refl))
  wait_slept_of (some i, kids) t' a z e = absurd (cc)

  pub child_reaped-Inv :
      (cpu c j pid : ℕ) (t' : Table) → wait_pass cpu c t ≡ reaped j pid t' → Inv t'
  unfolding wait_pass
  child_reaped-Inv cpu c j pid t' e =
      child_reaped_of cpu c (scan_children t.procs c nproc 0 false) j pid t'
        (λ i q. (scan_children-some t.procs c nproc 0 false i q).0) e

  pub wait_slept-Inv :
      {cpu c : ℕ} (t' : Table) → Acts t cpu c → wait_pass cpu c t ≡ asleep t' → Inv t'
  unfolding wait_pass
  wait_slept-Inv {cpu} {c} t' a e =
      wait_slept_of (scan_children t.procs c nproc 0 false) t' a
        (λ q j r. ground (arith, inv.slots j, scan_children-none t.procs c nproc 0 false q j)) e
