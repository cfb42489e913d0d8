-- ===== src/Proc/Waiting.antt =====
-- What a pass of `wait` of proc.c comes to.
use test_ascii.Common.{
  ℕ, zero, suc, ◌+◌, ◌≡◌, ◌≢◌, refl, ap, ◌<◌, ◌≤◌, ◌⊎◌, inl, inr, Option, some, none, [], Bool,
  true, false, arith, done, Ensures, Ensures->>=, of_Ensures, points_to, ◌&&◌, ◌||◌, ◌==◌,
  Bool-cases,
}
use native.Mathlib.Decide.{ℕ_discrete}
use test_ascii.Common.Arrays.{update}
use test_ascii.Proc.Types.{Table, Proc, slot, zombie, is_zombie, nproc, unused, sleeping}
use test_ascii.Proc.Sched.{switch_back, charge}
use test_ascii.Proc.Signals.{sleep}
use test_ascii.Proc.Life.{
  Services, WaitPass, reaped, no_children, asleep, wait_pass, wait_result, scan_children, reap,
}
use test_ascii.Proc.Calls.{wait, wait_release}
use test_ascii.Proc.Inv.Make.{scan_children-some, scan_children-none}

abbrev pub IsChild : Table → ℕ → ℕ → Type 0
IsChild t c j = points_to (t.procs j).parent c ≡ true

-- Slot `j` of `t` is freed in `t'`, and nothing else is touched.
abbrev pub Freed : Table → Table → ℕ → Type 0
Freed t t' j = t' ≡ record t {
  procs = update t.procs j (record (t.procs j) {
    state = unused;
    pid = 0;
    parent = none;
    kstack = none;
    name = [];
    killed = 0;
  });
}

-- Slot `c` of `t` has gone to sleep on its own slot in `t'`, and has left processor `cpu`.
pub record FellAsleep (t t' : Table) (cpu c : ℕ) : Type 0 where
  pub sleeps : (t'.procs c).state ≡ sleeping
  pub on_itself : (t'.procs c).chan ≡ slot c
  pub still_alive : (t'.procs c).killed ≡ 0
  pub same_process :
      ((t'.procs c).pid ≡ (t.procs c).pid) × ((t'.procs c).parent ≡ (t.procs c).parent)
  pub others_kept : (j : ℕ) → j ≢ c → t'.procs j ≡ t.procs j
  pub released : t'.running_on ≡ update t.running_on cpu none
  pub next_pid : t'.nextpid ≡ t.nextpid

-- What each answer of a pass by slot `c` on processor `cpu` means.
abbrev pub WaitSpec : Table → ℕ → ℕ → WaitPass → Type 0
WaitSpec t cpu c (reaped j pid t') =
    ((t.procs j).parent ≡ some c)
    × ((t.procs j).state ≡ zombie)
    × (pid ≡ (t.procs j).pid)
    × Freed t t' j
WaitSpec t cpu c no_children =
    ((j : ℕ) → j < nproc → IsChild t c j → (t.procs j).state ≢ zombie)
    × (((t.procs c).killed ≢ 0) ⊎ ((j : ℕ) → j < nproc → (t.procs j).parent ≢ some c))
WaitSpec t cpu c (asleep t') =
    ((j : ℕ) → j < nproc → IsChild t c j → (t.procs j).state ≢ zombie)
    × ((t.procs c).killed ≡ 0)
    × ((j : ℕ) × (j < nproc) × ((t.procs j).parent ≡ some c))
    × FellAsleep t t' cpu c

module _ (procs : ℕ → Proc) (c : ℕ) where
  -- A step of a scan that will find no zombie child.
  scan_children_step :
      (n i : ℕ) (kids : Bool)
      → (scan_children procs c (suc n) i kids).0 ≡ none
      → scan_children procs c (suc n) i kids
        ≡ scan_children procs c n (i + 1) (kids || points_to (procs i).parent c)
  unfolding scan_children
  scan_children_step n i kids e =
      elim (Bool-cases (points_to (procs i).parent c && is_zombie (procs i).state)) [
        | inl hit ↦ absurd (ground arith)
        | inr miss ↦ rw miss
      ]

  -- A scan that reports a child has seen one.
  scan_children-true :
      (n i : ℕ) (kids : Bool)
      → (scan_children procs c n i kids).0 ≡ none
      → (scan_children procs c n i kids).1 ≡ true
      → (kids ≡ true) ⊎ ((j : ℕ) × (j < i + n) × (points_to (procs j).parent c ≡ true))
  scan_children-true zero i kids e h = unfold scan_children in inl h
  scan_children-true (suc n) i kids e h =
      let q = scan_children_step n i kids e in
      elim (scan_children-true n (i + 1) _ (rw q at e) (rw q at h)) [
        | inl k ↦ elim (Bool-cases kids) [
          | inl old ↦ inl old
          | inr new ↦ inr (i, omega arith, ground arith)
        ]
        | inr (j, p, m) ↦ inr (j, omega arith, m)
      ]

  -- A scan that reports none has seen none.
  scan_children-false :
      (n i : ℕ) (kids : Bool)
      → (scan_children procs c n i kids).0 ≡ none
      → (scan_children procs c n i kids).1 ≡ false
      → (kids ≡ false) × ((j : ℕ) → i ≤ j → j < i + n → points_to (procs j).parent c ≡ false)
  scan_children-false zero i kids e h = (unfold scan_children in h, λ j p q. absurd (omega arith))
  scan_children-false (suc n) i kids e h =
      let q = scan_children_step n i kids e in
      let (k, later) = scan_children-false n (i + 1) _ (rw q at e) (rw q at h) in
      (
        ground arith,
        λ j p r. elim (ℕ_discrete i j) [
          | yes same ↦ ground arith
          | no ne ↦ later j (omega arith) (omega arith)
        ],
      )

sleep-FellAsleep :
    (t : Table) (cpu c : ℕ) → (t.procs c).killed ≡ 0 → FellAsleep t (sleep cpu c (slot c) t) cpu c
unfolding sleep switch_back charge
sleep-FellAsleep t cpu c alive = record {
  sleeps = ground arith;
  on_itself = ground arith;
  still_alive = ground arith;
  same_process = ground arith;
  others_kept = λ j ne. ground arith;
  released = refl;
  next_pid = refl;
}

pub wait_result-WaitSpec :
    (t : Table) (cpu c : ℕ) (r : Option ℕ × Bool)
    → scan_children t.procs c nproc 0 false ≡ r
    → WaitSpec t cpu c (wait_result cpu c r t)
unfolding wait_result reap
wait_result-WaitSpec t cpu c (some j, kids) e =
    let (z, p) = scan_children-some t.procs c nproc 0 false j (rw e) in
    (ground arith, z, refl, refl)
wait_result-WaitSpec t cpu c (none, false) e = (alive, inr (λ j p m. ground (arith, none_seen j)))
  where
    alive : (j : ℕ) → j < nproc → IsChild t c j → (t.procs j).state ≢ zombie
    alive j p m = ground (arith, scan_children-none t.procs c nproc 0 false (ap (λ r. r.0) e) j)

    none_seen : (j : ℕ) → 0 ≤ j → j < 0 + nproc → points_to (t.procs j).parent c ≡ false
    none_seen = (scan_children-false t.procs c nproc 0 false (ap (λ r. r.0) e) (ap (λ r. r.1) e)).1
wait_result-WaitSpec t cpu c (none, true) e = elim (Bool-cases ((t.procs c).killed == 0)) [
  | inr nz ↦ rw nz (alive, inl (ground arith))
  | inl z ↦ rw z (alive, ground arith, child, sleep-FellAsleep t cpu c (ground arith))
]
  where
    alive : (j : ℕ) → j < nproc → IsChild t c j → (t.procs j).state ≢ zombie
    alive j p m = ground (arith, scan_children-none t.procs c nproc 0 false (ap (λ r. r.0) e) j)

    child : (j : ℕ) × (j < nproc) × ((t.procs j).parent ≡ some c)
    child = elim (scan_children-true t.procs c nproc 0 false (ap (λ r. r.0) e) (ap (λ r. r.1) e)) [
      | inl k ↦ absurd (cc)
      | inr (j, p, m) ↦ (j, omega arith, ground arith)
    ]

module _ (v : Services) (cpu c : ℕ) (t : Table) (s : Services.Sys v) where
  abbrev WaitResult : WaitPass × Services.Sys v → Type 0
  WaitResult (w, s') = WaitSpec t cpu c w

  wait_release-Ensures :
      (w : WaitPass) → WaitSpec t cpu c w → Ensures WaitResult (wait_release v t w s)
  unfolding wait_release
  wait_release-Ensures (reaped j pid t') h =
      Ensures->>= WaitResult (Services.kfree v (t.procs j).kstack s) _ λ s₁.
        Ensures->>= WaitResult (Services.freevm v (t.procs j).pgdir s₁)
          (λ s₂. done (reaped j pid t', s₂)) λ s₂. h
  wait_release-Ensures no_children h = h
  wait_release-Ensures (asleep t') h = h

  -- A pass of `wait` by slot `c` that comes to an end has one of three answers. A pid: a zombie
  -- child had it, and its slot alone is freed: it is unused, without pid, parent, stack, name or
  -- kill, and nothing else of the table is touched. No children: the caller was killed or has no child
  -- at all, and no child is a zombie. Asleep: the caller was not killed, has a child, none of its
  -- children is a zombie, and it sleeps on its own slot, its processor is released, and no other
  -- slot is touched.
  pub wait_effect :
      (w : WaitPass) (s' : Services.Sys v) → wait v cpu c t s ≡ done (w, s') → WaitSpec t cpu c w
  unfolding wait wait_pass
  wait_effect w s' e =
      of_Ensures WaitResult
        (wait_release-Ensures _
          (wait_result-WaitSpec t cpu c (scan_children t.procs c nproc 0 false) refl))
        e
