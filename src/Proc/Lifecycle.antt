-- ===== src/Proc/Lifecycle.antt =====
-- `fork`, `exit` and `wait` of proc.c from call to return.
use test_ascii.Common.{
  ℕ, ◌+◌, ◌≡◌, ◌≢◌, refl, ◌⊎◌, inl, inr, Option, some, none, arith, u32, minus_one, done, Ensures,
  Ensures->>=, of_Ensures,
}
use test_ascii.Proc.Types.{Table, runnable, running, nofile}
use test_ascii.Proc.Life.{
  Services, claim, find_unused, set_kstack, set_copy, set_runnable, unclaim, set_state_unused,
}
use test_ascii.Proc.Inv.Make.{find_unused-some}
use test_ascii.Proc.Calls.{
  alloc_stack, alloc_found, allocproc, dup_files, fork_copied, fork_alloc, fork,
}

-- What a successful `fork` by slot `c` has done to the table `t`, with the child in slot `n`.
pub record Forked (t t' : Table) (c n pid : ℕ) : Type 0 where
  pub was_free : find_unused t ≡ some n
  pub child_pid : (pid ≡ t.nextpid) × ((t'.procs n).pid ≡ pid) × (t'.nextpid ≡ u32 (t.nextpid + 1))
  pub child_runnable : (t'.procs n).state ≡ runnable
  pub child_parent : (t'.procs n).parent ≡ some c
  pub child_returns_zero : (t'.procs n).tf.eax ≡ 0
  pub child_resumes : (t'.procs n).tf.eip ≡ (t.procs c).tf.eip
  pub child_size : (t'.procs n).sz ≡ (t.procs c).sz
  pub child_priority : (t'.procs n).priority ≡ (t.procs c).priority
  pub child_times :
      ((t'.procs n).wait_time ≡ 0)
      × ((t'.procs n).run_time ≡ 0)
      × ((t'.procs n).turnaround_time ≡ 0)
  pub child_clock : ((t'.procs n).creation_time ≡ t.ticks) × ((t'.procs n).last_scheduled ≡ t.ticks)
  pub others_kept : (j : ℕ) → j ≢ n → t'.procs j ≡ t.procs j

-- What a failed `fork` has done: at most one slot was taken and given back, still free, and only
-- its bookkeeping differs.
pub record NotForked (t t' : Table) : Type 0 where
  pub states_kept : (j : ℕ) → (t'.procs j).state ≡ (t.procs j).state
  pub others_kept : (j : ℕ) → find_unused t ≢ some j → t'.procs j ≡ t.procs j

-- The two ways out of `fork` once a slot and its stack are there.
unclaimed :
    (t : Table) (n page : ℕ)
    → find_unused t ≡ some n
    → NotForked t (unclaim n (set_kstack n page (claim n t)))
unfolding unclaim set_kstack claim
unclaimed t n page e =
    let free = (find_unused-some t n e).1 in
    record { states_kept = λ j. ground arith; others_kept = λ j ne. ground arith }

stackless :
    (t : Table) (n : ℕ) → find_unused t ≡ some n → NotForked t (set_state_unused n (claim n t))
unfolding set_state_unused claim
stackless t n e =
    let free = (find_unused-some t n e).1 in
    record { states_kept = λ j. ground arith; others_kept = λ j ne. ground arith }

copied :
    (t : Table) (c n page pgdir : ℕ)
    → find_unused t ≡ some n
    → (t.procs c).state ≡ running
    → Forked t
        (set_runnable n (set_copy c n (some pgdir) (set_kstack n page (claim n t))))
        c
        n
        ((set_kstack n page (claim n t)).procs n).pid
unfolding set_runnable set_copy set_kstack claim
copied t c n page pgdir e live =
    let free = (find_unused-some t n e).1 in
    record {
      was_free = e;
      child_pid = ground arith;
      child_runnable = ground arith;
      child_parent = ground arith;
      child_returns_zero = ground arith;
      child_resumes = ground arith;
      child_size = ground arith;
      child_priority = ground arith;
      child_times = ground arith;
      child_clock = ground arith;
      others_kept = λ j ne. ground arith;
    }

module _ (v : Services) where
  open v use {Sys, kalloc, kfree, copyuvm, idup}

  -- The result of `fork`, from the table that it was called on.
  abbrev ForkResult : ℕ → Table → ℕ × Table × Sys → Type 0
  ForkResult c t (pid, t', s') =
      ((pid ≡ minus_one) × NotForked t t') ⊎ ((n : ℕ) × Forked t t' c n pid)

  fork_copied_effect :
      (c n page : ℕ) (t : Table) (r : Option ℕ × Sys)
      → find_unused t ≡ some n
      → (t.procs c).state ≡ running
      → Ensures (ForkResult c t) (fork_copied v c n (set_kstack n page (claim n t)) r)
  unfolding fork_copied
  fork_copied_effect c n page t (none, s) u live =
      Ensures->>= (ForkResult c t) (kfree _ s) _ (λ s'. inl (refl, unclaimed t n page u))
  fork_copied_effect c n page t (some pgdir, s) u live =
      let t₁ = set_kstack n page (claim n t) in
      Ensures->>= (ForkResult c t) (dup_files v (t₁.procs c).ofile nofile 0 s) _ λ s₁.
        Ensures->>= (ForkResult c t) (idup (t₁.procs c).cwd s₁)
          (λ s₂. done ((t₁.procs n).pid, set_runnable n (set_copy c n (some pgdir) t₁), s₂))
          λ s₂. inr (n, copied t c n page pgdir u live)

  fork_stack_effect :
      (c n : ℕ) (t : Table) (r : Option ℕ × Sys)
      → find_unused t ≡ some n
      → (t.procs c).state ≡ running
      → Ensures (ForkResult c t) (fork_alloc v c (alloc_stack v n (claim n t) r))
  unfolding fork_alloc alloc_stack
  fork_stack_effect c n t (none, s) u live = inl (refl, stackless t n u)
  fork_stack_effect c n t (some page, s) u live =
      Ensures->>= (ForkResult c t) (copyuvm _ _ s) _ (λ r. fork_copied_effect c n page t r u live)

  fork_found_effect :
      (c : ℕ) (t : Table) (s : Sys) (o : Option ℕ)
      → find_unused t ≡ o
      → (t.procs c).state ≡ running
      → Ensures (ForkResult c t) (fork_alloc v c (alloc_found v o t s))
  unfolding alloc_found
  fork_found_effect c t s none u live =
      unfold fork_alloc in
      inl (refl, record { states_kept = λ j. refl; others_kept = λ j ne. refl })
  fork_found_effect c t s (some n) u live = fork_stack_effect c n t (kalloc s) u live

  -- `fork` by a running process either returns -1, with every slot in the state that it had and
  -- only the first free slot rewritten, or returns the next pid, with a runnable child in the
  -- first free slot that has the caller as parent, its size, instruction pointer and priority,
  -- returns 0 from its own call, has waited, run and turned around for 0 ticks, and was created
  -- and last scheduled at the current tick; all other slots are as before.
  pub fork_effect :
      (c : ℕ) (t : Table) (s : Sys) {pid : ℕ} {t' : Table} {s' : Sys}
      → (t.procs c).state ≡ running
      → fork v c t s ≡ done (pid, t', s')
      → ((pid ≡ minus_one) × NotForked t t') ⊎ ((n : ℕ) × Forked t t' c n pid)
  unfolding fork allocproc
  fork_effect c t s live =
      of_Ensures (ForkResult c t) (fork_found_effect c t s (find_unused t) refl live)
