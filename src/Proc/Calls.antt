-- ===== src/Proc/Calls.antt =====
-- proc.c: the whole of `allocproc`, `fork`, `exit` and `wait`, with the calls of the other parts.
use test_ascii.Common.{
  ℕ, zero, suc, ◌+◌, Option, none, some, minus_one, points_to, if◌then◌else◌, Outcome, done, panic,
  ◌>>=◌,
}
use test_ascii.Proc.Types.{Table, nofile}
use test_ascii.Proc.Life.{
  Services, claim, find_unused, set_state_unused, set_kstack, set_copy, set_runnable, unclaim,
  retire, exit_locked, WaitPass, reaped, no_children, asleep, wait_pass,
}

module _ (v : Services) where
  open v use {Sys, kalloc, kfree, copyuvm, freevm, filedup, fileclose, idup, put_cwd}

  unfoldable pub alloc_stack : ℕ → Table → Option ℕ × Sys → Option ℕ × Table × Sys
  unfolding set_state_unused set_kstack
  alloc_stack i t (none, s) = (none, set_state_unused i t, s)
  alloc_stack i t (some page, s) = (some i, set_kstack i page t, s)

  unfoldable pub alloc_found : Option ℕ → Table → Sys → Option ℕ × Table × Sys
  unfolding alloc_stack claim
  alloc_found none t s = (none, t, s)
  alloc_found (some i) t s = alloc_stack i (claim i t) (kalloc s)

  unfoldable pub allocproc : Table → Sys → Option ℕ × Table × Sys
  unfolding alloc_found find_unused
  allocproc t s = alloc_found (find_unused t) t s

  -- `filedup` of each open file, `n` descriptors from `fd` on.
  unfoldable pub dup_files : (ℕ → Option ℕ) → ℕ → ℕ → Sys → Outcome Sys
  dup_files ofile zero fd s = done s
  dup_files ofile (suc n) fd s = elim (ofile fd) [
    | none ↦ dup_files ofile n (fd + 1) s
    | some f ↦ filedup f s >>= λ s'. dup_files ofile n (fd + 1) s'
  ]

  unfoldable pub fork_copied : ℕ → ℕ → Table → Option ℕ × Sys → Outcome (ℕ × Table × Sys)
  unfolding unclaim dup_files set_copy set_runnable
  fork_copied c n t (none, s) =
      kfree (t.procs n).kstack s >>= λ s'. done (minus_one, unclaim n t, s')
  fork_copied c n t (some pgdir, s) = do
    s₁ ← dup_files (t.procs c).ofile nofile 0 s
    s₂ ← idup (t.procs c).cwd s₁
    done ((t.procs n).pid, set_runnable n (set_copy c n (some pgdir) t), s₂)

  unfoldable pub fork_alloc : ℕ → Option ℕ × Table × Sys → Outcome (ℕ × Table × Sys)
  unfolding fork_copied
  fork_alloc c (none, t, s) = done (minus_one, t, s)
  fork_alloc c (some n, t, s) =
      copyuvm (t.procs c).pgdir (t.procs c).sz s >>= λ r. fork_copied c n t r

  -- `fork` by the process of slot `c`.
  unfoldable pub fork : ℕ → Table → Sys → Outcome (ℕ × Table × Sys)
  unfolding fork_alloc allocproc
  fork c t s = fork_alloc c (allocproc t s)

  -- `fileclose` of each open file, `n` descriptors from `fd` on.
  unfoldable pub close_files : (ℕ → Option ℕ) → ℕ → ℕ → Sys → Outcome Sys
  close_files ofile zero fd s = done s
  close_files ofile (suc n) fd s = elim (ofile fd) [
    | none ↦ close_files ofile n (fd + 1) s
    | some f ↦ fileclose f s >>= λ s'. close_files ofile n (fd + 1) s'
  ]

  -- `exit` by the process of slot `c` on processor `cpu`.
  unfoldable pub exit : ℕ → ℕ → Table → Sys → Outcome (Table × Sys)
  unfolding close_files exit_locked retire
  exit cpu c t s = if points_to t.initproc c then panic else do
    s₁ ← close_files (t.procs c).ofile nofile 0 s
    s₂ ← put_cwd (t.procs c).cwd s₁
    done (exit_locked cpu c (retire c t), s₂)

  -- A pass of `wait`, with the pages of the reaped process given back.
  unfoldable pub wait_release : Table → WaitPass → Sys → Outcome (WaitPass × Sys)
  wait_release t (reaped j pid t') s = do
    s₁ ← kfree (t.procs j).kstack s
    s₂ ← freevm (t.procs j).pgdir s₁
    done (reaped j pid t', s₂)
  wait_release t no_children s = done (no_children, s)
  wait_release t (asleep t') s = done (asleep t', s)

  unfoldable pub wait : ℕ → ℕ → Table → Sys → Outcome (WaitPass × Sys)
  unfolding wait_release wait_pass
  wait cpu c t s = wait_release t (wait_pass cpu c t) s
