-- ===== src/Proc/Adoption.antt =====
-- What `exit` of proc.c leaves behind: a zombie, its children adopted, its parent awake.
use test_ascii.Common.{
  ◌≢◌, ℕ, zero, suc, ◌+◌, ◌≡◌, refl, ◌∙◌, ◌<◌, some, none, false, arith, done, panic, Ensures,
  Ensures->>=, of_Ensures, points_to, if◌then◌else◌, ◌&&◌, ltb, leb, sub32, Bool-cases, inl, inr,
}
use test_ascii.Proc.Types.{Table, zombie, nproc, nofile}
use test_ascii.Proc.Signals.{wakeup1, wake}
use test_ascii.Proc.Sched.{switch_back}
use test_ascii.Proc.Life.{
  Services, give_to_init, reparent, reparent_from, set_zombie, exit_locked, retire, chan_of,
}
use test_ascii.Proc.Calls.{close_files, exit}
use test_ascii.Proc.Inv.{in_wait}
use test_ascii.Proc.Inv.Exit.{reparent_cases}

-- The adoption loop has seen the slots from `i` up to `m`: the children of `c` among them are
-- init's, and nothing else changed but that sleepers were woken.
record Adopted (t u : Table) (c i m : ℕ) : Type 0 where
  init_kept : u.initproc ≡ t.initproc
  parents :
      (k : ℕ)
      → (u.procs k).parent ≡ (
          if (leb i k && ltb k m) && points_to (t.procs k).parent c
          then t.initproc
          else (t.procs k).parent)
  clock_kept : (k : ℕ) → (u.procs k).turnaround_time ≡ (t.procs k).turnaround_time
  files_kept : (k fd : ℕ) → (u.procs k).ofile fd ≡ (t.procs k).ofile fd
  waits_less : (k : ℕ) → in_wait t k ≡ false → in_wait u k ≡ false

module _ (c : ℕ) where
  reparent-Adopted : (i : ℕ) (t : Table) → Adopted t (reparent c i t) c i (i + 1)
  unfolding give_to_init wakeup1 wake
  reparent-Adopted i t =
      reparent_cases c i t (λ u. Adopted t u c i (i + 1))
        (λ e. record {
          init_kept = refl;
          parents = λ k. ground arith;
          clock_kept = λ k. refl;
          files_kept = λ k fd. refl;
          waits_less = λ k h. h;
        })
        (λ e f. record {
          init_kept = refl;
          parents = λ k. ground arith;
          clock_kept = λ k. ground arith;
          files_kept = λ k fd. ground arith;
          waits_less = λ k h. ground arith;
        })
        (λ e f. record {
          init_kept = refl;
          parents = λ k. ground arith;
          clock_kept = λ k. ground arith;
          files_kept = λ k fd. ground arith;
          waits_less = λ k h. ground arith;
        })

  reparent_from-Adopted : (n i : ℕ) (t : Table) → Adopted t (reparent_from c n i t) c i (i + n)
  unfolding reparent_from
  reparent_from-Adopted zero i t = record {
    init_kept = refl;
    parents = λ k. ground arith;
    clock_kept = λ k. refl;
    files_kept = λ k fd. refl;
    waits_less = λ k h. h;
  }
  reparent_from-Adopted (suc n) i t =
      let a = reparent-Adopted i t in
      let b = reparent_from-Adopted n (i + 1) (reparent c i t) in
      record {
        init_kept = b.init_kept ∙ a.init_kept;
        parents = λ k. ground (arith, a.parents k, b.parents k, a.init_kept);
        clock_kept = λ k. b.clock_kept k ∙ a.clock_kept k;
        files_kept = λ k fd. b.files_kept k fd ∙ a.files_kept k fd;
        waits_less = λ k h. b.waits_less k (a.waits_less k h);
      }

-- What `exit` by slot `c` on processor `cpu` has done.
pub record Exited (t t' : Table) (cpu c : ℕ) : Type 0 where
  pub dead : (t'.procs c).state ≡ zombie
  pub cpu_free : t'.running_on cpu ≡ none
  pub turnaround : (t'.procs c).turnaround_time ≡ sub32 t.ticks (t.procs c).creation_time
  pub no_files : (fd : ℕ) → fd < nofile → (t'.procs c).ofile fd ≡ none
  -- A child of `c` is now init's; no other parent pointer changed.
  pub adopted :
      (k : ℕ)
      → k < nproc
      → (t'.procs k).parent
        ≡ (if points_to (t.procs k).parent c then t.initproc else (t.procs k).parent)
  -- The parent is not asleep in `wait`.
  pub parent_awake : (j : ℕ) → j < nproc → (t.procs c).parent ≡ some j → in_wait t' j ≡ false

-- From the table `u` that the adoption loop leaves.
die-Exited :
    (t u : Table) (cpu c : ℕ)
    → Adopted (wakeup1 (chan_of ((retire c t).procs c).parent) (retire c t)) u c 0 nproc
    → Exited t (switch_back cpu c (set_zombie c u)) cpu c
unfolding retire switch_back set_zombie wakeup1 wake
die-Exited t u cpu c a = record {
  dead = ground arith;
  cpu_free = ground arith;
  turnaround = ground (arith, a.clock_kept c);
  no_files = λ fd h. ground (arith, a.files_kept c fd);
  adopted = λ k h. ground (arith, a.parents k);
  parent_awake = λ j h e. ground (arith, a.waits_less j);
}

exit_locked-Exited : (t : Table) (cpu c : ℕ) → Exited t (exit_locked cpu c (retire c t)) cpu c
unfolding exit_locked
exit_locked-Exited t cpu c =
    die-Exited t _ cpu c (
      reparent_from-Adopted c nproc 0
        (wakeup1 (chan_of ((retire c t).procs c).parent) (retire c t)))

module _ (v : Services) (cpu c : ℕ) (t : Table) (s : Services.Sys v) where
  abbrev ExitResult : Table × Services.Sys v → Type 0
  ExitResult (t', s') = Exited t t' cpu c

  -- When `exit` by the process of slot `c` comes to an end, that process is not init; it is a
  -- zombie with no open file and its turnaround time set, its processor is free, its children are
  -- init's with all other parent pointers as before, and its parent is not asleep in `wait`.
  pub exit_effect :
      {t' : Table} {s' : Services.Sys v}
      → exit v cpu c t s ≡ done (t', s')
      → (t.initproc ≢ some c) × Exited t t' cpu c
  unfolding exit
  exit_effect done_ = ((λ e. init_panics e done_), of_Ensures ExitResult ends done_)
    where
      panics : t.initproc ≡ some c → exit v cpu c t s ≡ panic
      panics e = rw e (ground arith)

      init_panics :
          {t' : Table} {s' : Services.Sys v}
          → t.initproc ≡ some c
          → exit v cpu c t s ≢ done (t', s')
      init_panics e h = cc (panics e, h)

      ends : Ensures ExitResult (exit v cpu c t s)
      ends = elim (Bool-cases (points_to t.initproc c)) [
        | inl e ↦ rw e tt
        | inr e ↦ rw e (
            Ensures->>= ExitResult (close_files v (t.procs c).ofile nofile 0 s) _ λ s₁.
              Ensures->>= ExitResult (Services.put_cwd v (t.procs c).cwd s₁)
                (λ s₂. done (exit_locked cpu c (retire c t), s₂)) λ s₂. exit_locked-Exited t cpu c)
      ]
