-- ===== src/Log/Atomic/Crash.antt =====
-- Crash safety: commit, crash, recover, crash again, recover.
use test_ascii.Common.{
  ℕ, ◌+◌, ◌≡◌, ◌≢◌, refl, sym, ◌∙◌, ap, ◌<◌, ◌≤◌, ◌⊎◌, inl, inr, arith, le→ltb, lt→ltb,
}
use native.Mathlib.Decide.{dec_lt}
use test_ascii.Log.{Log, commit, recover_from_log, reboot}
use test_ascii.Log.View.{view, IsListed, view_empty, empty-IsListed, Heads-IsListed}
use test_ascii.Log.Atomic.Recover.{
  disk_n, disk_block, recover_view, complete-disk, recovered-IsListed, recovered-start,
  recovered-size,
}
use test_ascii.Log.Atomic.Commit.{
  cleared, early-head, early-disk, late-count, stays-Heads, late-listed, late-unlisted,
  cleared-kept,
}

-- What the disk means after `commit`, whatever the power that was left for it.
record Committed (l d : Log) : Type 0 where
  start_kept : d.start ≡ l.start
  size_kept : d.size ≡ l.size
  listed : IsListed l.start l.size (d.disk l.start 0) (λ i. d.disk l.start (i + 1))
  old :
      l.power ≤ l.n
      → (b : ℕ) → (b < l.start) ⊎ (l.start + l.size ≤ b)
      → view d.disk l.start b ≡ l.disk b
  new : l.n < l.power → (i : ℕ) → i < l.n → view d.disk l.start (l.block i) ≡ l.cache (l.block i)
  rest :
      l.n < l.power
      → (b : ℕ) → (b < l.start) ⊎ (l.start + l.size ≤ b)
      → ((i : ℕ) → i < l.n → l.block i ≢ b)
      → view d.disk l.start b ≡ l.disk b

module _ (l : Log) (listed : IsListed l.start l.size l.n l.block)
    (idle : l.disk l.start 0 ≡ 0) where
  cleared-Committed : Committed l (cleared l listed)
  cleared-Committed =
      let fits = listed.fits in
      record {
        start_kept = (cleared-kept l listed).0;
        size_kept = (cleared-kept l listed).1;
        listed = elim (dec_lt l.n l.power) [
          | no early ↦
              empty-IsListed l.start l.size _ _
                (ap (λ block. block 0) (early-head l listed (omega arith)) ∙ idle) (omega arith)
          | yes late ↦ elim (dec_lt (l.n + l.n + 1) l.power) [
            | yes h ↦ empty-IsListed l.start l.size _ _ (late-count l listed late h) (omega arith)
            | no h ↦ Heads-IsListed l.size (stays-Heads l listed late (omega arith)) listed
          ]
        ];
        old = λ early b out.
            view_empty _ l.start b (ap (λ block. block 0) (early-head l listed early) ∙ idle)
            ∙ early-disk l listed early b out;
        new = λ late i p. late-listed l listed late i p;
        rest = λ late b out fresh. late-unlisted l listed late b out fresh;
      }

  -- With nothing in the log a commit does nothing.
  idle-Committed : l.n ≡ 0 → Committed l l
  idle-Committed z =
      let fits = listed.fits in
      record {
        start_kept = refl;
        size_kept = refl;
        listed = empty-IsListed l.start l.size _ _ idle (omega arith);
        old = λ early b out. view_empty l.disk l.start b idle;
        new = λ late i p. absurd (omega arith);
        rest = λ late b out fresh. view_empty l.disk l.start b idle;
      }

  commit-Committed : Committed l (commit l)
  unfolding commit
  commit-Committed = elim (dec_lt 0 l.n) [
    | yes h ↦ rw (lt→ltb 0 l.n h) cleared-Committed
    | no h ↦ rw (le→ltb 0 l.n (omega arith)) (idle-Committed (omega arith))
  ]

module _ (l : Log) (listed : IsListed l.start l.size l.n l.block) (idle : l.disk l.start 0 ≡ 0)
    (q r : ℕ) (enough : l.size ≤ r) where
  -- The disk after `commit`, after a recovery that power may interrupt, and after one that it
  -- does not.
  abbrev committed : Log
  committed = commit l

  abbrev once : Log
  once = recover_from_log (reboot q committed)

  abbrev twice : Log
  twice = recover_from_log (reboot r once)

  c : Committed l committed
  c = commit-Committed l listed idle

  committed-IsListed :
      IsListed committed.start committed.size (disk_n committed) (disk_block committed)
  committed-IsListed = rw (c.start_kept, c.size_kept) c.listed

  once-IsListed : IsListed once.start once.size (disk_n once) (disk_block once)
  once-IsListed = recovered-IsListed committed q committed-IsListed

  once-start : once.start ≡ l.start
  once-start = recovered-start committed q committed-IsListed ∙ c.start_kept

  once-size : once.size ≡ l.size
  once-size = recovered-size committed q committed-IsListed ∙ c.size_kept

  -- In the end each block outside the log is what the disk meant right after the crash.
  twice-disk :
      (b : ℕ)
      → (b < l.start) ⊎ (l.start + l.size ≤ b)
      → twice.disk b ≡ view committed.disk l.start b
  twice-disk b out =
      let fits = listed.fits in
      let a : view once.disk committed.start b ≡ view committed.disk committed.start b =
        recover_view committed q committed-IsListed b (λ e. omega (arith, c.start_kept)) in
      complete-disk once r once-IsListed b (omega (arith, once-IsListed.fits, once-size))
        (λ e. omega (arith, once-start))
      ∙ ap (λ s. view once.disk s b) (once-start ∙ sym c.start_kept)
      ∙ a
      ∙ ap (λ s. view committed.disk s b) c.start_kept

  -- A transaction is atomic under crashes. Take a log whose disk header is empty and whose list in
  -- memory has distinct blocks outside the log that fit; let power fail after any number of the
  -- disk writes of `commit`, and again after any number of the writes of the recovery that
  -- follows, and let a second recovery finish. If the first failure came before the write of the
  -- header (`power ≤ n`), every block outside the log is as it was before the commit. If it came
  -- later or not at all, every listed block has the content that the cache had for it, and every
  -- other block outside the log is as before.
  pub crash_safe :
      ((l.power ≤ l.n)
        × ((b : ℕ) → (b < l.start) ⊎ (l.start + l.size ≤ b) → twice.disk b ≡ l.disk b))
      ⊎ ((l.n < l.power)
          × ((i : ℕ) → i < l.n → twice.disk (l.block i) ≡ l.cache (l.block i))
          × ((b : ℕ)
              → (b < l.start) ⊎ (l.start + l.size ≤ b)
              → ((i : ℕ) → i < l.n → l.block i ≢ b)
              → twice.disk b ≡ l.disk b))
  crash_safe = elim (dec_lt l.n l.power) [
    | no h ↦
        let early : l.power ≤ l.n = omega arith in
        inl (early, λ b out. twice-disk b out ∙ c.old early b out)
    | yes late ↦ inr (
      late,
      λ i p. twice-disk (l.block i) (listed.outside i p) ∙ c.new late i p,
      λ b out fresh. twice-disk b out ∙ c.rest late b out fresh,
    )
  ]
