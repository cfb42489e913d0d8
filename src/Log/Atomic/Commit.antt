-- ===== src/Log/Atomic/Commit.antt =====
-- `commit`, cut short after any number of writes: the write of the header decides.
use test_ascii.Common.{ℕ, ◌+◌, ◌-◌, ◌≡◌, ◌≢◌, refl, sym, ◌∙◌, ap, ◌<◌, ◌≤◌, ◌⊎◌, inl, inr, arith}
use native.Mathlib.Decide.{dec_lt}
use test_ascii.Log.{Log, write_head, head_block, install_trans, write_log}
use test_ascii.Log.View.{
  view, IsListed, Heads, view_listed, view_unlisted, view_empty, listed_cases,
}
use test_ascii.Log.Frames.{Copied, copies-Copied, install_from-copies, write_log_from-copies}
use test_ascii.Log.Atomic.Recover.{write_head-disk, write_head-Kept}

pub write_head-power : (l : Log) → (write_head l).power ≡ l.power - 1
unfolding write_head
write_head-power l = refl

pub write_head-cache : (l : Log) (b : ℕ) → b ≢ l.start → (write_head l).cache b ≡ l.cache b
unfolding write_head
write_head-cache l b ne = ground arith

head_block-entry : (l : Log) (i : ℕ) → i < l.n → head_block l (i + 1) ≡ l.block i
head_block-entry l i p = let e : i + 1 - 1 ≡ i = omega arith in rw e (ground arith)

module _ (l : Log) (listed : IsListed l.start l.size l.n l.block) where
  abbrev pub logged : Log
  logged = write_log l

  abbrev pub headed : Log
  headed = write_head logged

  abbrev pub moved : Log
  moved = install_trans headed

  abbrev pub cleared : Log
  cleared = write_head (record moved { n = 0 })

  logged-Copied : Copied l.block (λ i. l.start + i + 1) 0 l.n l logged
  unfolding write_log
  logged-Copied = rw (write_log_from-copies l.n 0 l) (
      copies-Copied _ _ l.n 0 l.n l (omega arith) (record {
        dst_distinct = λ i j p q r s e. omega arith;
        src_not_dst = λ i j p q r s e. ground (arith, listed.outside i, listed.fits);
      }))

  headed-start : headed.start ≡ l.start
  headed-start = (write_head-Kept logged).start_kept ∙ logged-Copied.kept.start_kept

  headed-n : headed.n ≡ l.n
  headed-n = (write_head-Kept logged).n_kept ∙ logged-Copied.kept.n_kept

  headed-block : (i : ℕ) → headed.block i ≡ l.block i
  headed-block i = (write_head-Kept logged).block_kept i ∙ logged-Copied.kept.block_kept i

  headed-power : headed.power ≡ l.power - l.n - 1
  headed-power = omega (arith, write_head-power logged, logged-Copied.power_left)

  headed-cache : (i : ℕ) → i < l.n → headed.cache (headed.start + i + 1) ≡ l.cache (l.block i)
  headed-cache i p = rw headed-start (
      write_head-cache logged (l.start + i + 1) (omega (arith, logged-Copied.kept.start_kept))
      ∙ logged-Copied.cache_in i (omega arith) p)

  moved-Copied : Copied (λ i. headed.start + i + 1) headed.block 0 l.n headed moved
  unfolding install_trans
  moved-Copied = rw (install_from-copies headed.n 0 headed) (
      copies-Copied _ _ headed.n 0 l.n headed (omega (arith, headed-n)) (record {
        dst_distinct =
            λ i j p q r s e. listed.distinct i j r s (sym (headed-block i) ∙ e ∙ headed-block j);
        src_not_dst = λ i j p q r s e.
            ground (arith, listed.outside j, listed.fits, headed-block j, headed-start);
      }))

  moved-power : moved.power ≡ l.power - l.n - 1 - l.n
  moved-power = omega (arith, moved-Copied.power_left, headed-power)

  pub moved-start : moved.start ≡ l.start
  moved-start = moved-Copied.kept.start_kept ∙ headed-start

  -- Where a block is in neither copying loop's way.
  logged_else : (b : ℕ) → (b ≤ l.start) ⊎ (l.start + l.size ≤ b) → logged.disk b ≡ l.disk b
  logged_else b out = logged-Copied.disk_else b (λ i p q e. omega (arith, listed.fits))

  headed_else : (b : ℕ) → b ≢ l.start → headed.disk b ≡ logged.disk b
  headed_else b ne = ground (arith, write_head-disk logged b, logged-Copied.kept.start_kept)

  moved_else : (b : ℕ) → ((i : ℕ) → i < l.n → l.block i ≢ b) → moved.disk b ≡ headed.disk b
  moved_else b h = moved-Copied.disk_else b (λ i p q e. h i q (sym (headed-block i) ∙ e))

  cleared_else : (b : ℕ) → b ≢ l.start → cleared.disk b ≡ moved.disk b
  cleared_else b ne = ground (arith, write_head-disk (record moved { n = 0 }) b, moved-start)

  log_fresh : (b : ℕ) → l.start ≤ b → b < l.start + l.size → (i : ℕ) → i < l.n → l.block i ≢ b
  log_fresh b p q i r e = absurd (ground (arith, listed.outside i r))

  -- Unlisted blocks outside the log keep their contents throughout.
  unlisted-disk :
      (b : ℕ)
      → (b < l.start) ⊎ (l.start + l.size ≤ b)
      → ((i : ℕ) → i < l.n → l.block i ≢ b)
      → cleared.disk b ≡ l.disk b
  unlisted-disk b out fresh =
      let ne : b ≢ l.start = λ e. omega (arith, listed.fits) in
      cleared_else b ne ∙ moved_else b fresh ∙ headed_else b ne ∙ logged_else b (omega arith)

  -- The power failed before the header was written.
  module _ (early : l.power ≤ l.n) where
    pub early-head : cleared.disk l.start ≡ l.disk l.start
    early-head =
        let fits = listed.fits in
        let a : cleared.disk l.start ≡ moved.disk l.start =
          ground (arith, write_head-disk (record moved { n = 0 }) l.start, moved-power) in
        let b : headed.disk l.start ≡ logged.disk l.start =
          ground (arith, write_head-disk logged l.start, logged-Copied.power_left) in
        a
        ∙ moved_else l.start (log_fresh l.start (omega arith) (omega arith))
        ∙ b
        ∙ logged_else l.start (omega arith)

    pub early-disk : (b : ℕ) → (b < l.start) ⊎ (l.start + l.size ≤ b) → cleared.disk b ≡ l.disk b
    early-disk b out = elim (listed_cases l.n l.block b) [
      | inr fresh ↦ unlisted-disk b out fresh
      | inl (i, p, e) ↦
          let ne : b ≢ l.start = λ e. omega (arith, listed.fits) in
          let missed : moved.disk b ≡ headed.disk b =
            rw (← (headed-block i ∙ e))
              (moved-Copied.missed i (omega arith) p (omega (arith, headed-power))) in
          cleared_else b ne ∙ missed ∙ headed_else b ne ∙ logged_else b (omega arith)
    ]

  -- The header was written, and the copies in the log before it.
  module _ (late : l.n < l.power) where
    late-copy : (i : ℕ) → i < l.n → headed.disk (l.start + i + 1) ≡ l.cache (l.block i)
    late-copy i p =
        headed_else (l.start + i + 1) (λ e. omega arith)
        ∙ logged-Copied.reached i (omega arith) p (omega arith)

    late-Heads : Heads headed.disk l.start l.n l.block
    late-Heads =
        let head : headed.disk l.start ≡ head_block logged = ground (
          arith,
          write_head-disk logged l.start,
          logged-Copied.power_left,
          logged-Copied.kept.start_kept,
        ) in
        record {
          count = ap (λ block. block 0) head ∙ logged-Copied.kept.n_kept;
          entries = λ i p.
              ap (λ block. block (i + 1)) head
              ∙ head_block-entry logged i (omega (arith, logged-Copied.kept.n_kept))
              ∙ logged-Copied.kept.block_kept i;
        }

    late-stays : l.power ≤ l.n + l.n + 1 → (b : ℕ) → cleared.disk b ≡ moved.disk b
    late-stays h b = ground (arith, write_head-disk (record moved { n = 0 }) b, moved-power)

    pub late-count : l.n + l.n + 1 < l.power → cleared.disk l.start 0 ≡ 0
    late-count h =
        ground (arith, write_head-disk (record moved { n = 0 }) l.start, moved-power, moved-start)

    -- Power failed before the header was cleared: the header lists the copies.
    pub stays-Heads : l.power ≤ l.n + l.n + 1 → Heads cleared.disk l.start l.n l.block
    stays-Heads h =
        let fits = listed.fits in
        let head : cleared.disk l.start ≡ headed.disk l.start =
          late-stays h l.start
          ∙ moved_else l.start (log_fresh l.start (omega arith) (omega arith)) in
        record {
          count = ap (λ block. block 0) head ∙ late-Heads.count;
          entries = λ i p. ap (λ block. block (i + 1)) head ∙ late-Heads.entries i p;
        }

    pub late-listed :
        (i : ℕ) → i < l.n → view cleared.disk l.start (l.block i) ≡ l.cache (l.block i)
    late-listed i p = elim (dec_lt (l.n + l.n + 1) l.power) [
      | yes h ↦
          view_empty cleared.disk l.start (l.block i) (late-count h)
          ∙ cleared_else (l.block i) (λ e. ground (arith, listed.outside i p, listed.fits))
          ∙ installed i p h
      | no h ↦
          let fits = listed.fits in
          view_listed (stays-Heads (omega arith)) l.size i listed p
          ∙ late-stays (omega arith) (l.start + i + 1)
          ∙ moved_else (l.start + i + 1) (log_fresh (l.start + i + 1) (omega arith) (omega arith))
          ∙ late-copy i p
    ]
      where
        installed :
            (i : ℕ)
            → i < l.n
            → l.n + l.n + 1 < l.power
            → moved.disk (l.block i) ≡ l.cache (l.block i)
        installed i p h = rw (← headed-block i) (
            moved-Copied.reached i (omega arith) p (omega (arith, headed-power))
            ∙ headed-cache i p
            ∙ ap l.cache (sym (headed-block i)))

    pub late-unlisted :
        (b : ℕ)
        → (b < l.start) ⊎ (l.start + l.size ≤ b)
        → ((i : ℕ) → i < l.n → l.block i ≢ b)
        → view cleared.disk l.start b ≡ l.disk b
    late-unlisted b out fresh = elim (dec_lt (l.n + l.n + 1) l.power) [
      | yes h ↦ view_empty cleared.disk l.start b (late-count h) ∙ unlisted-disk b out fresh
      | no h ↦ view_unlisted (stays-Heads (omega arith)) b fresh ∙ unlisted-disk b out fresh
    ]

  pub cleared-kept : (cleared.start ≡ l.start) × (cleared.size ≡ l.size)
  cleared-kept = (
    (write_head-Kept (record moved { n = 0 })).start_kept ∙ moved-start,
    (write_head-Kept (record moved { n = 0 })).size_kept
        ∙ moved-Copied.kept.size_kept
        ∙ (write_head-Kept logged).size_kept
        ∙ logged-Copied.kept.size_kept,
  )
