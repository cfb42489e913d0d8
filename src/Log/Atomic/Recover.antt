-- ===== src/Log/Atomic/Recover.antt =====
-- `recover_from_log`, run after a crash on a disk with a well-formed header, and cut short by
-- another crash after any number of writes.
use test_ascii.Common.{
  ℕ, ◌+◌, ◌-◌, ◌≡◌, ◌≢◌, refl, sym, ◌∙◌, ap, ◌<◌, ◌≤◌, inl, inr, arith, if◌then◌else◌, ◌==◌,
}
use native.Mathlib.Decide.{dec_lt}
use test_ascii.Log.{Log, read_head, write_head, head_block, install_trans, recover_from_log, reboot}
use test_ascii.Log.View.{
  view, IsListed, Heads, view_listed, view_unlisted, view_empty, listed_cases, empty-IsListed,
  Heads-IsListed,
}
use test_ascii.Log.Frames.{Kept, IsApart, Copied, copies-Copied, install_from-copies}

-- What `write_head` does to the disk.
module _ (l : Log) where
  pub write_head-disk :
      (b : ℕ)
      → (write_head l).disk b
        ≡ (if l.power == 0 then l.disk b else if l.start == b then head_block l else l.disk b)
  unfolding write_head
  write_head-disk b = ground arith

  pub write_head-Kept : Kept l (write_head l)
  unfolding write_head
  write_head-Kept = record {
    start_kept = refl;
    size_kept = refl;
    n_kept = refl;
    block_kept = λ i. refl;
  }

-- The entries that the header of a disk lists.
abbrev pub disk_n : Log → ℕ
disk_n l = l.disk l.start 0

abbrev pub disk_block : Log → ℕ → ℕ
disk_block l i = l.disk l.start (i + 1)

pub disk-Heads : (l : Log) → Heads l.disk l.start (disk_n l) (disk_block l)
disk-Heads l = record { count = refl; entries = λ i p. refl }

module _ (l : Log) (power : ℕ) (listed : IsListed l.start l.size (disk_n l) (disk_block l)) where
  abbrev read : Log
  read = read_head (reboot power l)

  abbrev installed : Log
  installed = install_trans read

  read-Apart : IsApart (λ i. read.start + i + 1) read.block 0 (disk_n l)
  unfolding read_head reboot
  read-Apart = record {
    dst_distinct = λ i j p q r s e. listed.distinct i j r s (ground arith);
    src_not_dst = λ i j p q r s e. ground (arith, listed.outside j, listed.fits);
  }

  installed-Copied : Copied (λ i. read.start + i + 1) read.block 0 (disk_n l) read installed
  unfolding install_trans
  installed-Copied = rw (install_from-copies read.n 0 read) (
      copies-Copied _ _ read.n 0 (disk_n l) read (unfold read_head reboot in omega arith)
        read-Apart)

  abbrev recovered : Log
  recovered = recover_from_log (reboot power l)

  read-block : (i : ℕ) → i < disk_n l → read.block i ≡ disk_block l i
  unfolding read_head reboot
  read-block i p = ground arith

  -- Blocks that the header does not list are as before, those of the log region among them.
  installed_else :
      (b : ℕ) → ((i : ℕ) → i < disk_n l → disk_block l i ≢ b) → installed.disk b ≡ l.disk b
  installed_else b h =
      unfold read_head reboot in
      installed-Copied.disk_else b (λ i p q e. h i q (sym (read-block i q) ∙ e))

  installed_reached :
      (i : ℕ)
      → i < disk_n l
      → i < power
      → installed.disk (disk_block l i) ≡ l.disk (l.start + i + 1)
  installed_reached i p q =
      rw (← read-block i p)
        (unfold read_head reboot in installed-Copied.reached i (omega arith) p (omega arith))

  installed-power : installed.power ≡ power - disk_n l
  installed-power = unfold read_head reboot in omega (arith, installed-Copied.power_left)

  installed-start : installed.start ≡ l.start
  installed-start = unfold read_head reboot in installed-Copied.kept.start_kept

  recovered-disk :
      (b : ℕ)
      → recovered.disk b ≡ (
          if installed.power == 0
          then installed.disk b
          else if installed.start == b
          then head_block (record installed { n = 0 })
          else installed.disk b)
  unfolding recover_from_log
  recovered-disk b = write_head-disk (record installed { n = 0 }) b

  -- The blocks of the log are never listed.
  log_fresh :
      (b : ℕ) → l.start ≤ b → b < l.start + l.size → (i : ℕ) → i < disk_n l → disk_block l i ≢ b
  log_fresh b p q i r e = absurd (ground (arith, listed.outside i r))

  cut_short-disk : power ≤ disk_n l → (b : ℕ) → recovered.disk b ≡ installed.disk b
  cut_short-disk h b = ground (arith, recovered-disk b, installed-power)

  cut_short-log :
      power ≤ disk_n l → (b : ℕ) → l.start ≤ b → b < l.start + l.size → recovered.disk b ≡ l.disk b
  cut_short-log h b p q = cut_short-disk h b ∙ installed_else b (log_fresh b p q)

  -- Power failed before the header was cleared: the header stands, and so do the copies.
  pub cut_short-Heads : power ≤ disk_n l → Heads recovered.disk l.start (disk_n l) (disk_block l)
  cut_short-Heads h =
      let head = cut_short-log h l.start (omega arith) (omega (arith, listed.fits)) in
      record {
        count = ap (λ block. block 0) head;
        entries = λ i p. ap (λ block. block (i + 1)) head;
      }

  cut_short-view :
      (b : ℕ) → power ≤ disk_n l → view recovered.disk l.start b ≡ view l.disk l.start b
  cut_short-view b h = elim (listed_cases (disk_n l) (disk_block l) b) [
    | inl (i, p, e) ↦ rw (← e) (
        view_listed (cut_short-Heads h) l.size i listed p
        ∙ cut_short-log h (l.start + i + 1) (omega arith) (omega (arith, listed.fits))
        ∙ sym (view_listed (disk-Heads l) l.size i listed p))
    | inr fresh ↦
        view_unlisted (cut_short-Heads h) b fresh
        ∙ cut_short-disk h b
        ∙ installed_else b fresh
        ∙ sym (view_unlisted (disk-Heads l) b fresh)
  ]

  -- The header was cleared: all copies are installed, and each block is what it stood for.
  pub complete-disk :
      (b : ℕ) → disk_n l < power → b ≢ l.start → recovered.disk b ≡ view l.disk l.start b
  complete-disk b h out = elim (listed_cases (disk_n l) (disk_block l) b) [
    | inl (i, p, e) ↦
        same
        ∙ (rw (← e) (
            installed_reached i p (omega arith)
            ∙ sym (view_listed (disk-Heads l) l.size i listed p)))
    | inr fresh ↦ same ∙ installed_else b fresh ∙ sym (view_unlisted (disk-Heads l) b fresh)
  ]
    where
      same : recovered.disk b ≡ installed.disk b
      same = ground (arith, recovered-disk b, installed-power, installed-start)

  pub complete-count : disk_n l < power → recovered.disk l.start 0 ≡ 0
  complete-count h = ground (arith, recovered-disk l.start, installed-power, installed-start)

  -- Recovery that loses power after any number of writes leaves a disk that means the same.
  pub recover_view : (b : ℕ) → b ≢ l.start → view recovered.disk l.start b ≡ view l.disk l.start b
  recover_view b out = elim (dec_lt (disk_n l) power) [
    | yes h ↦ view_empty recovered.disk l.start b (complete-count h) ∙ complete-disk b h out
    | no h ↦ cut_short-view b (omega arith)
  ]

  pub recovered-start : recovered.start ≡ l.start
  unfolding recover_from_log
  recovered-start = (write_head-Kept (record installed { n = 0 })).start_kept ∙ installed-start

  pub recovered-size : recovered.size ≡ l.size
  unfolding recover_from_log
  recovered-size =
      (write_head-Kept (record installed { n = 0 })).size_kept
      ∙ unfold read_head reboot in installed-Copied.kept.size_kept

  -- The header that a recovery leaves is well formed again.
  pub recovered-IsListed :
      IsListed recovered.start recovered.size (disk_n recovered) (disk_block recovered)
  recovered-IsListed =
      rw (recovered-start, recovered-size)
        (elim (dec_lt (disk_n l) power) [
          | yes h ↦
              empty-IsListed l.start l.size _ _ (complete-count h) (omega (arith, listed.fits))
          | no h ↦ Heads-IsListed l.size (cut_short-Heads (omega arith)) listed
        ])
