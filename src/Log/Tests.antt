-- ===== src/Log/Tests.antt =====
-- Concrete logs of log.c.
use test_ascii.Common.{
  ℕ, ◌+◌, ◌≡◌, ◌≢◌, ◌≤◌, ◌<◌, ◌⊎◌, inr, refl, arith, false, [], panic, ◌==◌, if◌then◌else◌,
}
use test_ascii.Log.{Log, commit, recover_from_log, reboot, log_write, begin_op}
use test_ascii.Log.View.{IsListed}
use test_ascii.Log.Atomic.Crash.{crash_safe}
use test_ascii.Log.Space.{log_write_never_full, empty, more, begun}

-- A transaction of two blocks, 50 and 51, in a log of 31 blocks; power for three writes is left.
abbrev busy : Log
busy = record {
  start = 10;
  size = 31;
  outstanding = 1;
  committing = false;
  n = 2;
  block = λ i. 50 + i;
  cache = λ b w. b + 100;
  disk = λ b w. 0;
  power = 3;
}

busy-IsListed : IsListed 10 31 2 (λ i. 50 + i)
busy-IsListed = record {
  fits = omega arith;
  outside = λ i p. inr (omega arith);
  distinct = λ i j p q e. omega arith;
}

crash_safe_example :
    ((3 ≤ 2)
      × ((b : ℕ)
          → (b < 10) ⊎ (10 + 31 ≤ b)
          → (recover_from_log (reboot 31 (recover_from_log (reboot 1 (commit busy))))).disk b
            ≡ busy.disk b))
    ⊎ ((2 < 3)
        × ((i : ℕ)
            → i < 2
            → (recover_from_log (reboot 31 (recover_from_log (reboot 1 (commit busy))))).disk
                (50 + i)
              ≡ busy.cache (50 + i))
        × ((b : ℕ)
            → (b < 10) ⊎ (10 + 31 ≤ b)
            → ((i : ℕ) → i < 2 → 50 + i ≢ b)
            → (recover_from_log (reboot 31 (recover_from_log (reboot 1 (commit busy))))).disk b
              ≡ busy.disk b))
crash_safe_example = crash_safe busy busy-IsListed refl 1 31 (omega arith)

-- A disk with a committed transaction of block 50.
abbrev crashed : Log
crashed = record busy { disk = λ b w. if b == 10 then (if w == 0 then 1 else 50) else b }

abbrev quiet : Log
quiet = record busy { n = 0; outstanding = 0 }

abbrev one_op : Log
one_op = record quiet { outstanding = 1 }

log_write_never_full_example : log_write 60 one_op ≢ panic
unfolding begin_op
log_write_never_full_example =
    log_write_never_full {start = 10} {size = 31} 0 9 60 (omega arith)
      (more (empty quiet refl refl refl refl refl) (begun quiet one_op [] refl)) refl
