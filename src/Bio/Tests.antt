-- ===== src/Bio/Tests.antt =====
-- Concrete caches of bio.c.
use test_ascii.Common.{◌≤◌, refl, arith, false, List, [], ◌∷◌}
use test_ascii.Bio.{
  Buf, binit_from, find_cached, recycle, or_recycle, bget, bget_found, bget_recycled,
}
use test_ascii.Bio.Once.{copies, Reach, initial, got, cached_once}

-- A cache of two buffers, both in use for blocks 5 and 6.
abbrev both_used : List Buf
both_used =
    record { id = 1; dev = 1; blockno = 6; refcnt = 1; valid = false; dirty = false }
    ∷ record { id = 0; dev = 1; blockno = 5; refcnt = 1; valid = false; dirty = false }
    ∷ []

Reach-both_used : Reach 2 both_used
unfolding bget bget_found find_cached recycle or_recycle bget_recycled binit_from
Reach-both_used =
    got 1 6 1
      (record { id = 1; dev = 0; blockno = 0; refcnt = 0; valid = false; dirty = false }
        ∷ record { id = 0; dev = 1; blockno = 5; refcnt = 1; valid = false; dirty = false }
        ∷ [])
      both_used (got 1 5 0 _ _ initial refl) refl

cached_once_example : copies 1 5 both_used ≤ 1
cached_once_example = cached_once 1 5 Reach-both_used (λ e. absurd (omega arith))
