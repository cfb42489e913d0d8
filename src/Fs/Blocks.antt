-- ===== src/Fs/Blocks.antt =====
-- fs.c: `bzero`, `balloc` and `bfree`.
use test_ascii.Common.{
  ℕ, zero, suc, ◌+◌, ◌/◌, ◌%◌, Bool, not, Option, none, some, ltb, if◌then◌else◌, Outcome, done,
  panic,
}
use test_ascii.Common.Arrays.{update}
use test_ascii.Fs.{Superblock, Disk, bblock, bpb, poke, log_write}
use test_ascii.Fs.Bits.{is_set, set_bit, clear_bit}

unfoldable pub bzero : ℕ → Disk → Disk
unfolding log_write
bzero b d = log_write b (record d { blocks = update d.blocks b (λ _. 0) })

module _ (sb : Superblock) where
  -- `bp->data[bi/8] & m`, for `bp` the part of the free map with the bit of block `b`.
  unfoldable pub map_bit : Disk → ℕ → ℕ → Bool
  unfolding is_set
  map_bit d b bi = is_set (d.blocks (bblock sb b) (bi / 8)) (bi % 8)

  -- The inner loop of `balloc`: `n` bits from `bi` on, in the part of the map for block `b`.
  unfoldable pub scan_bits : Disk → ℕ → ℕ → ℕ → Option ℕ
  unfolding map_bit
  scan_bits d b zero bi = none
  scan_bits d b (suc n) bi =
      let rest = scan_bits d b n (bi + 1) in
      if ltb (b + bi) sb.size then (if not (map_bit d b bi) then some bi else rest) else none

  unfoldable pub scan_next : ℕ → Option ℕ → Option (ℕ × ℕ) → Option (ℕ × ℕ)
  scan_next b (some bi) rest = some (b, bi)
  scan_next b none rest = rest

  -- The outer loop, of at most `n` passes from `b` on: the `b` and `bi` of a free block.
  unfoldable pub scan_map : Disk → ℕ → ℕ → Option (ℕ × ℕ)
  unfolding scan_bits scan_next
  scan_map d zero b = none
  scan_map d (suc n) b =
      let rest = scan_map d n (b + bpb) in
      if ltb b sb.size then scan_next b (scan_bits d b bpb 0) rest else none

  -- `bp->data[bi/8] |= m; log_write(bp)`
  unfoldable pub mark : ℕ → ℕ → Disk → Disk
  unfolding poke set_bit log_write
  mark b bi d =
      let bp = bblock sb b in
      log_write bp (poke bp (bi / 8) (set_bit (d.blocks bp (bi / 8)) (bi % 8)) d)

  unfoldable pub balloc_found : Disk → Option (ℕ × ℕ) → Outcome (ℕ × Disk)
  unfolding mark bzero
  balloc_found d none = panic
  balloc_found d (some (b, bi)) = done (b + bi, bzero (b + bi) (mark b bi d))

  unfoldable pub balloc : Disk → Outcome (ℕ × Disk)
  unfolding balloc_found scan_map
  balloc d = balloc_found d (scan_map d (sb.size / bpb + 1) 0)

  unfoldable pub bfree : ℕ → Disk → Outcome Disk
  unfolding map_bit poke clear_bit log_write
  bfree b d =
      let bp = bblock sb b in
      let bi = b % bpb in
      if not (map_bit d b bi)
      then panic
      else done (log_write bp (poke bp (bi / 8) (clear_bit (d.blocks bp (bi / 8)) (bi % 8)) d))
