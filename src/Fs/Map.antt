-- ===== src/Fs/Map.antt =====
-- fs.c: the free map as a set of blocks in use.
use test_ascii.Common.{ℕ, ◌%◌, ◌≡◌, ◌≢◌, ◌<◌, Bool, true}
use test_ascii.Fs.{Superblock, Disk, bblock, bpb}
use test_ascii.Fs.Blocks.{map_bit}

-- All bytes of a disk are bytes.
abbrev pub AreBytes : Disk → Type 0
AreBytes d = (b i : ℕ) → d.blocks b i < 256

module _ (sb : Superblock) where
  -- Whether block `b` is marked in the free map.
  unfoldable pub in_use : Disk → ℕ → Bool
  unfolding map_bit
  in_use d b = map_bit sb d b (b % bpb)

  -- A block outside the free map.
  abbrev pub IsOffMap : ℕ → Type 0
  IsOffMap x = (c : ℕ) → c < sb.size → bblock sb c ≢ x

  -- The blocks of the free map are marked themselves.
  abbrev pub MapInUse : Disk → Type 0
  MapInUse d = (c : ℕ) → c < sb.size → (bblock sb c < sb.size) × (in_use d (bblock sb c) ≡ true)
