-- ===== src/Fs/Alloc.antt =====
-- fs.c: `balloc` and `bfree` on the set of blocks in use.
use test_ascii.Common.{
  ℕ, ◌+◌, ◌/◌, ◌%◌, ◌≡◌, ◌≢◌, ◌<◌, ◌∙◌, ap, arith, true, false, not, Option, none, some, ◌==◌,
  if◌then◌else◌, Outcome, done, panic, if_lem, not-true, not-false,
}
use test_ascii.Fs.{Superblock, Disk, bblock, bpb, poke, log_write}
use test_ascii.Fs.Logs.{Logs, Logs-trans}
use test_ascii.Fs.Bits.{clear_bit-le}
use test_ascii.Fs.Blocks.{map_bit, scan_map, mark, bzero, balloc_found, balloc, bfree}
use test_ascii.Fs.Map.{AreBytes, in_use, IsOffMap, MapInUse}
use test_ascii.Fs.Scan.{Searched, scan_map-Searched}
use test_ascii.Fs.Mark.{
  mark-in_use, unmark-in_use, mark-blocks, mark-AreBytes, mark-Logs, bzero-Logs,
}

module _ (sb : Superblock) where
  -- What a `balloc` that returns block `b` has done.
  pub record Allocated (d d' : Disk) (b : ℕ) : Type 0 where
    pub below : b < sb.size
    pub was_free : in_use sb d b ≡ false
    pub first : (c : ℕ) → c < b → in_use sb d c ≡ true
    pub now : (c : ℕ) → c < sb.size → in_use sb d' c ≡ (if b == c then true else in_use sb d c)
    pub zeroed : (i : ℕ) → d'.blocks b i ≡ 0
    pub kept : (x i : ℕ) → x ≢ b → IsOffMap sb x → d'.blocks x i ≡ d.blocks x i
    pub bytes : AreBytes d'
    pub map_kept : MapInUse sb d'
    pub logs : Logs d d'

  bzero-in_use : (d : Disk) (b c : ℕ) → bblock sb c ≢ b → in_use sb (bzero b d) c ≡ in_use sb d c
  unfolding bzero in_use map_bit log_write
  bzero-in_use d b c ne = ground arith

  Allocated-found :
      (d : Disk) (a bi : ℕ)
      → AreBytes d
      → MapInUse sb d
      → Searched sb d 0 (some (a, bi))
      → Allocated d (bzero (a + bi) (mark sb a bi d)) (a + bi)
  Allocated-found d a bi bytes map (aligned, inside, below, free, before) = record {
    below = below;
    was_free = free;
    first = λ c h. before c (omega arith) h;
    now = now;
    zeroed = λ i. unfold bzero log_write in ground arith;
    kept = λ x i ne off.
        unfold bzero log_write in (ground (arith, mark-blocks sb d a bi x i (off a (omega arith))));
    bytes = λ x i. unfold bzero log_write in ground (arith, mark-AreBytes sb d a bi bytes x i);
    map_kept = λ c h. ((map c h).0, now (bblock sb c) (map c h).0 ∙ ground (arith, (map c h).1));
    logs = Logs-trans (mark-Logs sb d a bi) (bzero-Logs sb (mark sb a bi d) (a + bi));
  }
    where
      off_map : (c : ℕ) → c < sb.size → bblock sb c ≢ a + bi
      off_map c h e = ground (arith, free, ap (in_use sb d) e, (map c h).1)

      now :
          (c : ℕ)
          → c < sb.size
          → in_use sb (bzero (a + bi) (mark sb a bi d)) c
            ≡ (if a + bi == c then true else in_use sb d c)
      now c h =
          bzero-in_use (mark sb a bi d) (a + bi) c (off_map c h)
          ∙ mark-in_use sb d a bi c bytes aligned inside

  abbrev pub Balloc : Disk → Outcome (ℕ × Disk) → Type 0
  Balloc d panic = (c : ℕ) → c < sb.size → in_use sb d c ≡ true
  Balloc d (done (b, d')) = Allocated d d' b

  found-Balloc :
      (d : Disk) (o : Option (ℕ × ℕ))
      → AreBytes d
      → MapInUse sb d
      → Searched sb d 0 o
      → Balloc d (balloc_found sb d o)
  unfolding balloc_found
  found-Balloc d none bytes map full = λ c h. full c (omega arith) h
  found-Balloc d (some (a, bi)) bytes map found = Allocated-found d a bi bytes map found

  -- On a disk whose free map marks its own blocks: `balloc` panics only if every block is marked.
  -- Otherwise it returns the first block that is not, marks just this one, zeroes it, changes no
  -- other block outside the map, and logs what it changes.
  pub balloc_lem : (d : Disk) → AreBytes d → MapInUse sb d → Balloc d (balloc sb d)
  unfolding balloc
  balloc_lem d bytes map =
      found-Balloc d (scan_map sb d (sb.size / bpb + 1) 0) bytes map
        (scan_map-Searched sb d (sb.size / bpb + 1) 0 (omega arith) (omega arith))

  -- What a `bfree` of block `b` has done.
  pub record Freed (d d' : Disk) (b : ℕ) : Type 0 where
    pub was_used : in_use sb d b ≡ true
    pub now : (c : ℕ) → in_use sb d' c ≡ (if b == c then false else in_use sb d c)
    pub kept : (x i : ℕ) → bblock sb b ≢ x → d'.blocks x i ≡ d.blocks x i
    pub bytes : AreBytes d'
    pub logs : Logs d d'

  abbrev pub Bfree : Disk → ℕ → Outcome Disk → Type 0
  Bfree d b panic = in_use sb d b ≡ false
  Bfree d b (done d') = Freed d d' b

  -- `bfree` panics only if the block is not marked. Otherwise it takes the mark off just this
  -- block, changes no byte outside the map's block with the mark, and logs what it changes.
  pub bfree_lem : (d : Disk) (b : ℕ) → AreBytes d → Bfree d b (bfree sb b d)
  unfolding bfree in_use
  bfree_lem d b bytes =
      if_lem (Bfree d b) (not (map_bit sb d b (b % bpb))) (λ free. not-true _ free)
        (λ used. record {
          was_used = not-false _ used;
          now = λ c. unfold log_write in unmark-in_use sb d b c bytes;
          kept = λ x i ne. unfold poke log_write in ground arith;
          bytes = λ x i.
              unfold poke log_write in
              ground (
                arith,
                bytes x i,
                clear_bit-le (d.blocks (bblock sb b) (b % bpb / 8)) (b % bpb % 8)
                    (bytes (bblock sb b) (b % bpb / 8)),
              );
          logs =
              unfold poke log_write in
              record { grows = λ x h. ground arith; same = λ x i h. ground arith };
        })
