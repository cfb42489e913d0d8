-- ===== src/Fs/Mark.antt =====
-- fs.c: what `balloc` writes.
use test_ascii.Common.{
  ℕ, ◌+◌, ◌/◌, ◌%◌, ◌≡◌, ◌≢◌, ◌<◌, refl, ◌∙◌, ap, ap₂, arith, Bool, true, false, ◌==◌,
  if◌then◌else◌,
}
use native.Mathlib.Decide.{ℕ_discrete}
use test_ascii.Fs.{Superblock, Disk, bblock, bpb, poke, log_write}
use test_ascii.Fs.Logs.{Logs}
use test_ascii.Fs.Bits.{is_set, set_bit, clear_bit, is_set-set_bit, is_set-clear_bit, set_bit-le}
use test_ascii.Fs.Blocks.{map_bit, mark, bzero}
use test_ascii.Fs.Map.{AreBytes, in_use}

module _ (sb : Superblock) where
  -- A new byte in the map that differs from the old one in one bit.
  poke-in_use :
      (d : Disk) (b bp bi v c : ℕ) (value : Bool)
      → bp ≡ bblock sb b
      → bi ≡ b % bpb
      → ((j : ℕ)
          → j < 8
          → is_set v j ≡ (if bi % 8 == j then value else is_set (d.blocks bp (bi / 8)) j))
      → in_use sb (poke bp (bi / 8) v d) c ≡ (if b == c then value else in_use sb d c)
  unfolding in_use map_bit poke
  poke-in_use d b bp bi v c value e f bits = elim (ℕ_discrete bp (bblock sb c)) [
    | no other ↦ ground (arith, other)
    | yes same ↦ elim (ℕ_discrete (bi / 8) (c % bpb / 8)) [
      | no other ↦ ground arith
      | yes here ↦
          ap (λ y. is_set y (c % bpb % 8)) (written same here)
          ∙ bits (c % bpb % 8) (omega arith)
          ∙ ap₂ (λ t y. if t then value else is_set y (c % bpb % 8)) (same_bit same here)
              (ap₂ d.blocks same here)
    ]
  ]
    where
      written :
          bp ≡ bblock sb c
          → bi / 8 ≡ c % bpb / 8
          → (poke bp (bi / 8) v d).blocks (bblock sb c) (c % bpb / 8) ≡ v
      written same here = ground (arith, same, here)

      same_bit : bp ≡ bblock sb c → bi / 8 ≡ c % bpb / 8 → (bi % 8 == c % bpb % 8) ≡ (b == c)
      same_bit same here = ground (arith, same, here)

  pub mark-in_use :
      (d : Disk) (a bi c : ℕ)
      → AreBytes d
      → a % bpb ≡ 0
      → bi < bpb
      → in_use sb (mark sb a bi d) c ≡ (if a + bi == c then true else in_use sb d c)
  unfolding mark in_use log_write
  mark-in_use d a bi c bytes aligned inside =
      let x = d.blocks (bblock sb a) (bi / 8) in
      poke-in_use d (a + bi) (bblock sb a) bi (set_bit x (bi % 8)) c true (omega arith)
        (omega arith)
        (λ j h. is_set-set_bit x (bi % 8) j (bytes (bblock sb a) (bi / 8)) (omega arith) h)

  -- What `bfree` writes.
  pub unmark-in_use :
      (d : Disk) (b c : ℕ)
      → AreBytes d
      → in_use sb
          (poke
            (bblock sb b)
            (b % bpb / 8)
            (clear_bit (d.blocks (bblock sb b) (b % bpb / 8)) (b % bpb % 8))
            d)
          c
        ≡ (if b == c then false else in_use sb d c)
  unmark-in_use d b c bytes =
      let x = d.blocks (bblock sb b) (b % bpb / 8) in
      poke-in_use d b (bblock sb b) (b % bpb) (clear_bit x (b % bpb % 8)) c false refl refl (λ j h.
        is_set-clear_bit x (b % bpb % 8) j (bytes (bblock sb b) (b % bpb / 8)) (omega arith) h)

  pub mark-blocks :
      (d : Disk) (a bi x i : ℕ) → bblock sb a ≢ x → (mark sb a bi d).blocks x i ≡ d.blocks x i
  unfolding mark poke log_write
  mark-blocks d a bi x i ne = ground arith

  pub mark-AreBytes : (d : Disk) (a bi : ℕ) → AreBytes d → AreBytes (mark sb a bi d)
  unfolding mark poke log_write
  mark-AreBytes d a bi bytes x i = ground (
    arith,
    bytes x i,
    set_bit-le (d.blocks (bblock sb a) (bi / 8)) (bi % 8) (bytes (bblock sb a) (bi / 8)),
  )

  pub mark-Logs : (d : Disk) (a bi : ℕ) → Logs d (mark sb a bi d)
  unfolding mark poke log_write
  mark-Logs d a bi = record { grows = λ x h. ground arith; same = λ x i h. ground arith }

  pub bzero-Logs : (d : Disk) (b : ℕ) → Logs d (bzero b d)
  unfolding bzero log_write
  bzero-Logs d b = record { grows = λ x h. ground arith; same = λ x i h. ground arith }
