-- ===== src/Fs/Chunk.antt =====
-- fs.c: one pass of the loop of `writei`, which fills a part of one block.
use test_ascii.Common.{
  ℕ, ◌+◌, ◌-◌, ◌*◌, ◌/◌, ◌%◌, ◌≡◌, ◌≢◌, ◌<◌, ◌≤◌, refl, sym, ◌∙◌, ap, subst, arith, ltb, leb, ◌&&◌,
  ◌==◌, if◌then◌else◌,
}
use native.Mathlib.Decide.{ℕ_discrete}
use test_ascii.Fs.{Superblock, Disk, log_write}
use test_ascii.Fs.Map.{IsOffMap}
use test_ascii.Fs.Inode.{Inode}
use test_ascii.Fs.Slots.{slot, block_byte, contents, IsFile}
use test_ascii.Fs.Touch.{Touched, slot-Touched}
use test_ascii.Fs.Io.{copy, fill}
use test_ascii.Fs.ReadLoop.{block_byte-here}

module _ (sb : Superblock) (ip : Inode) (d : Disk) (k b at tot m : ℕ) (src : ℕ → ℕ) where
  pub fill-Touched :
      IsFile sb ip d
      → k < 140
      → slot ip d k ≡ b
      → b ≢ 0
      → ((i : ℕ) → src i < 256)
      → Touched sb ip d ip (fill b at src tot m d) b
  unfolding fill log_write copy slot
  fill-Touched file lt here ne bytes = record {
    file = file;
    same_inum = refl;
    same_addrs = λ j. refl;
    off_map =
        subst (λ x. IsOffMap sb x) here (file.used k (omega arith) (λ z. ne (sym here ∙ z))).2;
    not_numbers = λ nz e.
        absurd
          (omega (arith, lt, file.distinct 140 k (omega arith) (omega arith) nz (e ∙ sym here)));
    kept = λ x i other. ground (arith, other);
    mine = λ i out none_here. absurd (none_here k (omega arith) here);
    bytes = λ x i. ground (arith, bytes (tot + (i - at)), file.bytes x i, file.bytes b i);
    logs = record { grows = λ x h. ground arith; same = λ x i h. ground arith };
  }

  abbrev filled : ℕ → ℕ
  filled o =
      if leb (k * 512 + at) o && ltb o (k * 512 + at + m)
      then src (tot + (o - (k * 512 + at)))
      else contents ip d o

  fill-elsewhere : (x i : ℕ) → x ≢ b → block_byte (fill b at src tot m d) x i ≡ block_byte d x i
  unfolding fill log_write block_byte
  fill-elsewhere x i other = ground (arith, other)

  fill-here :
      (i : ℕ)
      → block_byte (fill b at src tot m d) b i ≡ (
          if b == 0
          then 0
          else (if leb at i && ltb i (at + m) then src (tot + (i - at)) else d.blocks b i))
  unfolding fill log_write block_byte copy
  fill-here i = ground arith

  outside : (o : ℕ) → o / 512 ≢ k → at + m ≤ 512 → contents ip d o ≡ filled o
  outside o other fits = ground arith

  inside :
      (o : ℕ)
      → o / 512 ≡ k
      → b ≢ 0
      → contents ip d o ≡ d.blocks b (o % 512)
      → (if b == 0
          then 0
          else (if leb at (o % 512) && ltb (o % 512) (at + m)
              then src (tot + (o % 512 - at))
              else d.blocks b (o % 512)))
        ≡ filled o
  inside o e ne same = ground (arith, same, e, ap src place_of)
    where
      place_of : tot + (o % 512 - at) ≡ tot + (o - (k * 512 + at))
      place_of = omega (arith, e)

  -- The bytes of the file after it.
  pub contents-fill :
      IsFile sb ip d
      → k < 140
      → slot ip d k ≡ b
      → b ≢ 0
      → at + m ≤ 512
      → ((i : ℕ) → src i < 256)
      → (o : ℕ) → o < 71680
      → contents ip (fill b at src tot m d) o ≡ filled o
  unfolding contents
  contents-fill file lt here ne fits bytes o small =
      let p = fill-Touched file lt here ne bytes in
      ap (λ x. block_byte (fill b at src tot m d) x (o % 512)) (slot-Touched sb p (o / 512))
      ∙ elim (ℕ_discrete (o / 512) k) [
        | yes e ↦
            ap (λ x. block_byte (fill b at src tot m d) x (o % 512)) (ap (slot ip d) e ∙ here)
            ∙ fill-here (o % 512)
            ∙ inside o e ne (
                ap (λ x. block_byte d x (o % 512)) (ap (slot ip d) e ∙ here)
                ∙ block_byte-here d b (o % 512) ne)
        | no other ↦
            fill-elsewhere (slot ip d (o / 512)) (o % 512) (λ e. other (
              file.distinct (o / 512) k (omega arith) (omega arith) (λ z. ne (sym e ∙ z))
                (e ∙ sym here)))
            ∙ outside o other fits
      ]
