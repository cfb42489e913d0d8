-- ===== src/Fs/Bmap.antt =====
-- fs.c: `bmap` on the blocks of a file.
use test_ascii.Common.{
  ℕ, ◌+◌, ◌-◌, ◌*◌, ◌/◌, ◌%◌, ◌≡◌, ◌≢◌, ◌<◌, inl, refl, sym, ◌∙◌, ap, subst, arith, false, ltb,
  ltb→lt, ltb→le, ◌==◌, if_lem, Outcome, done, panic, ◌>>=◌,
}
use test_ascii.Fs.{Superblock, Disk, ndirect, nindirect, maxfile, bpb, bblock, log_write}
use test_ascii.Fs.Bits.{is_set}
use test_ascii.Fs.Map.{in_use}
use test_ascii.Fs.Blocks.{balloc, map_bit}
use test_ascii.Fs.Alloc.{Allocated, Balloc, balloc_lem}
use test_ascii.Fs.Words.{read_word, write_word, write_word-Rewrites, Rewrites}
use test_ascii.Fs.Inode.{Inode, addr_or_new, word_or_new, bmap}
use test_ascii.Fs.Slots.{slot, IsFile, Kept, Kept-refl, Kept-trans}
use test_ascii.Fs.Fresh.{Placed, filled, IsFile-Placed, Kept-Placed}
use test_ascii.Fs.Places.{slot-direct, slot-last, slot-word, word_at-here, slots-word}
use test_ascii.Fs.Addrs.{Filled, Full, Full-Kept, addr_or_new-direct, addr_or_new-last}

module _ (sb : Superblock) where
  Placed-word :
      (ip : Inode) (d d₀ : Disk) (n b : ℕ)
      → IsFile sb ip d
      → Allocated sb d d₀ b
      → ip.addrs 12 ≢ 0
      → n < 128
      → slot ip d (12 + n) ≡ 0
      → Placed sb ip d d₀ ip
          (log_write (ip.addrs 12) (write_word (ip.addrs 12) (4 * n) b d₀))
          (12 + n)
          b
  unfolding log_write slot in_use map_bit
  Placed-word ip d d₀ n b file block ne lt empty =
      let w : Rewrites (ip.addrs 12) (4 * n) 4 d₀ (write_word (ip.addrs 12) (4 * n) b d₀) =
        write_word-Rewrites (ip.addrs 12) (4 * n) b d₀ in
      record {
        file = file;
        inside = omega arith;
        empty = empty;
        block = block;
        same_inum = refl;
        same_type = refl;
        same_size = refl;
        slots = slots-word sb ip d d₀ n b file block ne lt;
        map = λ c h.
            ap (λ v. is_set v (c % bpb % 8))
              (w.kept (bblock sb c) (c % bpb / 8)
                (inl (λ e. (file.used 140 (omega arith) ne).2 c h (sym e))));
        kept = λ x i apart. w.kept x i (inl (apart ne));
        bytes = w.bytes block.bytes;
        logs = record {
          grows = λ x h. ground (arith, h, w.logged x);
          same = λ x i h. w.kept x i (inl (λ e. ground (arith, h, e)));
        };
      }

  -- What `bmap` of block `k` comes to.
  abbrev pub Mapped : Inode → Disk → ℕ → Outcome (ℕ × (Inode × Disk)) → Type 0
  Mapped ip d k panic = Full sb ip d
  Mapped ip d k (done (addr, (ip', d'))) =
      IsFile sb ip' d' × Kept sb ip d ip' d' × (slot ip' d' k ≡ addr) × (addr ≢ 0)

  Mapped-word :
      (ip : Inode) (d : Disk) (n : ℕ) (o : Outcome (ℕ × Disk))
      → IsFile sb ip d
      → ip.addrs 12 ≢ 0
      → n < 128
      → slot ip d (12 + n) ≡ 0
      → Balloc sb d o
      → Mapped ip d (12 + n) (
          (o >>= λ (addr, d').
          done (addr, log_write (ip.addrs 12) (write_word (ip.addrs 12) (4 * n) addr d')))
          >>= λ (addr, d''). done (addr, (ip, d'')))
  Mapped-word ip d n panic file ne lt empty full = (ip, d, file, Kept-refl sb ip d, full)
  Mapped-word ip d n (done (b, d₀)) file ne lt empty block =
      let p = Placed-word ip d d₀ n b file block ne lt empty in
      let here = p.slots (12 + n) (omega arith) ∙ ground arith in
      (IsFile-Placed sb p, Kept-Placed sb p, here, λ z. filled sb p (here ∙ z))

  pub slot-nth :
      (ip : Inode) (d : Disk) (n : ℕ)
      → ip.addrs 12 ≢ 0
      → n < 128
      → slot ip d (12 + n) ≡ read_word d (ip.addrs 12) (4 * n)
  slot-nth ip d n ne lt =
      slot-word ip d (12 + n) (omega arith) (omega arith)
      ∙ word_at-here d (ip.addrs 12) (12 + n - 12) ne
      ∙ ap (λ m. read_word d (ip.addrs 12) (4 * m)) (omega arith)

  word_or_new-Mapped :
      (ip : Inode) (d : Disk) (n : ℕ)
      → IsFile sb ip d
      → ip.addrs 12 ≢ 0
      → n < 128
      → Mapped ip d
          (12 + n)
          (word_or_new sb (ip.addrs 12) n d >>= λ (addr, d''). done (addr, (ip, d'')))
  unfolding word_or_new
  word_or_new-Mapped ip d n file ne lt =
      if_lem (λ o. Mapped ip d (12 + n) (o >>= λ (addr, d''). done (addr, (ip, d''))))
        (read_word d (ip.addrs 12) (4 * n) == 0)
        (λ z.
          Mapped-word ip d n (balloc sb d) file ne lt (ground (arith, z, slot-nth ip d n ne lt))
            (balloc_lem sb d file.bytes file.map))
        (λ z. (file, Kept-refl sb ip d, slot-nth ip d n ne lt, λ e. ground (arith, z, e)))

  Mapped-direct :
      (ip : Inode) (d : Disk) (k : ℕ) (o : Outcome (Inode × Disk))
      → k < 12
      → Filled sb ip d k o
      → Mapped ip d k (o >>= λ (ip', d'). done (ip'.addrs k, (ip', d')))
  Mapped-direct ip d k panic lt full = full
  Mapped-direct ip d k (done (ip', d')) lt (file, kept, ne) =
      (file, kept, slot-direct ip' d' k lt, λ z. ne (slot-direct ip' d' k lt ∙ z))

  Mapped-Kept :
      {ip ip₁ : Inode} {d d₁ : Disk} (k : ℕ) (o : Outcome (ℕ × (Inode × Disk)))
      → Kept sb ip d ip₁ d₁
      → Mapped ip₁ d₁ k o
      → Mapped ip d k o
  Mapped-Kept k panic p full = Full-Kept sb p full
  Mapped-Kept k (done _) p (file, q, here, ne) = (file, Kept-trans sb p q, here, ne)

  Mapped-last :
      (ip : Inode) (d : Disk) (n : ℕ) (o : Outcome (Inode × Disk))
      → n < 128
      → Filled sb ip d 140 o
      → Mapped ip d (12 + n) (
          o >>= λ (ip', d').
          word_or_new sb (ip'.addrs ndirect) n d' >>= λ (addr, d''). done (addr, (ip', d'')))
  Mapped-last ip d n panic lt full = full
  Mapped-last ip d n (done (ip', d')) lt (file, kept, ne) =
      Mapped-Kept (12 + n) _ kept
        (word_or_new-Mapped ip' d' n file (λ z. ne (slot-last ip' d' ∙ z)) lt)

  -- For a block number in range: `bmap` panics only if the disk runs full. Otherwise it returns the
  -- block in that place of the file, never block 0. The file's blocks stay where they are, new ones
  -- hold zeroes, blocks of other files are left alone, the file stays one, and what changes is logged.
  pub bmap_lem :
      (ip : Inode) (d : Disk) (k : ℕ)
      → IsFile sb ip d
      → k < maxfile
      → Mapped ip d k (bmap sb ip k d)
  unfolding bmap
  bmap_lem ip d k file lt =
      if_lem (Mapped ip d k) (ltb k ndirect)
        (λ l.
          Mapped-direct ip d k (addr_or_new sb ip k d) (ltb→lt k 12 l)
            (addr_or_new-direct sb ip d k file (ltb→lt k 12 l)))
        (λ l.
          if_lem (Mapped ip d k) (ltb (k - ndirect) nindirect)
            (λ m.
              subst
                (λ i. Mapped ip d i (
                  addr_or_new sb ip 12 d >>= λ (ip', d').
                  word_or_new sb (ip'.addrs 12) (k - 12) d' >>= λ (addr, d'').
                  done (addr, (ip', d''))))
                (above l)
                (Mapped-last ip d (k - 12) (addr_or_new sb ip 12 d) (ltb→lt (k - 12) 128 m)
                  (addr_or_new-last sb ip d file)))
            (λ m. absurd (omega (arith, lt, ltb→le (k - 12) 128 m, ltb→le k 12 l))))
    where
      above : ltb k 12 ≡ false → 12 + (k - 12) ≡ k
      above l = omega (arith, ltb→le k 12 l)
