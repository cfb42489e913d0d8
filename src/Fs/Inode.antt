-- ===== src/Fs/Inode.antt =====
-- fs.c, file.h: an inode in memory, its blocks (`bmap`, `itrunc`), and its copy on the disk.
use test_ascii.Common.{
  ℕ, zero, suc, ◌+◌, ◌-◌, ◌*◌, ◌/◌, ◌%◌, Bool, ltb, ◌==◌, if◌then◌else◌, Outcome, done, panic,
  ◌>>=◌,
}
use test_ascii.Common.Arrays.{update}
use test_ascii.Fs.{Superblock, Disk, bsize, ndirect, nindirect, log_write}
use test_ascii.Fs.Blocks.{balloc, bfree}
use test_ascii.Fs.Words.{read_half, read_word, write_half, write_word}

-- `struct inode`; `short` fields are their 16-bit patterns.
pub record Inode : Type 0 where
  pub dev : ℕ
  pub inum : ℕ
  pub ref : ℕ
  pub valid : Bool
  pub type : ℕ
  pub major : ℕ
  pub minor : ℕ
  pub nlink : ℕ
  pub size : ℕ
  pub addrs : ℕ → ℕ

-- `sizeof(struct dinode)`, `IPB` and `IBLOCK`
abbrev pub dinode_size : ℕ
dinode_size = 64

abbrev pub ipb : ℕ
ipb = bsize / dinode_size

abbrev pub iblock : Superblock → ℕ → ℕ
iblock sb i = i / ipb + sb.inodestart

-- `memmove(dip->addrs, ip->addrs, sizeof(ip->addrs))`: `n` words from the `k`th on.
unfoldable pub write_addrs : ℕ → ℕ → ℕ → ℕ → (ℕ → ℕ) → Disk → Disk
unfolding write_word
write_addrs b at zero k addrs d = d
write_addrs b at (suc n) k addrs d =
    write_addrs b at n (k + 1) addrs (write_word b (at + 4 * k) (addrs k) d)

-- The fields of an inode, at byte `at` of block `b`.
unfoldable pub write_dinode : ℕ → ℕ → Inode → Disk → Disk
unfolding write_half write_word write_addrs
write_dinode b at ip d = write_addrs b (at + 12) (ndirect + 1) 0 ip.addrs (
    write_word b (at + 8) ip.size (
      write_half b (at + 6) ip.nlink (
        write_half b (at + 4) ip.minor
          (write_half b (at + 2) ip.major (write_half b at ip.type d)))))

unfoldable pub read_dinode : ℕ → ℕ → Disk → Inode → Inode
unfolding read_half read_word
read_dinode b at d ip = record ip {
  type = read_half d b at;
  major = read_half d b (at + 2);
  minor = read_half d b (at + 4);
  nlink = read_half d b (at + 6);
  size = read_word d b (at + 8);
  addrs = λ k. read_word d b (at + 12 + 4 * k);
}

-- `ip->addrs[k] = v`
abbrev pub set_addr : ℕ → ℕ → Inode → Inode
set_addr k v ip = record ip { addrs = update ip.addrs k v }

module _ (sb : Superblock) where
  unfoldable pub iupdate : Inode → Disk → Disk
  unfolding write_dinode log_write
  iupdate ip d =
      log_write (iblock sb ip.inum)
        (write_dinode (iblock sb ip.inum) (ip.inum % ipb * dinode_size) ip d)

  -- `if((addr = ip->addrs[k]) == 0) ip->addrs[k] = addr = balloc(ip->dev);`
  unfoldable pub addr_or_new : Inode → ℕ → Disk → Outcome (Inode × Disk)
  unfolding balloc
  addr_or_new ip k d =
      if ip.addrs k == 0
      then (balloc sb d >>= λ (addr, d'). done (set_addr k addr ip, d'))
      else done (ip, d)

  -- `if((addr = a[bn]) == 0){ a[bn] = addr = balloc(ip->dev); log_write(bp); }`
  unfoldable pub word_or_new : ℕ → ℕ → Disk → Outcome (ℕ × Disk)
  unfolding balloc read_word write_word log_write
  word_or_new b bn d =
      if read_word d b (4 * bn) == 0
      then (balloc sb d >>= λ (addr, d'). done (addr, log_write b (write_word b (4 * bn) addr d')))
      else done (read_word d b (4 * bn), d)

  unfoldable pub bmap : Inode → ℕ → Disk → Outcome (ℕ × (Inode × Disk))
  unfolding addr_or_new word_or_new
  bmap ip bn d =
      if ltb bn ndirect
      then (addr_or_new ip bn d >>= λ (ip', d'). done (ip'.addrs bn, (ip', d')))
      else (if ltb (bn - ndirect) nindirect
          then (addr_or_new ip ndirect d >>= λ (ip', d').
              word_or_new (ip'.addrs ndirect) (bn - ndirect) d' >>= λ (addr, d'').
              done (addr, (ip', d'')))
          else panic)

  -- `if(a[j]) bfree(ip->dev, a[j]);`
  unfoldable pub free_block : ℕ → Disk → Outcome Disk
  unfolding bfree
  free_block b d = if b == 0 then done d else bfree sb b d

  -- The loops of `itrunc`: `n` blocks from the `k`th on.
  unfoldable pub free_direct : ℕ → ℕ → Inode → Disk → Outcome (Inode × Disk)
  unfolding free_block
  free_direct zero k ip d = done (ip, d)
  free_direct (suc n) k ip d =
      free_block (ip.addrs k) d >>= λ d'. free_direct n (k + 1) (set_addr k 0 ip) d'

  -- The block of the numbers, which is held while the blocks are freed.
  unfoldable pub free_words : ℕ → ℕ → (ℕ → ℕ) → Disk → Outcome Disk
  unfolding free_block
  free_words zero j a d = done d
  free_words (suc n) j a d = free_block (a j) d >>= λ d'. free_words n (j + 1) a d'

  unfoldable pub free_indirect : Inode → Disk → Outcome (Inode × Disk)
  unfolding free_words bfree read_word
  free_indirect ip d =
      if ip.addrs ndirect == 0
      then done (ip, d)
      else (free_words nindirect 0 (λ j. read_word d (ip.addrs ndirect) (4 * j)) d >>= λ d'.
          bfree sb (ip.addrs ndirect) d' >>= λ d''. done (set_addr ndirect 0 ip, d''))

  unfoldable pub itrunc : Inode → Disk → Outcome (Inode × Disk)
  unfolding free_direct free_indirect iupdate
  itrunc ip d = free_direct ndirect 0 ip d >>= λ (ip₁, d₁). free_indirect ip₁ d₁ >>= λ (ip₂, d₂).
      done (record ip₂ { size = 0 }, iupdate (record ip₂ { size = 0 }) d₂)
