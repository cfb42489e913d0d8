-- ===== src/Fs/Update.antt =====
-- fs.c: `iupdate` on the blocks of a file.
use test_ascii.Common.{
  ℕ, zero, suc, ◌+◌, ◌*◌, ◌/◌, ◌%◌, ◌≡◌, ◌<◌, inl, refl, sym, ◌∙◌, ap, subst, arith,
}
use test_ascii.Fs.{Superblock, Disk, log_write}
use test_ascii.Fs.Words.{
  Rewrites, Rewrites-trans, write_half, write_word, write_half-Rewrites, write_word-Rewrites,
}
use test_ascii.Fs.Inode.{Inode, iblock, ipb, dinode_size, write_addrs, write_dinode, iupdate}
use test_ascii.Fs.Slots.{slot, block_byte, contents, IsFile, IsElsewhere}
use test_ascii.Fs.Touch.{Touched, slot-Touched}

pub write_addrs-Rewrites :
    (b at n k : ℕ) (addrs : ℕ → ℕ) (d : Disk)
    → Rewrites b (at + 4 * k) (4 * n) d (write_addrs b at n k addrs d)
unfolding write_addrs
write_addrs-Rewrites b at zero k addrs d = record {
  kept = λ x j h. refl;
  bytes = λ h. h;
  logged = λ x. refl;
}
write_addrs-Rewrites b at (suc n) k addrs d =
    let w = write_word b (at + 4 * k) (addrs k) d in
    let v = write_addrs b at n (k + 1) addrs w in
    subst (λ l. Rewrites b (at + 4 * k) l d v) (omega arith)
      (Rewrites-trans b (at + 4 * k) 4 (4 * n) (write_word-Rewrites b (at + 4 * k) (addrs k) d) (
        subst (λ i. Rewrites b i (4 * n) w v) (omega arith)
          (write_addrs-Rewrites b at n (k + 1) addrs w)))

-- The fields lie side by side.
pub write_dinode-Rewrites :
    (b at : ℕ) (ip : Inode) (d : Disk) → Rewrites b at 64 d (write_dinode b at ip d)
unfolding write_dinode
write_dinode-Rewrites b at ip d =
    let d₁ = write_half b at ip.type d in
    let d₂ = write_half b (at + 2) ip.major d₁ in
    let d₃ = write_half b (at + 4) ip.minor d₂ in
    let d₄ = write_half b (at + 6) ip.nlink d₃ in
    let d₅ = write_word b (at + 8) ip.size d₄ in
    Rewrites-trans b at 12 52
      (Rewrites-trans b at 8 4
        (Rewrites-trans b at 6 2
          (Rewrites-trans b at 4 2
            (Rewrites-trans b at 2 2 (write_half-Rewrites b at ip.type d)
              (write_half-Rewrites b (at + 2) ip.major d₁))
            (write_half-Rewrites b (at + 4) ip.minor d₂))
          (write_half-Rewrites b (at + 6) ip.nlink d₃))
        (write_word-Rewrites b (at + 8) ip.size d₄))
      (subst (λ i. Rewrites b i 52 d₅ (write_addrs b (at + 12) 13 0 ip.addrs d₅)) (omega arith)
        (write_addrs-Rewrites b (at + 12) 13 0 ip.addrs d₅))

module _ (sb : Superblock) where
  pub iupdate-Touched :
      (ip ip' : Inode) (d : Disk)
      → IsFile sb ip d
      → ip'.inum ≡ ip.inum
      → ((k : ℕ) → ip'.addrs k ≡ ip.addrs k)
      → Touched sb ip d ip' (iupdate sb ip' d) (iblock sb ip.inum)
  unfolding iupdate log_write slot
  iupdate-Touched ip ip' d file same_inum same_addrs =
      let at = ip'.inum % ipb * dinode_size in
      let b = iblock sb ip'.inum in
      let w : Rewrites b at 64 d (write_dinode b at ip' d) = write_dinode-Rewrites b at ip' d in
      let e : b ≡ iblock sb ip.inum = ap (iblock sb) same_inum in
      record {
        file = file;
        same_inum = same_inum;
        same_addrs = same_addrs;
        off_map = file.iused.2;
        not_numbers = λ ne. file.iapart 140 (omega arith);
        kept = λ x i other. w.kept x i (inl (λ z. other (sym z ∙ e)));
        mine = λ i out none.
            w.kept (iblock sb ip.inum) i
              (subst (λ n. IsElsewhere sb n (iblock sb ip.inum) i) (sym same_inum) out);
        bytes = w.bytes file.bytes;
        logs = record {
          grows = λ x h. ground (arith, h, w.logged x);
          same = λ x i h. w.kept x i (inl (λ z. ground (arith, h, z)));
        };
      }

  -- The file's bytes are not in the inode's block.
  pub contents-iupdate :
      (ip ip' : Inode) (d : Disk)
      → Touched sb ip d ip' (iupdate sb ip' d) (iblock sb ip.inum)
      → (o : ℕ) → o < 71680
      → contents ip' (iupdate sb ip' d) o ≡ contents ip d o
  unfolding contents block_byte
  contents-iupdate ip ip' d p o small =
      ap (λ x. block_byte (iupdate sb ip' d) x (o % 512)) (slot-Touched sb p (o / 512))
      ∙ ground
          (arith, p.kept (slot ip d (o / 512)) (o % 512) (p.file.iapart (o / 512) (omega arith)))
