-- ===== src/Fs/Stored.antt =====
-- fs.c: an inode that `iupdate` writes and `ilock` reads.
use test_ascii.Common.{
  ℕ, zero, suc, ◌+◌, ◌*◌, ◌%◌, ◌^◌, ◌≡◌, ◌≢◌, ◌<◌, ◌≤◌, inl, inr, refl, sym, ◌∙◌, subst, arith,
  true, false, some, slt, ◌==◌, if_lem,
}
use native.Mathlib.Decide.{ℕ_discrete}
use test_ascii.Common.Arrays.{update-same}
use test_ascii.Fs.{Superblock, Disk, log_write}
use test_ascii.Fs.Words.{
  Rewrites, Rewrites-trans, read_half, read_word, write_half, write_word, write_half-Rewrites,
  write_word-Rewrites, read_half-write_half, read_word-write_word, read_half-Rewrites,
  read_word-Rewrites,
}
use test_ascii.Fs.Inode.{
  Inode, iblock, ipb, dinode_size, write_addrs, write_dinode, read_dinode, iupdate,
}
use test_ascii.Fs.Update.{write_addrs-Rewrites}
use test_ascii.Fs.Icache.{Icache, ilock, ilock_read}
use test_ascii.Fs.Freeing.{Succeeds}

-- The fields on the disk have the widths they are declared with.
pub record Fits (ip : Inode) : Type 0 where
  pub type : ip.type < 2 ^ 16
  pub major : ip.major < 2 ^ 16
  pub minor : ip.minor < 2 ^ 16
  pub nlink : ip.nlink < 2 ^ 16
  pub size : ip.size < 2 ^ 32
  pub addrs : (k : ℕ) → k < 13 → ip.addrs k < 2 ^ 32

-- Two copies of an inode have the same fields on the disk.
pub record SameFields (ip ip' : Inode) : Type 0 where
  pub type : ip'.type ≡ ip.type
  pub major : ip'.major ≡ ip.major
  pub minor : ip'.minor ≡ ip.minor
  pub nlink : ip'.nlink ≡ ip.nlink
  pub size : ip'.size ≡ ip.size
  pub addrs : (k : ℕ) → k < 13 → ip'.addrs k ≡ ip.addrs k

read-write_addrs :
    (b at n k : ℕ) (addrs : ℕ → ℕ) (d : Disk) (j : ℕ)
    → k ≤ j
    → j < k + n
    → addrs j < 2 ^ 32
    → read_word (write_addrs b at n k addrs d) b (at + 4 * j) ≡ addrs j
unfolding write_addrs
read-write_addrs b at zero k addrs d j lo hi small = absurd (omega arith)
read-write_addrs b at (suc n) k addrs d j lo hi small =
    let w = write_word b (at + 4 * k) (addrs k) d in
    elim (ℕ_discrete k j) [
      | yes e ↦
          read_word-Rewrites b (at + 4 * j) (write_addrs-Rewrites b at n (k + 1) addrs w)
            (inr (inl (omega arith)))
          ∙ subst (λ i. read_word (write_word b (at + 4 * i) (addrs i) d) b (at + 4 * j) ≡ addrs j)
              (sym e) (read_word-write_word b (at + 4 * j) (addrs j) d small)
      | no ne ↦ read-write_addrs b at n (k + 1) addrs w j (omega arith) (omega arith) small
    ]

SameFields-dinode :
    (b at : ℕ) (ip ip₀ : Inode) (d : Disk)
    → Fits ip
    → SameFields ip (read_dinode b at (write_dinode b at ip d) ip₀)
unfolding write_dinode read_dinode
SameFields-dinode b at ip ip₀ d fits =
    let d₁ = write_half b at ip.type d in
    let d₂ = write_half b (at + 2) ip.major d₁ in
    let d₃ = write_half b (at + 4) ip.minor d₂ in
    let d₄ = write_half b (at + 6) ip.nlink d₃ in
    let d₅ = write_word b (at + 8) ip.size d₄ in
    let e = write_addrs b (at + 12) 13 0 ip.addrs d₅ in
    let r₅ : Rewrites b (at + 12) 52 d₅ e =
      subst (λ i. Rewrites b i 52 d₅ e) (omega arith)
        (write_addrs-Rewrites b (at + 12) 13 0 ip.addrs d₅) in
    let r₄ : Rewrites b (at + 8) 56 d₄ e =
      Rewrites-trans b (at + 8) 4 52 (write_word-Rewrites b (at + 8) ip.size d₄)
        (subst (λ i. Rewrites b i 52 d₅ e) (omega arith) r₅) in
    let r₃ : Rewrites b (at + 6) 58 d₃ e =
      Rewrites-trans b (at + 6) 2 56 (write_half-Rewrites b (at + 6) ip.nlink d₃)
        (subst (λ i. Rewrites b i 56 d₄ e) (omega arith) r₄) in
    let r₂ : Rewrites b (at + 4) 60 d₂ e =
      Rewrites-trans b (at + 4) 2 58 (write_half-Rewrites b (at + 4) ip.minor d₂)
        (subst (λ i. Rewrites b i 58 d₃ e) (omega arith) r₃) in
    let r₁ : Rewrites b (at + 2) 62 d₁ e =
      Rewrites-trans b (at + 2) 2 60 (write_half-Rewrites b (at + 2) ip.major d₁)
        (subst (λ i. Rewrites b i 60 d₂ e) (omega arith) r₂) in
    record {
      type =
          read_half-Rewrites b at r₁ (inr (inl (omega arith)))
          ∙ read_half-write_half b at ip.type d
          ∙ omega (arith, fits.type);
      major =
          read_half-Rewrites b (at + 2) r₂ (inr (inl (omega arith)))
          ∙ read_half-write_half b (at + 2) ip.major d₁
          ∙ omega (arith, fits.major);
      minor =
          read_half-Rewrites b (at + 4) r₃ (inr (inl (omega arith)))
          ∙ read_half-write_half b (at + 4) ip.minor d₂
          ∙ omega (arith, fits.minor);
      nlink =
          read_half-Rewrites b (at + 6) r₄ (inr (inl (omega arith)))
          ∙ read_half-write_half b (at + 6) ip.nlink d₃
          ∙ omega (arith, fits.nlink);
      size =
          read_word-Rewrites b (at + 8) r₅ (inr (inl (omega arith)))
          ∙ read_word-write_word b (at + 8) ip.size d₄ fits.size;
      addrs = λ k lt.
          read-write_addrs b (at + 12) 13 0 ip.addrs d₅ k (omega arith) (omega arith)
            (fits.addrs k lt);
    }

-- The inode as `ilock` reads it.
abbrev pub stored : Superblock → Inode → Disk → Inode
stored sb ip d = read_dinode (iblock sb ip.inum) (ip.inum % ipb * dinode_size) d ip

module _ (sb : Superblock) where
  stored-SameFields :
      (ip ip₀ : Inode) (d : Disk)
      → Fits ip
      → ip₀.inum ≡ ip.inum
      → SameFields ip (stored sb ip₀ (iupdate sb ip d))
  unfolding iupdate log_write read_dinode read_word read_half
  stored-SameFields ip ip₀ d fits same =
      subst
        (λ n.
          SameFields ip (read_dinode (iblock sb n) (n % ipb * dinode_size) (iupdate sb ip d) ip₀))
        (sym same)
        (SameFields-dinode (iblock sb ip.inum) (ip.inum % ipb * dinode_size) ip ip₀ d fits)

  -- Once `iupdate` has written an inode of a type other than 0, `ilock` of an entry for it that is
  -- not read yet does not panic, and reads the same type, device, link count, size and blocks.
  pub ilock-iupdate :
      (i : ℕ) (ip : Inode) (d : Disk) (s : Icache)
      → Fits ip
      → ip.type ≢ 0
      → s.disk ≡ iupdate sb ip d
      → (s.inodes i).inum ≡ ip.inum
      → (s.inodes i).valid ≡ false
      → 0 < (s.inodes i).ref
      → (s.inodes i).ref < 2 ^ 31
      → Succeeds
          (λ s'. SameFields ip (s'.inodes i) × ((s'.inodes i).valid ≡ true))
          (ilock sb (some i) s)
  unfolding ilock ilock_read
  ilock-iupdate i ip d s fits typed written same fresh used small =
      let got =
        subst (λ e. SameFields ip (stored sb (s.inodes i) e)) (sym written)
          (stored-SameFields ip (s.inodes i) d fits same) in
      let P : Icache → Type 0 = λ s'. SameFields ip (s'.inodes i) × ((s'.inodes i).valid ≡ true) in
      if_lem (Succeeds P) (slt (s.inodes i).ref 1) (λ h. absurd (ground (arith, h, used, small)))
        (λ _.
          if_lem (Succeeds P) (s.inodes i).valid (λ h. absurd (ground (arith, h, fresh)))
            (λ _.
              if_lem (Succeeds P) ((stored sb (s.inodes i) s.disk).type == 0)
                (λ z. absurd (typed (sym got.type ∙ ground (arith, z))))
                (λ _.
                  subst (λ ip'. SameFields ip ip' × (ip'.valid ≡ true))
                    (sym (
                      update-same s.inodes i
                        (record (stored sb (s.inodes i) s.disk) { valid = true })))
                    (
                      record {
                        type = got.type;
                        major = got.major;
                        minor = got.minor;
                        nlink = got.nlink;
                        size = got.size;
                        addrs = got.addrs;
                      },
                      refl,
                    ))))
