-- ===== src/Fs/Slots.antt =====
-- fs.c: the blocks of a file, as `bmap` finds them, and its bytes.
use test_ascii.Common.{
  ℕ, ◌+◌, ◌-◌, ◌*◌, ◌/◌, ◌%◌, ◌^◌, ◌≡◌, ◌≢◌, ◌<◌, ◌≤◌, ◌⊎◌, inl, inr, refl, sym, subst, ◌∙◌, true,
  ltb, ◌==◌, if◌then◌else◌,
}
use test_ascii.Fs.{Superblock, Disk, ndirect}
use test_ascii.Fs.Logs.{Logs, Logs-refl, Logs-trans}
use test_ascii.Fs.Map.{AreBytes, in_use, IsOffMap, MapInUse}
use test_ascii.Fs.Words.{read_word}
use test_ascii.Fs.Inode.{Inode, iblock, ipb, dinode_size}

-- The place of the block with the numbers, after those of the blocks with bytes.
abbrev pub last_slot : ℕ
last_slot = 140

unfoldable pub word_at : Disk → ℕ → ℕ → ℕ
word_at d b j = if b == 0 then 0 else read_word d b (4 * j)

-- The number of the block in place `k`, 0 if there is none.
unfoldable pub slot : Inode → Disk → ℕ → ℕ
unfolding word_at
slot ip d k =
    if ltb k ndirect
    then ip.addrs k
    else (if k == last_slot then ip.addrs ndirect else word_at d (ip.addrs ndirect) (k - ndirect))

-- Byte `i` of the `k`th block of the file; a block that is not there reads as zeroes.
unfoldable pub block_byte : Disk → ℕ → ℕ → ℕ
block_byte d b i = if b == 0 then 0 else d.blocks b i

unfoldable pub contents : Inode → Disk → ℕ → ℕ
unfolding slot block_byte
contents ip d o = block_byte d (slot ip d (o / 512)) (o % 512)

module _ (sb : Superblock) where
  -- A file on a disk whose free map is right about it.
  pub record IsFile (ip : Inode) (d : Disk) : Type 0 where
    pub bytes : AreBytes d
    pub map : MapInUse sb d
    pub small : sb.size < 2 ^ 32
    pub zero_used : (0 < sb.size) × (in_use sb d 0 ≡ true)
    pub used :
        (k : ℕ)
        → k < 141
        → slot ip d k ≢ 0
        → (slot ip d k < sb.size) × (in_use sb d (slot ip d k) ≡ true) × IsOffMap sb (slot ip d k)
    pub distinct :
        (j k : ℕ) → j < 141 → k < 141 → slot ip d j ≢ 0 → slot ip d j ≡ slot ip d k → j ≡ k
    pub iused :
        (iblock sb ip.inum < sb.size)
        × (in_use sb d (iblock sb ip.inum) ≡ true)
        × IsOffMap sb (iblock sb ip.inum)
    pub iblock_nonzero : iblock sb ip.inum ≢ 0
    pub iapart : (k : ℕ) → k < 141 → slot ip d k ≢ iblock sb ip.inum

  -- Outside the part of its block that holds the inode.
  abbrev pub IsElsewhere : ℕ → ℕ → ℕ → Type 0
  IsElsewhere inum x i =
      let at = inum % ipb * dinode_size in
      (iblock sb inum ≢ x) ⊎ ((i < at) ⊎ (at + dinode_size ≤ i))

  -- The file's blocks stay, those it gets were not marked, the blocks of others are as before.
  pub record Frame (ip : Inode) (d : Disk) (ip' : Inode) (d' : Disk) : Type 0 where
    pub same_inum : ip'.inum ≡ ip.inum
    pub same_type : ip'.type ≡ ip.type
    pub stays : (k : ℕ) → k < 141 → slot ip d k ≢ 0 → slot ip' d' k ≡ slot ip d k
    pub marks : (x : ℕ) → x < sb.size → in_use sb d x ≡ true → in_use sb d' x ≡ true
    pub old :
        (k x : ℕ)
        → k < 141
        → x < sb.size
        → in_use sb d x ≡ true
        → slot ip' d' k ≡ x
        → slot ip d k ≡ x
    pub mine :
        (x : ℕ)
        → x < sb.size
        → in_use sb d' x ≡ true
        → (in_use sb d x ≡ true) ⊎ ((k : ℕ) × (k < 141) × (slot ip' d' k ≡ x) × (x ≢ 0))
    pub others :
        (x i : ℕ)
        → x < sb.size
        → in_use sb d x ≡ true
        → IsOffMap sb x
        → IsElsewhere ip.inum x i
        → ((k : ℕ) → k < 141 → slot ip d k ≢ x)
        → d'.blocks x i ≡ d.blocks x i
    pub logs : Logs d d'

  pub Frame-refl : (ip : Inode) (d : Disk) → Frame ip d ip d
  Frame-refl ip d = record {
    same_inum = refl;
    same_type = refl;
    stays = λ k h ne. refl;
    marks = λ x h u. u;
    old = λ k x h l u e. e;
    mine = λ x h u. inl u;
    others = λ x i h u off out ne. refl;
    logs = Logs-refl d;
  }

  pub Frame-trans :
      {ip ip₁ ip₂ : Inode} {d d₁ d₂ : Disk}
      → Frame ip d ip₁ d₁
      → Frame ip₁ d₁ ip₂ d₂
      → Frame ip d ip₂ d₂
  Frame-trans p q = record {
    same_inum = q.same_inum ∙ p.same_inum;
    same_type = q.same_type ∙ p.same_type;
    stays = λ k h ne. q.stays k h (λ e. ne (sym (p.stays k h ne) ∙ e)) ∙ p.stays k h ne;
    marks = λ x h u. q.marks x h (p.marks x h u);
    old = λ k x h l u e. p.old k x h l u (q.old k x h l (p.marks x l u) e);
    mine = λ x h u. elim (q.mine x h u) [
      | inr new ↦ inr new
      | inl u₁ ↦ elim (p.mine x h u₁) [
        | inl u₀ ↦ inl u₀
        | inr (k, l, e, ne) ↦ inr (k, l, q.stays k l (λ z. ne (sym e ∙ z)) ∙ e, ne)
      ]
    ];
    others = λ x i h u off out ne.
        q.others x i h (p.marks x h u) off (subst (λ n. IsElsewhere n x i) (sym p.same_inum) out)
          (λ k l e. ne k l (p.old k x l h u e))
        ∙ p.others x i h u off out ne;
    logs = Logs-trans p.logs q.logs;
  }

  -- Besides, the file has the bytes that it had: a new block holds zeroes.
  pub record Kept (ip : Inode) (d : Disk) (ip' : Inode) (d' : Disk) : Type 0 where
    pub frame : Frame ip d ip' d'
    pub same_size : ip'.size ≡ ip.size
    pub same_data :
        (k i : ℕ) → k < 140 → block_byte d' (slot ip' d' k) i ≡ block_byte d (slot ip d k) i

  pub Kept-refl : (ip : Inode) (d : Disk) → Kept ip d ip d
  Kept-refl ip d = record { frame = Frame-refl ip d; same_size = refl; same_data = λ k i h. refl }

  pub Kept-trans :
      {ip ip₁ ip₂ : Inode} {d d₁ d₂ : Disk}
      → Kept ip d ip₁ d₁
      → Kept ip₁ d₁ ip₂ d₂
      → Kept ip d ip₂ d₂
  Kept-trans p q = record {
    frame = Frame-trans p.frame q.frame;
    same_size = q.same_size ∙ p.same_size;
    same_data = λ k i h. q.same_data k i h ∙ p.same_data k i h;
  }
