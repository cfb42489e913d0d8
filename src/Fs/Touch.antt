-- ===== src/Fs/Touch.antt =====
-- fs.c: a write to one block that is not part of the free map, nor the block with the numbers.
use test_ascii.Common.{
  ℕ, ◌-◌, ◌/◌, ◌%◌, ◌≡◌, ◌≢◌, ◌<◌, inl, sym, ◌∙◌, ap, subst, true, ltb, ◌==◌, if◌then◌else◌,
}
use native.Mathlib.Decide.{ℕ_discrete}
use test_ascii.Fs.{Superblock, Disk, ndirect, bpb, bblock}
use test_ascii.Fs.Bits.{is_set}
use test_ascii.Fs.Blocks.{map_bit}
use test_ascii.Fs.Logs.{Logs}
use test_ascii.Fs.Map.{AreBytes, in_use, IsOffMap}
use test_ascii.Fs.Inode.{Inode, iblock}
use test_ascii.Fs.Slots.{last_slot, word_at, slot, IsFile, Frame, IsElsewhere}
use test_ascii.Fs.Places.{word_at-kept}

module _ (sb : Superblock) where
  -- Of block `b`, bytes are changed for which `InPart` holds.
  pub record Touched (ip : Inode) (d : Disk) (ip' : Inode) (d' : Disk) (b : ℕ) : Type 0 where
    pub file : IsFile sb ip d
    pub same_inum : ip'.inum ≡ ip.inum
    pub same_addrs : (k : ℕ) → ip'.addrs k ≡ ip.addrs k
    pub off_map : IsOffMap sb b
    pub not_numbers : ip.addrs 12 ≢ 0 → ip.addrs 12 ≢ b
    pub kept : (x i : ℕ) → x ≢ b → d'.blocks x i ≡ d.blocks x i
    pub mine :
        (i : ℕ)
        → IsElsewhere sb ip.inum b i
        → ((k : ℕ) → k < 141 → slot ip d k ≢ b)
        → d'.blocks b i ≡ d.blocks b i
    pub bytes : AreBytes d'
    pub logs : Logs d d'

  module _ {ip : Inode} {d : Disk} {ip' : Inode} {d' : Disk} {b : ℕ}
      (p : Touched ip d ip' d' b) where
    pub slot-Touched : (k : ℕ) → slot ip' d' k ≡ slot ip d k
    unfolding slot
    slot-Touched k =
        ap
          (λ a.
            if ltb k ndirect
            then a
            else (if k == last_slot
                then ip'.addrs ndirect
                else word_at d' (ip'.addrs ndirect) (k - ndirect)))
          (p.same_addrs k)
        ∙ ap
            (λ a.
              if ltb k ndirect
              then ip.addrs k
              else (if k == last_slot then a else word_at d' a (k - ndirect)))
            (p.same_addrs ndirect)
        ∙ ap
            (λ w.
              if ltb k ndirect
              then ip.addrs k
              else (if k == last_slot then ip.addrs ndirect else w))
            (word_at-kept sb d d' (ip.addrs 12) (k - 12)
              (λ ne i. p.kept (ip.addrs 12) i (p.not_numbers ne)))

    pub in_use-Touched : (c : ℕ) → c < sb.size → in_use sb d' c ≡ in_use sb d c
    unfolding in_use map_bit
    in_use-Touched c h =
        ap (λ v. is_set v (c % bpb % 8)) (p.kept (bblock sb c) (c % bpb / 8) (p.off_map c h))

    pub IsFile-Touched : IsFile sb ip' d'
    IsFile-Touched = record {
      bytes = p.bytes;
      map = λ c h. let (lt, u) = p.file.map c h in (lt, in_use-Touched (bblock sb c) lt ∙ u);
      small = p.file.small;
      zero_used = (p.file.zero_used.0, in_use-Touched 0 p.file.zero_used.0 ∙ p.file.zero_used.1);
      used = λ k h ne.
          let (lt, u, off) = p.file.used k h (λ z. ne (slot-Touched k ∙ z)) in
          subst (λ x. (x < sb.size) × (in_use sb d' x ≡ true) × IsOffMap sb x)
            (sym (slot-Touched k)) (lt, in_use-Touched (slot ip d k) lt ∙ u, off);
      distinct = λ i j hi hj ne e.
          p.file.distinct i j hi hj (λ z. ne (slot-Touched i ∙ z))
            (sym (slot-Touched i) ∙ e ∙ slot-Touched j);
      iused =
          subst
            (λ n.
              (iblock sb n < sb.size)
              × (in_use sb d' (iblock sb n) ≡ true)
              × IsOffMap sb (iblock sb n))
            (sym p.same_inum)
            (let (lt, u, off) = p.file.iused in
              (lt, in_use-Touched (iblock sb ip.inum) lt ∙ u, off));
      iblock_nonzero = subst (λ n. iblock sb n ≢ 0) (sym p.same_inum) p.file.iblock_nonzero;
      iapart = λ j h.
          subst (λ n. slot ip' d' j ≢ iblock sb n) (sym p.same_inum)
            (λ z. p.file.iapart j h (sym (slot-Touched j) ∙ z));
    }

    pub elsewhere-Touched :
        (x i : ℕ)
        → IsElsewhere sb ip.inum x i
        → (x ≡ b → (k : ℕ) → k < 141 → slot ip d k ≢ b)
        → d'.blocks x i ≡ d.blocks x i
    elsewhere-Touched x i out none = elim (ℕ_discrete x b) [
      | yes e ↦
          subst (λ y. d'.blocks y i ≡ d.blocks y i) (sym e)
            (p.mine i (subst (λ y. IsElsewhere sb ip.inum y i) e out) (none e))
      | no other ↦ p.kept x i other
    ]

    pub Frame-Touched : ip'.type ≡ ip.type → Frame sb ip d ip' d'
    Frame-Touched same_type = record {
      same_inum = p.same_inum;
      same_type = same_type;
      stays = λ k h ne. slot-Touched k;
      marks = λ x h u. in_use-Touched x h ∙ u;
      old = λ k x h l u e. sym (slot-Touched k) ∙ e;
      mine = λ x h u. inl (sym (in_use-Touched x h) ∙ u);
      others = λ x i h u off out ne. elsewhere-Touched x i out (λ e k l z. ne k l (z ∙ sym e));
      logs = p.logs;
    }
