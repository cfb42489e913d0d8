-- ===== src/Fs/Fresh.antt =====
-- fs.c: a block that `balloc` gave, put in an empty place of a file.
use test_ascii.Common.{
  ℕ, ◌≡◌, ◌≢◌, ◌<◌, inl, inr, refl, sym, ◌∙◌, ap, subst, arith, true, ◌==◌, if◌then◌else◌,
}
use native.Mathlib.Decide.{ℕ_discrete}
use test_ascii.Fs.{Superblock, Disk, bblock}
use test_ascii.Fs.Logs.{Logs, Logs-trans}
use test_ascii.Fs.Map.{AreBytes, in_use, IsOffMap}
use test_ascii.Fs.Alloc.{Allocated}
use test_ascii.Fs.Inode.{Inode, iblock}
use test_ascii.Fs.Slots.{slot, block_byte, IsFile, Frame, Kept}

module _ (sb : Superblock) where
  -- The block is in place `k` of the file; besides, only the block with the numbers is written.
  pub record Placed (ip : Inode) (d d₀ : Disk) (ip' : Inode) (d' : Disk) (k b : ℕ) : Type 0 where
    pub file : IsFile sb ip d
    pub inside : k < 141
    pub empty : slot ip d k ≡ 0
    pub block : Allocated sb d d₀ b
    pub same_inum : ip'.inum ≡ ip.inum
    pub same_type : ip'.type ≡ ip.type
    pub same_size : ip'.size ≡ ip.size
    pub slots : (j : ℕ) → j < 141 → slot ip' d' j ≡ (if k == j then b else slot ip d j)
    pub map : (c : ℕ) → c < sb.size → in_use sb d' c ≡ in_use sb d₀ c
    pub kept : (x i : ℕ) → (slot ip d 140 ≢ 0 → slot ip d 140 ≢ x) → d'.blocks x i ≡ d₀.blocks x i
    pub bytes : AreBytes d'
    pub logs : Logs d₀ d'

  module _ {ip : Inode} {d d₀ : Disk} {ip' : Inode} {d' : Disk} {k b : ℕ}
      (p : Placed ip d d₀ ip' d' k b) where
    new_marks : (c : ℕ) → c < sb.size → in_use sb d' c ≡ (if b == c then true else in_use sb d c)
    new_marks c h = p.map c h ∙ p.block.now c h

    old_marks : (c : ℕ) → c < sb.size → in_use sb d c ≡ true → in_use sb d' c ≡ true
    old_marks c h u = ground (arith, new_marks c h, u)

    -- A marked block is not the new one.
    not_new : (x : ℕ) → in_use sb d x ≡ true → x ≢ b
    not_new x u e = ground (arith, u, p.block.was_free, ap (in_use sb d) e)

    off_map : IsOffMap sb b
    off_map c h e = not_new (bblock sb c) ((p.file.map c h).1) e

    new_slot : (j : ℕ) → k ≡ j → j < 141 → slot ip' d' j ≡ b
    new_slot j e h = ground (arith, p.slots j h)

    old_slot : (j : ℕ) → k ≢ j → j < 141 → slot ip' d' j ≡ slot ip d j
    old_slot j e h = ground (arith, p.slots j h)

    slot_not_new : (j : ℕ) → j < 141 → slot ip d j ≢ 0 → slot ip d j ≢ b
    slot_not_new j h ne = not_new (slot ip d j) (p.file.used j h ne).1

    positive : b ≢ 0
    positive e = not_new 0 (p.file.zero_used.1) (sym e)

    pub filled : slot ip' d' k ≢ 0
    filled z = positive (sym (new_slot k refl p.inside) ∙ z)

    pub IsFile-Placed : IsFile sb ip' d'
    IsFile-Placed = record {
      bytes = p.bytes;
      map = λ c h.
          ((p.file.map c h).0, old_marks (bblock sb c) (p.file.map c h).0 (p.file.map c h).1);
      small = p.file.small;
      zero_used = (p.file.zero_used.0, old_marks 0 p.file.zero_used.0 p.file.zero_used.1);
      used = λ j h ne. elim (ℕ_discrete k j) [
        | yes e ↦
            subst (λ x. (x < sb.size) × (in_use sb d' x ≡ true) × IsOffMap sb x)
              (sym (new_slot j e h))
              (p.block.below, ground (arith, new_marks b p.block.below), off_map)
        | no other ↦
            subst (λ x. (x < sb.size) × (in_use sb d' x ≡ true) × IsOffMap sb x)
              (sym (old_slot j other h))
              (let (lt, u, off) = p.file.used j h (λ e. ne (old_slot j other h ∙ e)) in
                (lt, old_marks (slot ip d j) lt u, off))
      ];
      distinct = λ i j hi hj ne e. elim (ℕ_discrete k i) [
        | yes ki ↦ elim (ℕ_discrete k j) [
          | yes kj ↦ sym ki ∙ kj
          | no kj ↦ absurd (
              slot_not_new j hj (λ z. positive (sym (new_slot i ki hi) ∙ e ∙ old_slot j kj hj ∙ z))
                (sym (old_slot j kj hj) ∙ sym e ∙ new_slot i ki hi))
        ]
        | no ki ↦ elim (ℕ_discrete k j) [
          | yes kj ↦ absurd (
              slot_not_new i hi (λ z. ne (old_slot i ki hi ∙ z))
                (sym (old_slot i ki hi) ∙ e ∙ new_slot j kj hj))
          | no kj ↦
              p.file.distinct i j hi hj (λ z. ne (old_slot i ki hi ∙ z))
                (sym (old_slot i ki hi) ∙ e ∙ old_slot j kj hj)
        ]
      ];
      iused =
          subst
            (λ n.
              (iblock sb n < sb.size)
              × (in_use sb d' (iblock sb n) ≡ true)
              × IsOffMap sb (iblock sb n))
            (sym p.same_inum)
            (
              p.file.iused.0,
              old_marks (iblock sb ip.inum) p.file.iused.0 p.file.iused.1,
              p.file.iused.2,
            );
      iblock_nonzero = subst (λ n. iblock sb n ≢ 0) (sym p.same_inum) p.file.iblock_nonzero;
      iapart = λ j h.
          subst (λ n. slot ip' d' j ≢ iblock sb n) (sym p.same_inum)
            (elim (ℕ_discrete k j) [
              | yes e ↦ λ z. not_new (iblock sb ip.inum) p.file.iused.1 (sym z ∙ new_slot j e h)
              | no other ↦ λ z. p.file.iapart j h (sym (old_slot j other h) ∙ z)
            ]);
    }

    -- The bytes of a marked block that is not the one with the numbers.
    same_bytes :
        (x i : ℕ)
        → in_use sb d x ≡ true
        → IsOffMap sb x
        → (slot ip d 140 ≢ 0 → slot ip d 140 ≢ x)
        → d'.blocks x i ≡ d.blocks x i
    same_bytes x i u off ne = p.kept x i ne ∙ p.block.kept x i (not_new x u) off

    block_byte-zero : (e : Disk) (x i : ℕ) → x ≡ 0 → block_byte e x i ≡ 0
    unfolding block_byte
    block_byte-zero e x i z = ground arith

    block_byte-here : (e : Disk) (x i : ℕ) → x ≢ 0 → block_byte e x i ≡ e.blocks x i
    unfolding block_byte
    block_byte-here e x i z = ground arith

    same_data : (j i : ℕ) → j < 140 → block_byte d' (slot ip' d' j) i ≡ block_byte d (slot ip d j) i
    same_data j i h = elim (ℕ_discrete k j) [
      | yes e ↦
          ap (λ x. block_byte d' x i) (new_slot j e (omega arith))
          ∙ block_byte-here d' b i positive
          ∙ p.kept b i (λ ne. slot_not_new 140 (omega arith) ne)
          ∙ p.block.zeroed i
          ∙ sym (block_byte-zero d (slot ip d j) i (ap (slot ip d) (sym e) ∙ p.empty))
      | no other ↦
          ap (λ x. block_byte d' x i) (old_slot j other (omega arith))
          ∙ elim (ℕ_discrete (slot ip d j) 0) [
            | yes z ↦
                block_byte-zero d' (slot ip d j) i z ∙ sym (block_byte-zero d (slot ip d j) i z)
            | no z ↦
                block_byte-here d' (slot ip d j) i z
                ∙ same_bytes (slot ip d j) i ((p.file.used j (omega arith) z).1)
                    ((p.file.used j (omega arith) z).2)
                    (λ ne e.
                      absurd
                        (omega (arith, p.file.distinct 140 j (omega arith) (omega arith) ne e)))
                ∙ sym (block_byte-here d (slot ip d j) i z)
          ]
    ]

    Frame-Placed : Frame sb ip d ip' d'
    Frame-Placed = record {
      same_inum = p.same_inum;
      same_type = p.same_type;
      stays = λ j h ne. old_slot j (λ e. ne (ap (slot ip d) (sym e) ∙ p.empty)) h;
      marks = old_marks;
      old = λ j x h l u e. elim (ℕ_discrete k j) [
        | yes kj ↦ absurd (not_new x u (sym e ∙ new_slot j kj h))
        | no kj ↦ sym (old_slot j kj h) ∙ e
      ];
      mine = λ x h u. elim (ℕ_discrete b x) [
        | yes e ↦ inr (k, p.inside, new_slot k refl p.inside ∙ e, λ z. positive (e ∙ z))
        | no ne ↦ inl (ground (arith, new_marks x h, u))
      ];
      others = λ x i h u off out ne. same_bytes x i u off (λ z. ne 140 (omega arith));
      logs = Logs-trans p.block.logs p.logs;
    }

    pub Kept-Placed : Kept sb ip d ip' d'
    Kept-Placed = record { frame = Frame-Placed; same_size = p.same_size; same_data = same_data }
