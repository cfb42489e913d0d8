-- ===== src/Fs/Emptying.antt =====
-- fs.c: the file after the loops of `itrunc`.
use test_ascii.Common.{
  ℕ, ◌+◌, ◌-◌, ◌*◌, ◌≡◌, ◌≢◌, ◌<◌, ◌≤◌, refl, sym, ◌∙◌, ap, subst, arith, Bool, true, false, ◌==◌,
  if◌then◌else◌,
}
use test_ascii.Fs.{Superblock, Disk}
use test_ascii.Fs.Logs.{Logs, Logs-trans}
use test_ascii.Fs.Map.{AreBytes, in_use, IsOffMap}
use test_ascii.Fs.Words.{read_word, read_word-same}
use test_ascii.Fs.Alloc.{Freed}
use test_ascii.Fs.Inode.{Inode, set_addr}
use test_ascii.Fs.Slots.{slot, word_at, IsFile, IsElsewhere}
use test_ascii.Fs.Places.{
  place, direct, last, word, slot-direct, slot-last, slot-word, word_at-zero,
}
use test_ascii.Fs.Bmap.{slot-nth}
use test_ascii.Fs.Freeing.{AreListed, Frees, cleared}

other_mark : (b c : ℕ) (v : Bool) → b ≢ c → (if b == c then false else v) ≡ v
other_mark b c v ne = ground (arith, ne)

own_mark : (b c : ℕ) (v : Bool) → v ≡ false → (if b == c then false else v) ≡ false
own_mark b c v e = ground (arith, e)

at_mark : (b c : ℕ) (v : Bool) → b ≡ c → (if b == c then false else v) ≡ false
at_mark b c v e = ground (arith, e)

module _ (sb : Superblock) where
  -- The file has no block left, and just those it had are free.
  pub record Emptied (ip : Inode) (d : Disk) (ip' : Inode) (d' : Disk) : Type 0 where
    pub none_left : (k : ℕ) → slot ip' d' k ≡ 0
    pub same_inum : ip'.inum ≡ ip.inum
    pub same_ref : ip'.ref ≡ ip.ref
    pub freed : (k : ℕ) → k < 141 → slot ip d k ≢ 0 → in_use sb d' (slot ip d k) ≡ false
    pub kept :
        (c : ℕ)
        → c < sb.size
        → ((k : ℕ) → k < 141 → slot ip d k ≢ 0 → slot ip d k ≢ c)
        → in_use sb d' c ≡ in_use sb d c
    pub same : (x i : ℕ) → IsOffMap sb x → IsElsewhere sb ip.inum x i → d'.blocks x i ≡ d.blocks x i
    pub bytes : AreBytes d'
    pub logs : Logs d d'

  module _ (ip : Inode) (d : Disk) (file : IsFile sb ip d) where
    pub AreListed-direct : AreListed sb ip.addrs 0 12 d
    AreListed-direct = record {
      bytes = file.bytes;
      used = λ i lo hi ne.
          let s = slot-direct ip d i hi in
          subst (λ x. (x < sb.size) × (in_use sb d x ≡ true)) s
            (let (lt, u, off) = file.used i (omega arith) (λ z. ne (sym s ∙ z)) in (lt, u));
      distinct = λ i k lo lt hi ne e.
          let s = slot-direct ip d i (omega arith) in
          absurd (
            omega (
              arith,
              lt,
              file.distinct i k (omega arith) (omega arith) (λ z. ne (sym s ∙ z))
                  (s ∙ e ∙ sym (slot-direct ip d k hi)),
            ));
    }

    pub Emptied-none :
        (d₁ : Disk)
        → ip.addrs 12 ≡ 0
        → Frees sb ip.addrs 0 12 d d₁
        → Emptied ip d (cleared sb 0 12 ip) d₁
    unfolding slot word_at
    Emptied-none d₁ z f = record {
      none_left = λ k. ground arith;
      same_inum = refl;
      same_ref = refl;
      freed = λ k h ne. elim (place k h) [
        | direct l ↦
            ap (in_use sb d₁) (slot-direct ip d k l)
            ∙ f.freed k (omega arith) l (λ e. ne (slot-direct ip d k l ∙ e))
        | last e ↦ absurd (ne (ap (slot ip d) e ∙ slot-last ip d ∙ z))
        | word l m ↦ absurd (ne (slot-word ip d k l m ∙ word_at-zero d (ip.addrs 12) (k - 12) z))
      ];
      kept = λ c h none. f.kept c (λ i lo hi ne e.
          none i (omega arith) (λ z. ne (sym (slot-direct ip d i hi) ∙ z))
            (slot-direct ip d i hi ∙ e));
      same = λ x i off out. f.same x i off;
      bytes = f.bytes;
      logs = f.logs;
    }

    -- The numbers in the last block, which freeing the others does not change.
    module _ (d₁ : Disk) (ne : ip.addrs 12 ≢ 0) (f : Frees sb ip.addrs 0 12 d d₁) where
      abbrev pub words : ℕ → ℕ
      words j = read_word d₁ (ip.addrs 12) (4 * j)

      last_used :
          (ip.addrs 12 < sb.size) × (in_use sb d (ip.addrs 12) ≡ true) × IsOffMap sb (ip.addrs 12)
      last_used =
          subst (λ x. (x < sb.size) × (in_use sb d x ≡ true) × IsOffMap sb x) (slot-last ip d)
            (file.used 140 (omega arith) (λ z. ne (sym (slot-last ip d) ∙ z)))

      words-slot : (j : ℕ) → j < 128 → slot ip d (12 + j) ≡ words j
      words-slot j h =
          slot-nth sb ip d j ne h
          ∙ sym
              (read_word-same d d₁ (ip.addrs 12) (4 * j) (λ k. f.same (ip.addrs 12) k last_used.2))

      -- Slots apart from the direct ones are marked still.
      still : (k : ℕ) → 12 ≤ k → k < 141 → slot ip d k ≢ 0 → in_use sb d₁ (slot ip d k) ≡ true
      still k lo hi nz =
          f.kept (slot ip d k) (λ i l h z e. absurd (
            omega (
              arith,
              lo,
              h,
              file.distinct i k (omega arith) hi (λ y. z (sym (slot-direct ip d i h) ∙ y))
                  (slot-direct ip d i h ∙ e),
            )))
          ∙ (file.used k hi nz).1

      pub AreListed-words : AreListed sb words 0 128 d₁
      AreListed-words = record {
        bytes = f.bytes;
        used = λ i lo hi nz.
            let s = words-slot i hi in
            let z : slot ip d (12 + i) ≢ 0 = λ y. nz (sym s ∙ y) in
            subst (λ x. (x < sb.size) × (in_use sb d₁ x ≡ true)) s
              (
                (file.used (12 + i) (omega arith) z).0,
                still (12 + i) (omega arith) (omega arith) z,
              );
        distinct = λ i k lo lt hi nz e.
            let s = words-slot i (omega arith) in
            absurd (
              omega (
                arith,
                lt,
                file.distinct (12 + i) (12 + k) (omega arith) (omega arith) (λ z. nz (sym s ∙ z))
                    (s ∙ e ∙ sym (words-slot k hi)),
              ));
      }

      pub last_still : (d₂ : Disk) → Frees sb words 0 128 d₁ d₂ → in_use sb d₂ (ip.addrs 12) ≡ true
      last_still d₂ g =
          g.kept (ip.addrs 12) (λ i lo hi nz e.
            let s = words-slot i hi in
            absurd (
              omega (
                arith,
                hi,
                file.distinct (12 + i) 140 (omega arith) (omega arith) (λ z. nz (sym s ∙ z))
                    (s ∙ e ∙ sym (slot-last ip d)),
              )))
          ∙ ap (in_use sb d₁) (sym (slot-last ip d))
          ∙ still 140 (omega arith) (omega arith) (λ z. ne (sym (slot-last ip d) ∙ z))

      above : (k : ℕ) → 12 ≤ k → k < 140 → slot ip d k ≡ words (k - 12)
      above k lo hi = ap (slot ip d) (same_place k lo) ∙ words-slot (k - 12) (omega arith)
        where
          same_place : (k : ℕ) → 12 ≤ k → k ≡ 12 + (k - 12)
          same_place k lo = omega arith

      pub Emptied-all :
          (d₂ d₃ : Disk)
          → Frees sb words 0 128 d₁ d₂
          → Freed sb d₂ d₃ (ip.addrs 12)
          → Emptied ip d (set_addr 12 0 (cleared sb 0 12 ip)) d₃
      unfolding slot word_at
      Emptied-all d₂ d₃ g h = record {
        none_left = λ k. ground arith;
        same_inum = refl;
        same_ref = refl;
        freed = λ k lt nz. h.now (slot ip d k) ∙ elim (place k lt) [
          | last e ↦
              at_mark (ip.addrs 12) (slot ip d k) (in_use sb d₂ (slot ip d k))
                (sym (slot-last ip d) ∙ ap (slot ip d) (sym e))
          | direct l ↦ own_mark (ip.addrs 12) (slot ip d k) (in_use sb d₂ (slot ip d k)) (
              g.kept (slot ip d k) (λ i lo hi z e. absurd (
                omega (
                  arith,
                  l,
                  file.distinct (12 + i) k (omega arith) lt (λ y. z (sym (words-slot i hi) ∙ y))
                      (words-slot i hi ∙ e),
                )))
              ∙ ap (in_use sb d₁) (slot-direct ip d k l)
              ∙ f.freed k (omega arith) l (λ z. nz (slot-direct ip d k l ∙ z)))
          | word l m ↦ own_mark (ip.addrs 12) (slot ip d k) (in_use sb d₂ (slot ip d k)) (
              let e = above k l m in
              ap (in_use sb d₂) e ∙ g.freed (k - 12) (omega arith) (omega arith) (λ z. nz (e ∙ z)))
        ];
        kept = λ c lt none.
            h.now c
            ∙ other_mark (ip.addrs 12) c (in_use sb d₂ c) (λ e.
              none 140 (omega arith) (λ z. ne (sym (slot-last ip d) ∙ z)) (slot-last ip d ∙ e))
            ∙ g.kept c (λ i lo hi nz e.
              none (12 + i) (omega arith) (λ z. nz (sym (words-slot i hi) ∙ z))
                (words-slot i hi ∙ e))
            ∙ f.kept c (λ i lo hi nz e.
              none i (omega arith) (λ z. nz (sym (slot-direct ip d i hi) ∙ z))
                (slot-direct ip d i hi ∙ e));
        same = λ x i off out.
            h.kept x i (off (ip.addrs 12) last_used.0) ∙ g.same x i off ∙ f.same x i off;
        bytes = h.bytes;
        logs = Logs-trans f.logs (Logs-trans g.logs h.logs);
      }
