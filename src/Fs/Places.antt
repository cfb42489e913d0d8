-- ===== src/Fs/Places.antt =====
-- fs.c: the places of a file when `bmap` puts a block in one.
use test_ascii.Common.{
  ℕ, ◌+◌, ◌-◌, ◌*◌, ◌^◌, ◌≡◌, ◌≢◌, ◌<◌, ◌≤◌, ◌⊎◌, inl, inr, refl, sym, ◌∙◌, ap, arith, ◌==◌,
  if◌then◌else◌,
}
use native.Mathlib.Decide.{ℕ_discrete, dec_lt}
use test_ascii.Fs.{Superblock, Disk, log_write}
use test_ascii.Fs.Map.{in_use}
use test_ascii.Fs.Alloc.{Allocated}
use test_ascii.Fs.Words.{
  read_half, read_word, write_word, read_word-same, read_word-write_word, read_word-Rewrites,
  write_word-Rewrites,
}
use test_ascii.Fs.Inode.{Inode, set_addr}
use test_ascii.Fs.Slots.{word_at, slot, IsFile}

pub word_at-zero : (d : Disk) (b j : ℕ) → b ≡ 0 → word_at d b j ≡ 0
unfolding word_at
word_at-zero d b j z = ground arith

pub word_at-here : (d : Disk) (b j : ℕ) → b ≢ 0 → word_at d b j ≡ read_word d b (4 * j)
unfolding word_at
word_at-here d b j z = ground arith

pub slot-direct : (ip : Inode) (d : Disk) (k : ℕ) → k < 12 → slot ip d k ≡ ip.addrs k
unfolding slot
slot-direct ip d k h = ground arith

pub slot-last : (ip : Inode) (d : Disk) → slot ip d 140 ≡ ip.addrs 12
unfolding slot
slot-last ip d = refl

pub slot-word :
    (ip : Inode) (d : Disk) (k : ℕ)
    → 12 ≤ k
    → k < 140
    → slot ip d k ≡ word_at d (ip.addrs 12) (k - 12)
unfolding slot
slot-word ip d k h l = ground arith

pub word_at-zeroed : (d : Disk) (b j : ℕ) → ((i : ℕ) → d.blocks b i ≡ 0) → word_at d b j ≡ 0
unfolding word_at read_word read_half
word_at-zeroed d b j h = ground (arith, h (4 * j), h (4 * j + 1), h (4 * j + 2), h (4 * j + 2 + 1))

-- The three kinds of place.
pub data Place (j : ℕ) : Type 0 where
  direct : j < 12 → Place j
  last : j ≡ 140 → Place j
  word : 12 ≤ j → j < 140 → Place j

pub place : (j : ℕ) → j < 141 → Place j
place j h = elim (ℕ_discrete j 140) [
  | yes e ↦ last e
  | no ne ↦ elim (dec_lt j 12) [ yes lt ↦ direct lt | no ge ↦ word (omega arith) (omega arith) ]
]

module _ (sb : Superblock) where
  pub word_at-kept :
      (d d' : Disk) (b j : ℕ)
      → (b ≢ 0 → (i : ℕ) → d'.blocks b i ≡ d.blocks b i)
      → word_at d' b j ≡ word_at d b j
  word_at-kept d d' b j h = elim (ℕ_discrete b 0) [
    | yes z ↦ word_at-zero d' b j z ∙ sym (word_at-zero d b j z)
    | no ne ↦
        word_at-here d' b j ne ∙ read_word-same d d' b (4 * j) (h ne) ∙ sym (word_at-here d b j ne)
  ]

  -- `balloc` does not touch the block with the numbers.
  pub word_at-Allocated :
      (ip : Inode) (d d₀ : Disk) (b j : ℕ)
      → IsFile sb ip d
      → Allocated sb d d₀ b
      → word_at d₀ (ip.addrs 12) j ≡ word_at d (ip.addrs 12) j
  unfolding slot
  word_at-Allocated ip d d₀ b j file block = word_at-kept d d₀ (ip.addrs 12) j (λ ne i.
      let (lt, u, off) = file.used 140 (omega arith) ne in
      block.kept (ip.addrs 12) i (λ e. ground (arith, u, block.was_free, ap (in_use sb d) e)) off)

  pub slots-direct :
      (ip : Inode) (d d₀ : Disk) (k b : ℕ)
      → IsFile sb ip d
      → Allocated sb d d₀ b
      → k < 12
      → (j : ℕ) → j < 141
      → slot (set_addr k b ip) d₀ j ≡ (if k == j then b else slot ip d j)
  slots-direct ip d d₀ k b file block lt j h = elim (place j h) [
    | direct l ↦
        slot-direct (set_addr k b ip) d₀ j l
        ∙ ap (λ v. if k == j then b else v) (sym (slot-direct ip d j l))
    | last e ↦ ground (arith, e, slot-last (set_addr k b ip) d₀, slot-last ip d)
    | word l m ↦
        slot-word (set_addr k b ip) d₀ j l m
        ∙ ap (λ v. word_at d₀ v (j - 12)) (addr_kept)
        ∙ word_at-Allocated ip d d₀ b (j - 12) file block
        ∙ sym (slot-word ip d j l m)
        ∙ other l
  ]
    where
      addr_kept : (if k == 12 then b else ip.addrs 12) ≡ ip.addrs 12
      addr_kept = ground arith

      other : 12 ≤ j → slot ip d j ≡ (if k == j then b else slot ip d j)
      other l = ground arith

  pub slots-last :
      (ip : Inode) (d d₀ : Disk) (b : ℕ)
      → Allocated sb d d₀ b
      → ip.addrs 12 ≡ 0
      → (j : ℕ) → j < 141
      → slot (set_addr 12 b ip) d₀ j ≡ (if 140 == j then b else slot ip d j)
  slots-last ip d d₀ b block empty j h = elim (place j h) [
    | direct l ↦ slot-direct (set_addr 12 b ip) d₀ j l ∙ ground (arith, slot-direct ip d j l)
    | last e ↦ ground (arith, e, slot-last (set_addr 12 b ip) d₀)
    | word l m ↦
        slot-word (set_addr 12 b ip) d₀ j l m
        ∙ word_at-zeroed d₀ b (j - 12) block.zeroed
        ∙ sym (word_at-zero d (ip.addrs 12) (j - 12) empty)
        ∙ sym (slot-word ip d j l m)
        ∙ ground arith
  ]

  pub slots-word :
      (ip : Inode) (d d₀ : Disk) (n b : ℕ)
      → IsFile sb ip d
      → Allocated sb d d₀ b
      → ip.addrs 12 ≢ 0
      → n < 128
      → (j : ℕ) → j < 141
      → slot ip (log_write (ip.addrs 12) (write_word (ip.addrs 12) (4 * n) b d₀)) j
        ≡ (if 12 + n == j then b else slot ip d j)
  unfolding log_write
  slots-word ip d d₀ n b file block ne lt j h =
      let d' = log_write (ip.addrs 12) (write_word (ip.addrs 12) (4 * n) b d₀) in
      elim (place j h) [
        | direct l ↦ slot-direct ip d' j l ∙ ground (arith, slot-direct ip d j l)
        | last e ↦ ground (arith, e, slot-last ip d', slot-last ip d)
        | word l m ↦
            slot-word ip d' j l m
            ∙ word_at-here d' (ip.addrs 12) (j - 12) ne
            ∙ elim (ℕ_discrete (12 + n) j) [
              | yes e ↦
                  ap (read_word d' (ip.addrs 12)) (place_of e)
                  ∙ logged (4 * n)
                  ∙ read_word-write_word (ip.addrs 12) (4 * n) b d₀ small
                  ∙ ground (arith, e)
              | no other ↦
                  logged (4 * (j - 12))
                  ∙ read_word-Rewrites (ip.addrs 12) (4 * (j - 12))
                      (write_word-Rewrites (ip.addrs 12) (4 * n) b d₀) (inr (apart l other))
                  ∙ sym (word_at-here d₀ (ip.addrs 12) (j - 12) ne)
                  ∙ word_at-Allocated ip d d₀ b (j - 12) file block
                  ∙ sym (slot-word ip d j l m)
                  ∙ ground arith
            ]
      ]
    where
      logged :
          (i : ℕ)
          → read_word
              (log_write (ip.addrs 12) (write_word (ip.addrs 12) (4 * n) b d₀))
              (ip.addrs 12)
              i
            ≡ read_word (write_word (ip.addrs 12) (4 * n) b d₀) (ip.addrs 12) i
      logged i =
          read_word-same (write_word (ip.addrs 12) (4 * n) b d₀)
            (log_write (ip.addrs 12) (write_word (ip.addrs 12) (4 * n) b d₀)) (ip.addrs 12) i
            (λ k. refl)

      small : b < 2 ^ 32
      small = omega (arith, block.below, file.small)

      place_of : 12 + n ≡ j → 4 * (j - 12) ≡ 4 * n
      place_of e = omega arith

      apart : 12 ≤ j → 12 + n ≢ j → (4 * (j - 12) + 3 < 4 * n) ⊎ (4 * n + 4 ≤ 4 * (j - 12))
      apart l other = elim (dec_lt j (12 + n)) [
        | yes lt ↦ inl (omega arith)
        | no ge ↦ inr (omega arith)
      ]
