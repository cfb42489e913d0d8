-- ===== src/Fs/Addrs.antt =====
-- fs.c: the numbers in the inode that `bmap` fills in.
use test_ascii.Common.{
  ℕ, ◌≡◌, ◌≢◌, ◌<◌, refl, arith, true, ◌==◌, if◌then◌else◌, if_lem, Outcome, done, panic, ◌>>=◌,
}
use test_ascii.Fs.{Superblock, Disk}
use test_ascii.Fs.Logs.{Logs-refl}
use test_ascii.Fs.Map.{in_use}
use test_ascii.Fs.Blocks.{balloc}
use test_ascii.Fs.Alloc.{Allocated, Balloc, balloc_lem}
use test_ascii.Fs.Inode.{Inode, set_addr, addr_or_new}
use test_ascii.Fs.Slots.{slot, IsFile, Kept, Kept-refl, Kept-trans}
use test_ascii.Fs.Fresh.{Placed, filled, IsFile-Placed, Kept-Placed}
use test_ascii.Fs.Places.{slot-direct, slot-last, slots-direct, slots-last}

module _ (sb : Superblock) where
  -- The disk ran full, with at most new blocks of the file on it.
  abbrev pub Full : Inode → Disk → Type 0
  Full ip d =
      (ip' : Inode) × (d' : Disk) × IsFile sb ip' d'
      × Kept sb ip d ip' d'
      × ((c : ℕ) → c < sb.size → in_use sb d' c ≡ true)

  pub Full-Kept : {ip ip₁ : Inode} {d d₁ : Disk} → Kept sb ip d ip₁ d₁ → Full ip₁ d₁ → Full ip d
  Full-Kept p (ip', d', file, q, full) = (ip', d', file, Kept-trans sb p q, full)

  Placed-addr :
      (ip : Inode) (d d₀ : Disk) (k j b : ℕ)
      → IsFile sb ip d
      → Allocated sb d d₀ b
      → j < 141
      → slot ip d j ≡ 0
      → ((i : ℕ) → i < 141 → slot (set_addr k b ip) d₀ i ≡ (if j == i then b else slot ip d i))
      → Placed sb ip d d₀ (set_addr k b ip) d₀ j b
  Placed-addr ip d d₀ k j b file block lt empty slots = record {
    file = file;
    inside = lt;
    empty = empty;
    block = block;
    same_inum = refl;
    same_type = refl;
    same_size = refl;
    slots = slots;
    map = λ c h. refl;
    kept = λ x i h. refl;
    bytes = block.bytes;
    logs = Logs-refl d₀;
  }

  -- What a step that fills place `j` comes to.
  abbrev pub Filled : Inode → Disk → ℕ → Outcome (Inode × Disk) → Type 0
  Filled ip d j panic = Full ip d
  Filled ip d j (done (ip', d')) = IsFile sb ip' d' × Kept sb ip d ip' d' × (slot ip' d' j ≢ 0)

  Filled-Placed :
      {ip : Inode} {d d₀ : Disk} {ip' : Inode} {d' : Disk} {j b : ℕ}
      → Placed sb ip d d₀ ip' d' j b
      → Filled ip d j (done (ip', d'))
  Filled-Placed p = (IsFile-Placed sb p, Kept-Placed sb p, filled sb p)

  Filled-addr :
      (ip : Inode) (d : Disk) (k j : ℕ) (o : Outcome (ℕ × Disk))
      → IsFile sb ip d
      → j < 141
      → slot ip d j ≡ 0
      → ((d₀ : Disk) (b i : ℕ)
          → Allocated sb d d₀ b
          → i < 141
          → slot (set_addr k b ip) d₀ i ≡ (if j == i then b else slot ip d i))
      → Balloc sb d o
      → Filled ip d j (o >>= λ (addr, d'). done (set_addr k addr ip, d'))
  Filled-addr ip d k j panic file lt empty slots full = (ip, d, file, Kept-refl sb ip d, full)
  Filled-addr ip d k j (done (b, d₀)) file lt empty slots block =
      Filled-Placed (Placed-addr ip d d₀ k j b file block lt empty (λ i h. slots d₀ b i block h))

  pub addr_or_new-direct :
      (ip : Inode) (d : Disk) (k : ℕ)
      → IsFile sb ip d
      → k < 12
      → Filled ip d k (addr_or_new sb ip k d)
  unfolding addr_or_new
  addr_or_new-direct ip d k file lt =
      if_lem (Filled ip d k) (ip.addrs k == 0)
        (λ z.
          Filled-addr ip d k k (balloc sb d) file (omega arith)
            (ground (arith, z, slot-direct ip d k lt))
            (λ d₀ b i block h. slots-direct sb ip d d₀ k b file block lt i h)
            (balloc_lem sb d file.bytes file.map))
        (λ ne. (file, Kept-refl sb ip d, λ z. ground (arith, ne, z, slot-direct ip d k lt)))

  pub addr_or_new-last :
      (ip : Inode) (d : Disk) → IsFile sb ip d → Filled ip d 140 (addr_or_new sb ip 12 d)
  unfolding addr_or_new
  addr_or_new-last ip d file =
      if_lem (Filled ip d 140) (ip.addrs 12 == 0)
        (λ z.
          Filled-addr ip d 12 140 (balloc sb d) file (omega arith)
            (ground (arith, z, slot-last ip d))
            (λ d₀ b i block h. slots-last sb ip d d₀ b block (ground (arith, z)) i h)
            (balloc_lem sb d file.bytes file.map))
        (λ ne. (file, Kept-refl sb ip d, λ z. ground (arith, ne, z, slot-last ip d)))
