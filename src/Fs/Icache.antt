-- ===== src/Fs/Icache.antt =====
-- fs.c: the table of inodes in memory. A call that would wait for an inode's lock is not modelled:
-- the lock is free when it is taken.
use test_ascii.Common.{
  ℕ, zero, suc, ◌+◌, ◌*◌, ◌%◌, Bool, true, false, not, ◌&&◌, ◌||◌, Option, none, some, ltb, leb,
  ◌==◌, if◌then◌else◌, Outcome, done, panic, ◌>>=◌, sub32, u32, slt,
}
use test_ascii.Common.Arrays.{update}
use test_ascii.Fs.{Superblock, Disk, log_write}
use test_ascii.Fs.Words.{read_half, write_half}
use test_ascii.Fs.Inode.{Inode, iblock, ipb, dinode_size, read_dinode, itrunc, iupdate}

-- param.h
abbrev pub ninode : ℕ
ninode = 50

-- `icache`, the lock of each inode, and the disk.
pub record Icache : Type 0 where
  pub inodes : ℕ → Inode
  pub locked : ℕ → Bool
  pub disk : Disk

abbrev pub set_inode : ℕ → Inode → Icache → Icache
set_inode i ip s = record s { inodes = update s.inodes i ip }

abbrev pub set_locked : ℕ → Bool → Icache → Icache
set_locked i b s = record s { locked = update s.locked i b }

-- What the loop of `iget` finds: the inode, or the first empty entry if there is one.
pub data Entry : Type 0 where
  cached : ℕ → Entry
  absent : Option ℕ → Entry

abbrev pub or_empty : Option ℕ → Bool → ℕ → Option ℕ
or_empty (some e) is_empty i = some e
or_empty none true i = some i
or_empty none false i = none

-- `ip->ref > 0 && ip->dev == dev && ip->inum == inum`
abbrev pub is_inode : ℕ → ℕ → Inode → Bool
is_inode dev inum ip = slt 0 ip.ref && (ip.dev == dev && ip.inum == inum)

unfoldable pub find_inode : ℕ → ℕ → (ℕ → Inode) → ℕ → ℕ → Option ℕ → Entry
find_inode dev inum inodes zero i empty = absent empty
find_inode dev inum inodes (suc n) i empty =
    let rest = find_inode dev inum inodes n (i + 1) (or_empty empty ((inodes i).ref == 0) i) in
    if is_inode dev inum (inodes i) then cached i else rest

unfoldable pub iget_found : ℕ → ℕ → Entry → Icache → Outcome (ℕ × Icache)
iget_found dev inum (cached i) s =
    done (i, set_inode i (record (s.inodes i) { ref = u32 ((s.inodes i).ref + 1) }) s)
iget_found dev inum (absent none) s = panic
iget_found dev inum (absent (some i)) s =
    done (i, set_inode i (record (s.inodes i) { dev = dev; inum = inum; ref = 1; valid = false }) s)

unfoldable pub iget : ℕ → ℕ → Icache → Outcome (ℕ × Icache)
unfolding find_inode iget_found
iget dev inum s = iget_found dev inum (find_inode dev inum s.inodes ninode 0 none) s

unfoldable pub idup : ℕ → Icache → ℕ × Icache
idup i s = (i, set_inode i (record (s.inodes i) { ref = u32 ((s.inodes i).ref + 1) }) s)

-- `iunlock` of an inode; the lock's holder is the process that has it.
unfoldable pub iunlock : Option ℕ → Icache → Outcome Icache
iunlock none s = panic
iunlock (some i) s =
    if not (s.locked i) || slt (s.inodes i).ref 1 then panic else done (set_locked i false s)

-- `memset(dip, 0, sizeof(*dip))`
unfoldable pub zero_dinode : ℕ → ℕ → Disk → Disk
zero_dinode b at d = record d {
  blocks =
      update d.blocks b (λ j. if leb at j && ltb j (at + dinode_size) then 0 else d.blocks b j);
}

-- The end of `iput`.
unfoldable pub iput_drop : ℕ → Icache → Icache
iput_drop i s =
    set_inode i (record (s.inodes i) { ref = sub32 (s.inodes i).ref 1 }) (set_locked i false s)

module _ (sb : Superblock) where
  -- `ialloc`'s loop over the inodes on the disk, `n` of them from `inum` on.
  unfoldable pub ialloc_loop : ℕ → ℕ → ℕ → ℕ → Icache → Outcome (ℕ × Icache)
  unfolding iget read_half write_half log_write zero_dinode
  ialloc_loop dev type zero inum s = panic
  ialloc_loop dev type (suc n) inum s =
      let b = iblock sb inum in
      let at = inum % ipb * dinode_size in
      let rest = ialloc_loop dev type n (inum + 1) s in
      if ltb inum sb.ninodes
      then (if read_half s.disk b at == 0
          then iget dev inum
              (record s { disk = log_write b (write_half b at type (zero_dinode b at s.disk)) })
          else rest)
      else panic

  unfoldable pub ialloc : ℕ → ℕ → Icache → Outcome (ℕ × Icache)
  unfolding ialloc_loop
  ialloc dev type s = ialloc_loop dev type sb.ninodes 1 s

  -- `ilock`, once it has the lock.
  unfoldable pub ilock_read : ℕ → Icache → Outcome Icache
  unfolding read_dinode
  ilock_read i s =
      let ip = s.inodes i in
      if ip.valid
      then done s
      else (let ip' =
            record (read_dinode (iblock sb ip.inum) (ip.inum % ipb * dinode_size) s.disk ip) {
              valid = true;
            } in
          if ip'.type == 0 then panic else done (set_inode i ip' s))

  unfoldable pub ilock : Option ℕ → Icache → Outcome Icache
  unfolding ilock_read
  ilock none s = panic
  ilock (some i) s = if slt (s.inodes i).ref 1 then panic else ilock_read i (set_locked i true s)

  -- Truncate and free an inode.
  unfoldable pub free_inode : ℕ → Icache → Outcome Icache
  unfolding itrunc iupdate
  free_inode i s = itrunc sb (s.inodes i) s.disk >>= λ (ip, d).
      let ip' = record ip { type = 0 } in
      done (set_inode i (record ip' { valid = false }) (record s { disk = iupdate sb ip' d }))

  unfoldable pub iput : ℕ → Icache → Outcome Icache
  unfolding free_inode iput_drop
  iput i s =
      let ip = s.inodes i in
      if ip.valid && ip.nlink == 0
      then (if ip.ref == 1
          then (free_inode i (set_locked i true s) >>= λ s'. done (iput_drop i s'))
          else done (iput_drop i (set_locked i true s)))
      else done (iput_drop i (set_locked i true s))

  unfoldable pub iunlockput : ℕ → Icache → Outcome Icache
  unfolding iunlock iput
  iunlockput i s = iunlock (some i) s >>= λ s'. iput i s'
