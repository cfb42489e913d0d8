-- ===== src/Fs/Io.antt =====
-- fs.c: `readi`, `writei` and `stati`.
use test_ascii.Common.{
  ℕ, zero, suc, ◌+◌, ◌-◌, ◌*◌, ◌/◌, ◌%◌, ◌^◌, ◌&&◌, ◌||◌, Option, none, some, ltb, leb, ◌==◌,
  if◌then◌else◌, min, Outcome, done, ◌>>=◌, u32, minus_one,
}
use test_ascii.Common.Arrays.{update}
use test_ascii.Fs.{Superblock, Disk, bsize, maxfile, log_write}
use test_ascii.Fs.Inode.{Inode, bmap, iupdate}

-- stat.h, param.h
abbrev pub t_dir : ℕ
t_dir = 1

abbrev pub t_dev : ℕ
t_dev = 3

abbrev pub ndev : ℕ
ndev = 10

-- `struct stat`
pub record Stat : Type 0 where
  pub type : ℕ
  pub dev : ℕ
  pub ino : ℕ
  pub nlink : ℕ
  pub size : ℕ

unfoldable pub stati : Inode → Stat
stati ip = record { dev = ip.dev; ino = ip.inum; type = ip.type; nlink = ip.nlink; size = ip.size }

-- `memmove(dst + at, src + from, m)` between different arrays.
unfoldable pub copy : (ℕ → ℕ) → ℕ → (ℕ → ℕ) → ℕ → ℕ → ℕ → ℕ
copy dst at src from m j = if leb at j && ltb j (at + m) then src (from + (j - at)) else dst j

-- `memmove(bp->data + off%BSIZE, src, m); log_write(bp);`
unfoldable pub fill : ℕ → ℕ → (ℕ → ℕ) → ℕ → ℕ → Disk → Disk
unfolding log_write copy
fill b at src tot m d =
    log_write b (record d { blocks = update d.blocks b (copy (d.blocks b) at src tot m) })

-- The calls of a device: of the memory, the count, and the state that `readi` has.
abbrev pub DeviceCall : Type 0
DeviceCall = Inode → (ℕ → ℕ) → ℕ → Disk → Outcome (ℕ × ((ℕ → ℕ) × (Inode × Disk)))

-- `struct devsw` of each major number.
pub record Devsw : Type 0 where
  pub read : ℕ → Option DeviceCall
  pub write : ℕ → Option DeviceCall

-- `if(ip->major < 0 || ip->major >= NDEV || !call) return -1; return call(ip, mem, n);`
unfoldable pub device : Option DeviceCall → DeviceCall
device none ip mem n d = done (minus_one, (mem, (ip, d)))
device (some call) ip mem n d =
    if leb (2 ^ 15) ip.major || leb ndev ip.major
    then done (minus_one, (mem, (ip, d)))
    else call ip mem n d

module _ (sb : Superblock) where
  -- The loop of `readi`, of at most `fuel` passes.
  unfoldable pub read_loop :
      ℕ → ℕ → ℕ → ℕ → (ℕ → ℕ) → Inode → Disk → Outcome ((ℕ → ℕ) × (Inode × Disk))
  unfolding bmap copy
  read_loop zero tot n off dst ip d = done (dst, (ip, d))
  read_loop (suc fuel) tot n off dst ip d =
      if ltb tot n
      then (bmap sb ip (off / bsize) d >>= λ (addr, (ip', d')).
          let m = min (n - tot) (bsize - off % bsize) in
          read_loop fuel (tot + m) n (off + m) (copy dst tot (d'.blocks addr) (off % bsize) m) ip'
            d')
      else done (dst, (ip, d))

  unfoldable pub read_bytes :
      Inode → (ℕ → ℕ) → ℕ → ℕ → Disk → Outcome (ℕ × ((ℕ → ℕ) × (Inode × Disk)))
  unfolding read_loop
  read_bytes ip dst off n d =
      read_loop n 0 n off dst ip d >>= λ (dst', (ip', d')). done (n, (dst', (ip', d')))

  unfoldable pub readi :
      Devsw → Inode → (ℕ → ℕ) → ℕ → ℕ → Disk → Outcome (ℕ × ((ℕ → ℕ) × (Inode × Disk)))
  unfolding read_bytes device
  readi devsw ip dst off n d =
      if ip.type == t_dev
      then device (devsw.read ip.major) ip dst n d
      else (if ltb ip.size off || ltb (u32 (off + n)) off
          then done (minus_one, (dst, (ip, d)))
          else read_bytes ip dst off (if ltb ip.size (u32 (off + n)) then ip.size - off else n) d)

  -- The loop of `writei`.
  unfoldable pub write_loop : ℕ → ℕ → ℕ → ℕ → (ℕ → ℕ) → Inode → Disk → Outcome (ℕ × (Inode × Disk))
  unfolding bmap fill
  write_loop zero tot n off src ip d = done (off, (ip, d))
  write_loop (suc fuel) tot n off src ip d =
      if ltb tot n
      then (bmap sb ip (off / bsize) d >>= λ (addr, (ip', d')).
          let m = min (n - tot) (bsize - off % bsize) in
          write_loop fuel (tot + m) n (off + m) src ip' (fill addr (off % bsize) src tot m d'))
      else done (off, (ip, d))

  -- `if(n > 0 && off > ip->size){ ip->size = off; iupdate(ip); }`
  unfoldable pub grow : ℕ → ℕ → Inode → Disk → Inode × Disk
  unfolding iupdate
  grow n off ip d =
      if ltb 0 n && ltb ip.size off
      then (record ip { size = off }, iupdate sb (record ip { size = off }) d)
      else (ip, d)

  unfoldable pub writei :
      Devsw → Inode → (ℕ → ℕ) → ℕ → ℕ → Disk → Outcome (ℕ × ((ℕ → ℕ) × (Inode × Disk)))
  unfolding write_loop grow device
  writei devsw ip src off n d =
      if ip.type == t_dev
      then device (devsw.write ip.major) ip src n d
      else (if ltb ip.size off || ltb (u32 (off + n)) off
          then done (minus_one, (src, (ip, d)))
          else (if ltb (maxfile * bsize) (u32 (off + n))
              then done (minus_one, (src, (ip, d)))
              else (write_loop n 0 n off src ip d >>= λ (off', (ip', d')).
                  done (n, (src, grow n off' ip' d')))))
