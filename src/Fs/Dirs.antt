-- ===== src/Fs/Dirs.antt =====
-- fs.c: directories.
use test_ascii.Common.{
  ℕ, zero, suc, ◌+◌, ◌-◌, ◌*◌, ◌/◌, ◌%◌, Bool, not, ◌&&◌, Option, none, some, ltb, ◌==◌,
  if◌then◌else◌, Outcome, done, panic, ◌>>=◌, minus_one,
}
use mathlib.Core.Option
use test_ascii.Strings.{Memory, strncmp, strncpy}
use test_ascii.Fs.{Superblock, Disk}
use test_ascii.Fs.Inode.{Inode}
use test_ascii.Fs.Io.{Devsw, readi, writei, t_dir}
use test_ascii.Fs.Icache.{Icache, set_inode, iget, iput}

-- fs.h
abbrev pub dirsiz : ℕ
dirsiz = 14

-- `sizeof(struct dirent)`; its bytes are the inode number, the low byte first, and the name.
abbrev pub dirent_size : ℕ
dirent_size = 16

abbrev pub dirent_inum : (ℕ → ℕ) → ℕ
dirent_inum de = de 0 + 256 * de 1

-- Two arrays of `dirsiz` bytes, side by side.
abbrev pub two_names : (ℕ → ℕ) → (ℕ → ℕ) → Memory
two_names s t a = if ltb a dirsiz then s a else (if ltb a (2 * dirsiz) then t (a - dirsiz) else 0)

unfoldable pub namecmp : (ℕ → ℕ) → (ℕ → ℕ) → ℕ
unfolding strncmp
namecmp s t = strncmp 0 dirsiz dirsiz (two_names s t)

-- `de.inum != 0 && namecmp(name, de.name) == 0`
unfoldable pub is_entry : (ℕ → ℕ) → (ℕ → ℕ) → Bool
unfolding namecmp
is_entry name de = not (dirent_inum de == 0) && namecmp name (λ i. de (i + 2)) == 0

-- `strncpy(de.name, name, DIRSIZ)`
unfoldable pub new_name : (ℕ → ℕ) → ℕ → ℕ
new_name name i = strncpy dirsiz 0 dirsiz (two_names name (λ _. 0)) (dirsiz + i)

-- The new entry, with `de.inum = inum`.
unfoldable pub new_dirent : (ℕ → ℕ) → ℕ → ℕ → ℕ
new_dirent name inum j =
    if j == 0 then inum % 256 else (if j == 1 then inum / 256 % 256 else new_name name (j - 2))

module _ (sb : Superblock) (devsw : Devsw) where
  -- The loops of `dirlookup` and `dirlink` over the entries, of at most `fuel` passes from `off` on:
  -- the offset where it ends, and the bytes of the entry there if it passes the test.
  unfoldable pub scan_dir :
      ((ℕ → ℕ) → Bool)
      → ℕ
      → ℕ
      → (ℕ → ℕ)
      → Inode
      → Disk
      → Outcome ((ℕ × Option (ℕ → ℕ)) × (Inode × Disk))
  unfolding readi
  scan_dir test zero off de dp d = done ((off, none), (dp, d))
  scan_dir test (suc fuel) off de dp d =
      if ltb off dp.size
      then (readi sb devsw dp de off dirent_size d >>= λ (r, (de', (dp', d'))).
          if not (r == dirent_size)
          then panic
          else (if test de'
              then done ((off, some de'), (dp', d'))
              else scan_dir test fuel (off + dirent_size) de' dp' d'))
      else done ((off, none), (dp, d))

  -- `dirlookup` but for the call of `iget`: the offset and the number of the inode.
  unfoldable pub dir_entry :
      (ℕ → ℕ) → (ℕ → ℕ) → Inode → Disk → Outcome ((ℕ × Option ℕ) × (Inode × Disk))
  unfolding scan_dir is_entry
  dir_entry name de dp d =
      if not (dp.type == t_dir)
      then panic
      else (scan_dir (is_entry name) dp.size 0 de dp d >>= λ ((off, o), s).
          done ((off, Option.map dirent_inum o), s))

  -- `return iget(dp->dev, inum);`, or 0.
  unfoldable pub dir_found : ℕ → ℕ → Option ℕ → Icache → Outcome (Option (ℕ × ℕ) × Icache)
  unfolding iget
  dir_found dev off none s = done (none, s)
  dir_found dev off (some inum) s = iget dev inum s >>= λ (i, s'). done (some (off, i), s')

  unfoldable pub dirlookup : ℕ → (ℕ → ℕ) → (ℕ → ℕ) → Icache → Outcome (Option (ℕ × ℕ) × Icache)
  unfolding dir_entry dir_found
  dirlookup dp name de s = dir_entry name de (s.inodes dp) s.disk >>= λ ((off, o), (ip, d)).
      dir_found ip.dev off o (set_inode dp ip (record s { disk = d }))

  -- The rest of `dirlink`, once the name is known to be new.
  unfoldable pub dir_append : ℕ → (ℕ → ℕ) → ℕ → (ℕ → ℕ) → Icache → Outcome (ℕ × Icache)
  unfolding scan_dir new_dirent writei
  dir_append dp name inum de s =
      scan_dir (λ e. dirent_inum e == 0) (s.inodes dp).size 0 de (s.inodes dp) s.disk
      >>= λ ((off, _), (ip, d)).
          writei sb devsw ip (new_dirent name inum) off dirent_size d >>= λ (r, (_, (ip', d'))).
          if not (r == dirent_size)
          then panic
          else done (0, set_inode dp ip' (record s { disk = d' }))

  unfoldable pub dirlink_found :
      ℕ → (ℕ → ℕ) → ℕ → (ℕ → ℕ) → Option (ℕ × ℕ) → Icache → Outcome (ℕ × Icache)
  unfolding dir_append iput
  dirlink_found dp name inum de (some (off, ip)) s = iput sb ip s >>= λ s'. done (minus_one, s')
  dirlink_found dp name inum de none s = dir_append dp name inum de s

  unfoldable pub dirlink : ℕ → (ℕ → ℕ) → ℕ → (ℕ → ℕ) → Icache → Outcome (ℕ × Icache)
  unfolding dirlookup dirlink_found
  dirlink dp name inum de s =
      dirlookup dp name de s >>= λ (o, s'). dirlink_found dp name inum de o s'
