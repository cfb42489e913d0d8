-- ===== src/Fs/Looking.antt =====
-- fs.c: `dirlookup` as a search of the directory's entries.
use test_ascii.Common.{
  ℕ, ◌+◌, ◌/◌, ◌∙◌, ap, ◌*◌, ◌%◌, ◌≡◌, ◌<◌, ◌≤◌, refl, arith, true, false, not, Option, none, some,
  ◌==◌, if_lem, Outcome, done, panic, ◌>>=◌,
}
use mathlib.Core.Option
use test_ascii.Fs.{Superblock, Disk, bsize, maxfile}
use test_ascii.Fs.Inode.{Inode}
use test_ascii.Fs.Names.{HasName, is_entry-true, is_entry-false}
use test_ascii.Fs.Slots.{contents, slot, block_byte, IsFile, Kept}
use test_ascii.Fs.Addrs.{Full}
use test_ascii.Fs.Io.{Devsw, t_dir}
use test_ascii.Fs.Dirs.{dirent_size, dirent_inum, is_entry, scan_dir, dir_entry}
use test_ascii.Fs.ScanDir.{Scanned, dirent_at, is_entry-IsLocal, scan_dir-Scanned}

module _ (sb : Superblock) (devsw : Devsw) where
  -- The first entry that passes the code's test, or none.
  pub record Looked (name : ℕ → ℕ) (dp : Inode) (d : Disk) (off : ℕ) (o : Option ℕ) : Type 0 where
    pub before : (k : ℕ) → k < off → k % 16 ≡ 0 → is_entry name (dirent_at dp d k) ≡ false
    pub absent : o ≡ none → off ≡ dp.size
    pub present :
        (inum : ℕ)
        → o ≡ some inum
        → (off < dp.size)
          × (is_entry name (dirent_at dp d off) ≡ true)
          × (inum ≡ dirent_inum (dirent_at dp d off))

  -- The first entry that is in use and has the name, with its number, or none if there is none.
  pub record Finds (name : ℕ → ℕ) (dp : Inode) (d : Disk) (off : ℕ) (o : Option ℕ) : Type 0 where
    pub before : (k : ℕ) → k < off → k % 16 ≡ 0 → ¬ HasName name (dirent_at dp d k)
    pub absent : o ≡ none → off ≡ dp.size
    pub present :
        (inum : ℕ)
        → o ≡ some inum
        → (off < dp.size)
          × HasName name (dirent_at dp d off)
          × (inum ≡ contents dp d off + 256 * contents dp d (off + 1))

  contents-bytes : (dp : Inode) (d : Disk) → IsFile sb dp d → (o : ℕ) → contents dp d o < 256
  unfolding contents block_byte
  contents-bytes dp d file o =
      if_lem (λ n. n < 256) (slot dp d (o / 512) == 0) (λ _. omega arith)
        (λ _. file.bytes (slot dp d (o / 512)) (o % 512))

  Looked-Finds :
      (name : ℕ → ℕ) (dp : Inode) (d : Disk) (off : ℕ) (o : Option ℕ)
      → ((i : ℕ) → name i < 256)
      → IsFile sb dp d
      → Looked name dp d off o
      → Finds name dp d off o
  Looked-Finds name dp d off o bytes file f = record {
    before = λ k lt a.
        is_entry-false name (dirent_at dp d k) bytes (λ i. contents-bytes dp d file (k + i))
          (f.before k lt a);
    absent = f.absent;
    present = λ inum e.
        let (lt, hit, number) = f.present inum e in
        (
          lt,
          is_entry-true name (dirent_at dp d off) bytes (λ i. contents-bytes dp d file (off + i))
              hit,
          number ∙ ap (λ i. contents dp d i + 256 * contents dp d (off + 1)) (plus_zero off),
        );
  }
    where
      plus_zero : (off : ℕ) → off + 0 ≡ off
      plus_zero off = omega arith

  abbrev pub DirEntry : (ℕ → ℕ) → Inode → Disk → Outcome ((ℕ × Option ℕ) × (Inode × Disk)) → Type 0
  DirEntry name dp d panic = Full sb dp d
  DirEntry name dp d (done ((off, o), (dp', d'))) =
      IsFile sb dp' d' × Kept sb dp d dp' d' × Finds name dp d off o

  DirEntry-scan :
      (name : ℕ → ℕ) (dp : Inode) (d : Disk) (o : Outcome ((ℕ × Option (ℕ → ℕ)) × (Inode × Disk)))
      → ((i : ℕ) → name i < 256)
      → IsFile sb dp d
      → Scanned sb devsw (is_entry name) dp d 0 o
      → DirEntry name dp d (o >>= λ ((off, e), s). done ((off, Option.map dirent_inum e), s))
  unfolding Scanned
  DirEntry-scan name dp d panic nb whole full = full
  DirEntry-scan name dp d (done ((at, none), s)) nb whole (file, kept, f) = (
    file,
    kept,
    Looked-Finds name dp d at none nb whole (record {
      before = λ k lt a. f.before k (omega arith) lt a;
      absent = λ _. f.none_left refl;
      present = λ inum e. absurd (ground (arith, e));
    }),
  )
  DirEntry-scan name dp d (done ((at, some e), s)) nb whole (file, kept, f) =
      let (lt, hit, bytes) = f.here e refl in
      (
        file,
        kept,
        Looked-Finds name dp d at (some (dirent_inum e)) nb whole (record {
          before = λ k l a. f.before k (omega arith) l a;
          absent = λ z. absurd (ground (arith, z));
          present = λ inum eq. (lt, hit, number e at inum eq bytes);
        }),
      )
    where
      number :
          (e : ℕ → ℕ) (at inum : ℕ)
          → some (dirent_inum e) ≡ some inum
          → ((j : ℕ) → j < 16 → e j ≡ dirent_at dp d at j)
          → inum ≡ dirent_inum (dirent_at dp d at)
      number e at inum eq bytes = ground (arith, eq, bytes 0 (omega arith), bytes 1 (omega arith))

  -- The search of `dirlookup` for a name of bytes, in a directory of whole entries: it panics only
  -- if the disk runs full. Otherwise it finds the first entry whose number is not 0 and whose name
  -- agrees with it in 14 characters or up to its NUL, with that number, or none if there is no such
  -- entry, and the directory has the same bytes after it.
  pub dir_entry_lem :
      (name de : ℕ → ℕ) (dp : Inode) (d : Disk)
      → IsFile sb dp d
      → dp.type ≡ t_dir
      → dp.size ≤ maxfile * bsize
      → dp.size % dirent_size ≡ 0
      → ((i : ℕ) → name i < 256)
      → DirEntry name dp d (dir_entry sb devsw name de dp d)
  unfolding dir_entry
  dir_entry_lem name de dp d file dir small even nb =
      if_lem (DirEntry name dp d) (not (dp.type == t_dir))
        (λ other. absurd (ground (arith, other, dir)))
        (λ _.
          DirEntry-scan name dp d (scan_dir sb devsw (is_entry name) dp.size 0 de dp d) nb file (
            scan_dir-Scanned sb devsw (is_entry name) dp.size 0 de dp d (is_entry-IsLocal name) file
              (λ e. absurd (omega (arith, e, dir))) small even (omega arith) refl (omega arith)))
