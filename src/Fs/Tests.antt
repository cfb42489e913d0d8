-- ===== src/Fs/Tests.antt =====
-- Concrete disks of fs.c.
use test_ascii.Common.{
  ℕ, ◌+◌, ◌/◌, ◌-◌, ◌≡◌, ◌≢◌, ◌<◌, refl, sym, ◌∙◌, ap, subst, arith, true, false, none, some, List,
  [], ◌∷◌, ◌==◌, ◌↔◌, if◌then◌else◌,
}
use test_ascii.Fs.{Superblock, Disk, bblock}
use test_ascii.Fs.Bits.{is_set}
use test_ascii.Fs.Blocks.{map_bit, balloc}
use test_ascii.Fs.Map.{AreBytes, in_use, IsOffMap, MapInUse}
use test_ascii.Fs.Alloc.{Balloc, balloc_lem}
use test_ascii.Fs.Inode.{Inode, itrunc, iupdate}
use test_ascii.Fs.Slots.{slot, block_byte, contents, IsFile}
use test_ascii.Fs.Places.{
  place, direct, last, word, slot-direct, slot-last, slot-word, word_at-zero,
}
use test_ascii.Fs.Io.{Devsw, readi, writei}
use test_ascii.Fs.Reading.{ReadSpec, readi_refines}
use test_ascii.Fs.Writing.{WriteSpec, writei_refines}
use test_ascii.Fs.Freeing.{Succeeds}
use test_ascii.Fs.Emptying.{Emptied}
use test_ascii.Fs.Truncating.{itrunc_lem}
use test_ascii.Fs.Stored.{Fits, SameFields, ilock-iupdate}
use test_ascii.Fs.Icache.{Icache, iget, ilock, iput}
use test_ascii.Fs.Entries.{IsTable, Iget, iget_lem}
use test_ascii.Fs.Putting.{Put, iput_lem}
use test_ascii.Fs.Dirs.{dir_entry, dir_append, is_entry, namecmp}
use test_ascii.Fs.Names.{SameName, namecmp_iff}
use test_ascii.Fs.Looking.{DirEntry, dir_entry_lem}
use test_ascii.Fs.Paths.{skipelem, namex}
use test_ascii.Fs.Elements.{Skipped, skipelem_lem, elements}
use test_ascii.Fs.ScanDir.{dirent_at, is_entry-IsLocal}
use test_ascii.Fs.Linking.{IsNew, Appended, dir_append_lem}
use test_ascii.Fs.Walk.{Walks, namex-walk}

abbrev pub sb : Superblock
sb = record { size = 100; ninodes = 8; inodestart = 1; bmapstart = 2 }

-- Blocks 0 to 3 are marked in the map, which is block 2.
abbrev disk : Disk
disk = record {
  blocks = λ b i. if b == 2 then (if i == 0 then 15 else 0) else 7;
  logged = λ b. false;
}

-- An inode with one block, block 3.
abbrev one_block : ℕ → ℕ → ℕ → Inode
one_block type nlink size = record {
  dev = 1;
  inum = 1;
  ref = 1;
  valid = true;
  type = type;
  major = 0;
  minor = 0;
  nlink = nlink;
  size = size;
  addrs = λ k. if k == 0 then 3 else 0;
}

-- A file of 100 bytes, and a directory of six entries.
abbrev file : Inode
file = one_block 2 1 100

abbrev dir : Inode
dir = one_block 1 1 96

abbrev pub devsw : Devsw
devsw = record { read = λ m. none; write = λ m. none }

disk-bytes : AreBytes disk
disk-bytes b i = ground arith

marked :
    (in_use sb disk 0 ≡ true)
    × (in_use sb disk 1 ≡ true)
    × (in_use sb disk 2 ≡ true)
    × (in_use sb disk 3 ≡ true)
unfolding in_use map_bit is_set
marked = (refl, refl, refl, refl)

map_block : (c : ℕ) → c < 100 → 2 ≡ bblock sb c
map_block c h = omega (arith, h)

disk-MapInUse : MapInUse sb disk
disk-MapInUse c h =
    subst (λ b. (b < 100) × (in_use sb disk b ≡ true)) (map_block c h) (omega arith, marked.2)

module _ (type nlink size : ℕ) where
  one_block-slot :
      (k : ℕ) → k < 141 → slot (one_block type nlink size) disk k ≡ (if k == 0 then 3 else 0)
  one_block-slot k h =
      let ip = one_block type nlink size in
      elim (place k h) [
        | direct l ↦ slot-direct ip disk k l
        | last e ↦ ap (slot ip disk) e ∙ slot-last ip disk ∙ ground (arith, e)
        | word l m ↦ slot-word ip disk k l m ∙ word_at-zero disk 0 (k - 12) refl ∙ ground arith
      ]

  -- The block that a place holds, if it holds one.
  one_block-place :
      (k : ℕ)
      → k < 141
      → slot (one_block type nlink size) disk k ≢ 0
      → (k ≡ 0) × (3 ≡ slot (one_block type nlink size) disk k)
  one_block-place k h ne = ground (arith, ne, one_block-slot k h)

off_map : (b : ℕ) → b ≢ 2 → IsOffMap sb b
off_map b ne c h e = ne (sym e ∙ sym (map_block c h))

one_block-IsFile : (type nlink size : ℕ) → IsFile sb (one_block type nlink size) disk
one_block-IsFile type nlink size = record {
  bytes = disk-bytes;
  map = disk-MapInUse;
  small = omega arith;
  zero_used = (omega arith, marked.0);
  used = λ k h ne.
      subst (λ b. (b < 100) × (in_use sb disk b ≡ true) × IsOffMap sb b)
        ((one_block-place type nlink size k h ne).1)
        (omega arith, marked.3, off_map 3 (λ e. absurd (omega (arith, e))));
  distinct = λ j k hj hk ne e.
      (one_block-place type nlink size j hj ne).0
      ∙ sym ((one_block-place type nlink size k hk (λ z. ne (e ∙ z))).0);
  iused = (omega arith, marked.1, off_map 1 (λ e. absurd (omega (arith, e))));
  iblock_nonzero = λ e. absurd (omega (arith, e));
  iapart = λ k h e. ground (arith, e, one_block-slot type nlink size k h);
}

pub file-IsFile : IsFile sb file disk
file-IsFile = one_block-IsFile 2 1 100

balloc_lem_example : Balloc sb disk (balloc sb disk)
balloc_lem_example = balloc_lem sb disk disk-bytes disk-MapInUse

readi_refines_example :
    ReadSpec sb file disk (λ i. 0) 90 20 (readi sb devsw file (λ i. 0) 90 20 disk)
readi_refines_example =
    readi_refines sb devsw file (λ i. 0) 90 20 disk file-IsFile (λ e. absurd (omega (arith, e)))
      (omega arith) (omega arith) (omega arith)

writei_refines_example :
    WriteSpec sb file disk (λ i. 5) 90 600 (writei sb devsw file (λ i. 5) 90 600 disk)
writei_refines_example =
    writei_refines sb devsw file (λ i. 5) 90 600 disk file-IsFile (λ e. absurd (omega (arith, e)))
      (omega arith) (omega arith) (λ i. omega arith)

itrunc_lem_example :
    Succeeds
      (λ (ip', d'). Emptied sb file disk ip' d' × IsFile sb ip' d' × (ip'.size ≡ 0))
      (itrunc sb file disk)
itrunc_lem_example = itrunc_lem sb file disk file-IsFile

-- A table with the file in its first entry, and the same for an inode without links.
abbrev pub table : Icache
table = record {
  inodes = λ i. if i == 0 then file else record file { ref = 0 };
  locked = λ i. false;
  disk = disk;
}

table-IsTable : IsTable table.inodes
table-IsTable = record { once = λ i j hi hj ui uj ed ei. ground arith; small = λ i h. ground arith }

iget_lem_example : Iget 1 1 table (iget 1 1 table)
iget_lem_example = iget_lem 1 1 table table-IsTable

abbrev without_links : Icache
without_links = record table { inodes = λ i. one_block 2 0 100 }

iput_lem_example : Succeeds (λ s'. Put sb without_links s' 0) (iput sb 0 without_links)
iput_lem_example =
    iput_lem sb 0 without_links (omega arith) (omega arith) (λ last. one_block-IsFile 2 0 100)

abbrev reread : Icache
reread = record {
  inodes = λ i. record file { valid = false };
  locked = λ i. false;
  disk = iupdate sb file disk;
}

file-Fits : Fits file
file-Fits = record {
  type = omega arith;
  major = omega arith;
  minor = omega arith;
  nlink = omega arith;
  size = omega arith;
  addrs = λ k h. ground arith;
}

ilock-iupdate_example :
    Succeeds
      (λ s'. SameFields file (s'.inodes 4) × ((s'.inodes 4).valid ≡ true))
      (ilock sb (some 4) reread)
ilock-iupdate_example =
    ilock-iupdate sb 4 file disk reread file-Fits (λ e. absurd (omega (arith, e))) refl refl refl
      (omega arith) (omega arith)

dir_entry_lem_example :
    DirEntry sb devsw (λ i. 7) dir disk (dir_entry sb devsw (λ i. 7) (λ i. 0) dir disk)
dir_entry_lem_example =
    dir_entry_lem sb devsw (λ i. 7) (λ i. 0) dir disk (one_block-IsFile 1 1 96) refl (omega arith)
      refl (λ i. omega arith)

-- `ab` with something after its NUL, and `ac`.
abbrev ab : ℕ → ℕ
ab i = if i == 0 then 97 else if i == 1 then 98 else if i == 2 then 0 else 7

abbrev ac : ℕ → ℕ
ac i = if i == 0 then 97 else if i == 1 then 99 else 0

namecmp_iff_example : (namecmp ab ac ≡ 0) ↔ SameName ab ac
namecmp_iff_example = namecmp_iff ab ac (λ i. ground arith) (λ i. ground arith)

-- The directory's bytes are all 7, so there is no entry whose name starts with an 8.
dir-contents : (o : ℕ) → o < 96 → contents dir disk o ≡ 7
unfolding contents block_byte
dir-contents o h = ground (arith, h, one_block-slot 1 1 96 (o / 512) (omega (arith, h)))

not_that : is_entry (λ i. 8) (λ j. 7) ≡ false
unfolding is_entry namecmp
not_that = refl

dir-IsNew : IsNew sb devsw (λ i. 8) 5 dir disk
dir-IsNew k h even =
    is_entry-IsLocal (λ i. 8) (dirent_at dir disk k) (λ j. 7)
      (λ j l. dir-contents (k + j) (omega (arith, h, even, l)))
    ∙ not_that

abbrev in_directory : Icache
in_directory = record table { inodes = λ i. dir }

dir_append_lem_example :
    Appended sb devsw
      (λ i. 8)
      5
      0
      in_directory
      (dir_append sb devsw 0 (λ i. 8) 5 (λ i. 0) in_directory)
dir_append_lem_example =
    dir_append_lem sb devsw (λ i. 8) 5 0 (λ i. 0) in_directory (one_block-IsFile 1 1 96) refl refl
      (omega arith) (λ e. absurd (omega (arith, e))) (omega arith) (λ i. omega arith) dir-IsNew

-- The path `/a//b`.
abbrev path : List ℕ
path = 47 ∷ 97 ∷ 47 ∷ 47 ∷ 98 ∷ []

path-elements : elements path ≡ (97 ∷ []) ∷ (98 ∷ []) ∷ []
unfolding elements
path-elements = refl

skipelem_lem_example : Skipped path (λ i. 0) (skipelem path (λ i. 0))
skipelem_lem_example = skipelem_lem path (λ i. 0)

namex-walk_example :
    Walks sb devsw
      (λ i. 0)
      true
      path
      (λ i. 0)
      0
      table
      (namex sb devsw (λ i. 0) true path (λ i. 0) 0 table)
namex-walk_example = namex-walk sb devsw (λ i. 0) true path (λ i. 0) 0 table
