-- ===== src/Fs.antt =====
-- fs.c, fs.h: the file system's layout and state. The block cache and the log are the contents
-- that `bread` gives, and which blocks the open transaction has logged.
pub mod Bits
pub mod Blocks
pub mod Logs
pub mod Map
pub mod Scan
pub mod Mark
pub mod Alloc
pub mod Words
pub mod Inode
pub mod Slots
pub mod Fresh
pub mod Places
pub mod Addrs
pub mod Bmap
pub mod Touch
pub mod Io
pub mod ReadLoop
pub mod Reading
pub mod Chunk
pub mod Update
pub mod WriteLoop
pub mod Writing
pub mod Freeing
pub mod Emptying
pub mod Truncating
pub mod Icache
pub mod Stored
pub mod Entries
pub mod Putting
pub mod Dirs
pub mod ScanDir
pub mod Looking
pub mod Names
pub mod Untouched
pub mod Paths
pub mod Elements
pub mod Walk
pub mod Linking
pub mod Tests
use test_ascii.Common.{ℕ, ◌+◌, ◌*◌, ◌/◌, ◌%◌, Bool, true, false, ◌==◌, if◌then◌else◌}
use test_ascii.Common.Arrays.{update}

-- fs.h
abbrev pub bsize : ℕ
bsize = 512

abbrev pub bpb : ℕ
bpb = bsize * 8

abbrev pub ndirect : ℕ
ndirect = 12

abbrev pub nindirect : ℕ
nindirect = bsize / 4

abbrev pub maxfile : ℕ
maxfile = ndirect + nindirect

-- The fields of `struct superblock` that fs.c reads.
pub record Superblock : Type 0 where
  pub size : ℕ
  pub ninodes : ℕ
  pub inodestart : ℕ
  pub bmapstart : ℕ

-- `BBLOCK`
abbrev pub bblock : Superblock → ℕ → ℕ
bblock sb b = b / bpb + sb.bmapstart

-- The bytes of each block, and whether the transaction has the block.
pub record Disk : Type 0 where
  pub blocks : ℕ → ℕ → ℕ
  pub logged : ℕ → Bool

-- The write of a byte of a buffer.
unfoldable pub poke : ℕ → ℕ → ℕ → Disk → Disk
poke b i v d = record d { blocks = update d.blocks b (update (d.blocks b) i v) }

-- `log_write` of the buffer of block `b`.
unfoldable pub log_write : ℕ → Disk → Disk
log_write b d = record d { logged = update d.logged b true }
