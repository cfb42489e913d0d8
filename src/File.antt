-- ===== src/File.antt =====
-- file.c: the table of open files, their reference counts, and `filewrite`.
pub mod Refs
pub mod Write
pub mod OnDisk
mod Tests
use test_ascii.Common.{
  ℕ, zero, suc, ◌+◌, ◌*◌, ◌/◌, ◌-◌, Bool, true, false, not, Option, none, some, ltb, ◌==◌,
  if◌then◌else◌, slt, u32, sub32, minus_one, Outcome, done, panic, ◌>>=◌,
}
use test_ascii.Common.Arrays.{update, find_from}

-- param.h
abbrev pub nfile : ℕ
nfile = 100

pub data FileType : Type 0 where
  fd_none fd_pipe fd_inode : FileType

-- `struct file`. Pipes and inodes are their numbers.
pub record File : Type 0 where
  pub kind : FileType
  pub ref : ℕ
  pub readable : Bool
  pub writable : Bool
  pub pipe : ℕ
  pub ip : ℕ
  pub off : ℕ

-- `ftable.file`
abbrev pub Ftable : Type 0
Ftable = ℕ → File

unfoldable pub filealloc_found : Option ℕ → Ftable → Option ℕ × Ftable
filealloc_found none t = (none, t)
filealloc_found (some f) t = (some f, update t f (record (t f) { ref = 1 }))

unfoldable pub filealloc : Ftable → Option ℕ × Ftable
unfolding filealloc_found find_from
filealloc t = filealloc_found (find_from (λ f. (t f).ref == 0) nfile 0) t

unfoldable pub filedup : ℕ → Ftable → Outcome Ftable
filedup f t =
    if slt (t f).ref 1
    then panic
    else done (update t f (record (t f) { ref = u32 ((t f).ref + 1) }))

-- What `fileclose` calls when it has unlocked the table: nothing, `pipeclose`, or `iput` in a
-- transaction.
pub data Release : Type 0 where
  nothing : Release
  pipeclose : ℕ → Bool → Release
  iput : ℕ → Release

unfoldable pub release_of : File → Release
release_of ff = elim (ff.kind) [
  | fd_none ↦ nothing
  | fd_pipe ↦ pipeclose ff.pipe ff.writable
  | fd_inode ↦ iput ff.ip
]

unfoldable pub fileclose : ℕ → Ftable → Outcome (Release × Ftable)
unfolding release_of
fileclose f t =
    let ref = sub32 (t f).ref 1 in
    if slt (t f).ref 1
    then panic
    else if slt 0 ref
    then done (nothing, update t f (record (t f) { ref = ref }))
    else done (release_of (t f), update t f (record (t f) { ref = 0; kind = fd_none }))

-- The most bytes that `filewrite` writes in one transaction.
abbrev pub max_write : ℕ
max_write = (10 - 1 - 1 - 2) / 2 * 512

-- What `filewrite` calls: the write to a pipe of so many bytes, the log, the inode's lock, and
-- `writei` of so many bytes from this place of the buffer to this offset. Results are `int`s.
pub record Callees : Type 1 where
  pub Sys : Type 0
  pub pipewrite : ℕ → ℕ → Sys → Outcome (ℕ × Sys)
  pub begin_op : Sys → Outcome Sys
  pub end_op : Sys → Outcome Sys
  pub ilock : ℕ → Sys → Outcome Sys
  pub iunlock : ℕ → Sys → Outcome Sys
  pub writei : ℕ → ℕ → ℕ → ℕ → Sys → Outcome (ℕ × Sys)

module _ (v : Callees) where
  open v use {Sys, pipewrite, begin_op, end_op, ilock, iunlock, writei}

  -- `if(r > 0) f->off += r;`
  unfoldable pub move_offset : ℕ → File → File
  move_offset r f = if slt 0 r then record f { off = u32 (f.off + r) } else f

  -- One pass of the loop up to `end_op`, for `n1` bytes from place `i`: the result of `writei`.
  unfoldable pub write_chunk : ℕ → ℕ → File → Sys → Outcome (ℕ × File × Sys)
  unfolding move_offset
  write_chunk i n1 f s = begin_op s >>= λ s₁. ilock f.ip s₁ >>= λ s₂.
      writei f.ip i f.off n1 s₂ >>= λ (r, s₃).
      iunlock f.ip s₃ >>= λ s₄. end_op s₄ >>= λ s₅. done (r, move_offset r f, s₅)

  -- `n1`: how many bytes a pass at place `i` of `n` writes.
  abbrev pub piece : ℕ → ℕ → ℕ
  piece i n = let left = sub32 n i in if slt max_write left then max_write else left

  -- The end of a pass: stop, panic or go on with `rest`.
  unfoldable pub after_chunk :
      (ℕ → File → Sys → Outcome (ℕ × File × Sys))
      → ℕ
      → ℕ
      → ℕ × File × Sys
      → Outcome (ℕ × File × Sys)
  after_chunk rest i n1 (r, f, s) =
      if slt r 0 then done (i, f, s) else if not (r == n1) then panic else rest (u32 (i + r)) f s

  -- The loop, of at most `k` passes, from place `i`.
  unfoldable pub write_from : ℕ → ℕ → ℕ → File → Sys → Outcome (ℕ × File × Sys)
  unfolding write_chunk after_chunk
  write_from zero i n f s = done (i, f, s)
  write_from (suc k) i n f s =
      if slt i n
      then (write_chunk i (piece i n) f s
          >>= after_chunk (λ i' f' s'. write_from k i' n f' s') i (piece i n))
      else done (i, f, s)

  -- `ret = i == n ? n : -1;`
  unfoldable pub write_result : ℕ → ℕ × File × Sys → Outcome (ℕ × File × Sys)
  write_result n (i, f, s) = done ((if i == n then n else minus_one), f, s)

  unfoldable pub filewrite : ℕ → File → Sys → Outcome (ℕ × File × Sys)
  unfolding write_from write_result
  filewrite n f s = if not f.writable then done (minus_one, f, s) else elim (f.kind) [
    | fd_pipe ↦ (pipewrite f.pipe n s >>= λ (r, s'). done (r, f, s'))
    | fd_inode ↦ (write_from n 0 n f s >>= write_result n)
    | fd_none ↦ panic
  ]
