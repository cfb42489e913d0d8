-- ===== src/Log.antt =====
-- log.c: the write-ahead log. Blocks are arrays of words; the buffer cache is what `bread` would
-- give for each block number; the disk takes `power` more block writes and then no more, which is
-- how a crash in the middle of a call is run. `n` is never negative where this code sets it.
pub mod View
pub mod Frames
pub mod Atomic
pub mod Budget
pub mod Space
mod Tests
use test_ascii.Common.{
  ℕ, zero, suc, ◌+◌, ◌-◌, ◌*◌, ◌<◌, Bool, true, false, Option, none, some, ltb, leb, ◌==◌,
  if◌then◌else◌, ◌||◌, Outcome, done, panic, slt, u32, sub32,
}
use test_ascii.Common.Arrays.{update, find_from}

-- param.h
abbrev pub max_op_blocks : ℕ
max_op_blocks = 10

abbrev pub log_size : ℕ
log_size = max_op_blocks * 3

-- `b->data`, as the words that log.c reads.
abbrev pub Block : Type 0
Block = ℕ → ℕ

-- `struct log`, with its `lh` as `n` and `block`, and the machine under it.
pub record Log : Type 0 where
  pub start : ℕ
  pub size : ℕ
  pub outstanding : ℕ
  pub committing : Bool
  pub n : ℕ
  pub block : ℕ → ℕ
  pub cache : ℕ → Block
  pub disk : ℕ → Block
  pub power : ℕ

-- `bwrite` of the buffer of block `b`.
unfoldable pub bwrite : ℕ → Log → Log
bwrite b l = record l {
  disk = if l.power == 0 then l.disk else update l.disk b (l.cache b);
  power = l.power - 1;
}

-- `memmove(to->data, from->data, BSIZE); bwrite(to)` for the buffers of two blocks.
unfoldable pub copy_block : ℕ → ℕ → Log → Log
unfolding bwrite
copy_block from to l = bwrite to (record l { cache = update l.cache to (l.cache from) })

-- `install_trans`: `k` entries from `tail` on.
unfoldable pub install_from : ℕ → ℕ → Log → Log
unfolding copy_block
install_from zero tail l = l
install_from (suc k) tail l =
    install_from k (tail + 1) (copy_block (l.start + tail + 1) (l.block tail) l)

unfoldable pub install_trans : Log → Log
install_trans l = install_from l.n 0 l

-- The words of the header: `n`, then `block`. The loop of `read_head` and the one of `write_head`
-- go over the first `n` entries and leave the others.
unfoldable pub read_head : Log → Log
read_head l =
    let head = l.cache l.start in
    record l { n = head 0; block = λ i. if ltb i (head 0) then head (i + 1) else l.block i }

abbrev pub head_block : Log → Block
head_block l w =
    if w == 0 then l.n else if ltb (w - 1) l.n then l.block (w - 1) else l.cache l.start w

unfoldable pub write_head : Log → Log
unfolding bwrite
write_head l = bwrite l.start (record l { cache = update l.cache l.start (head_block l) })

unfoldable pub recover_from_log : Log → Log
recover_from_log l = write_head (record (install_trans (read_head l)) { n = 0 })

-- `write_log`: `k` entries from `tail` on.
unfoldable pub write_log_from : ℕ → ℕ → Log → Log
unfolding copy_block
write_log_from zero tail l = l
write_log_from (suc k) tail l =
    write_log_from k (tail + 1) (copy_block (l.block tail) (l.start + tail + 1) l)

unfoldable pub write_log : Log → Log
write_log l = write_log_from l.n 0 l

unfoldable pub commit : Log → Log
commit l =
    if ltb 0 l.n
    then write_head (record (install_trans (write_head (write_log l))) { n = 0 })
    else l

-- One pass of the loop of `begin_op`; `none` when it sleeps.
unfoldable pub begin_op : Log → Option Log
begin_op l =
    if l.committing
    then none
    else if slt log_size (u32 (l.n + (l.outstanding + 1) * max_op_blocks))
    then none
    else some (record l { outstanding = u32 (l.outstanding + 1) })

-- The first locked section of `end_op`, with its `do_commit`.
unfoldable pub end_op_start : Log → Outcome (Log × Bool)
end_op_start l =
    let left = sub32 l.outstanding 1 in
    if l.committing
    then panic
    else if left == 0
    then done (record l { outstanding = left; committing = true }, true)
    else done (record l { outstanding = left }, false)

unfoldable pub end_op_commit : Log × Bool → Log
end_op_commit (l, true) = record (commit l) { committing = false }
end_op_commit (l, false) = l

-- `log_write` of the buffer of block `b`.
unfoldable pub absorb : ℕ → Option ℕ → Log → Log
absorb b none l = record l { block = update l.block l.n b; n = l.n + 1 }
absorb b (some i) l = record l { block = update l.block i b }

unfoldable pub log_write : ℕ → Log → Outcome Log
unfolding absorb
log_write b l =
    if leb log_size l.n || leb (l.size - 1) l.n
    then panic
    else if slt l.outstanding 1
    then panic
    else done (absorb b (find_from (λ i. l.block i == b) l.n 0) l)

-- After a crash: the caches are gone, and `initlog` runs on the disk that is left.
unfoldable pub reboot : ℕ → Log → Log
reboot power l = record l {
  outstanding = 0;
  committing = false;
  n = 0;
  block = λ _. 0;
  cache = l.disk;
  power = power;
}
