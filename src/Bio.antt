-- ===== src/Bio.antt =====
-- bio.c: the buffer cache. The linked list is a list of buffers, the most recently used first.
-- Sleep locks and the disk are not state here.
pub mod Once
mod Tests
use test_ascii.Common.{
  ℕ, zero, suc, ◌+◌, Bool, true, false, not, ◌&&◌, Option, none, some, List, [], ◌∷◌, ◌==◌,
  if◌then◌else◌, u32, sub32, Outcome, done, panic,
}

-- `struct buf`: its place in `bcache.buf`, and the fields that bio.c sets.
pub record Buf : Type 0 where
  pub id : ℕ
  pub dev : ℕ
  pub blockno : ℕ
  pub refcnt : ℕ
  pub valid : Bool
  pub dirty : Bool

-- `binit` on the zeroed buffers from `bcache.buf + i` on, `n` of them.
unfoldable pub binit_from : ℕ → ℕ → List Buf → List Buf
binit_from zero i cache = cache
binit_from (suc n) i cache =
    binit_from n (i + 1)
      (record { id = i; dev = 0; blockno = 0; refcnt = 0; valid = false; dirty = false } ∷ cache)

abbrev pub is_hit : ℕ → ℕ → Buf → Bool
is_hit dev blockno b = b.dev == dev && b.blockno == blockno

abbrev pub keep_front : Buf → Option (ℕ × List Buf) → Option (ℕ × List Buf)
keep_front b none = none
keep_front b (some (i, cache)) = some (i, b ∷ cache)

-- The first loop of `bget`.
unfoldable pub find_cached : ℕ → ℕ → List Buf → Option (ℕ × List Buf)
find_cached dev blockno [] = none
find_cached dev blockno (b ∷ cache) =
    let rest = keep_front b (find_cached dev blockno cache) in
    if is_hit dev blockno b
    then some (b.id, record b { refcnt = u32 (b.refcnt + 1) } ∷ cache)
    else rest

abbrev pub is_free : Buf → Bool
is_free b = b.refcnt == 0 && not b.dirty

-- The second loop, from the end of the list.
unfoldable pub or_recycle : ℕ → ℕ → Buf → List Buf → Option (ℕ × List Buf) → Option (ℕ × List Buf)
or_recycle dev blockno b cache (some (i, cache')) = some (i, b ∷ cache')
or_recycle dev blockno b cache none =
    if is_free b
    then some (
      b.id,
      record b { dev = dev; blockno = blockno; valid = false; dirty = false; refcnt = 1 } ∷ cache,
    )
    else none

unfoldable pub recycle : ℕ → ℕ → List Buf → Option (ℕ × List Buf)
unfolding or_recycle
recycle dev blockno [] = none
recycle dev blockno (b ∷ cache) = or_recycle dev blockno b cache (recycle dev blockno cache)

unfoldable pub bget_recycled : Option (ℕ × List Buf) → Outcome (ℕ × List Buf)
bget_recycled (some r) = done r
bget_recycled none = panic

unfoldable pub bget_found : ℕ → ℕ → List Buf → Option (ℕ × List Buf) → Outcome (ℕ × List Buf)
unfolding bget_recycled recycle
bget_found dev blockno cache (some r) = done r
bget_found dev blockno cache none = bget_recycled (recycle dev blockno cache)

-- `bget`: the buffer, by its place, and the list.
unfoldable pub bget : ℕ → ℕ → List Buf → Outcome (ℕ × List Buf)
unfolding bget_found find_cached
bget dev blockno cache = bget_found dev blockno cache (find_cached dev blockno cache)

-- The buffer at this place, taken out of the list.
unfoldable pub take_out : ℕ → List Buf → Option (Buf × List Buf)
take_out i [] = none
take_out i (b ∷ cache) =
    let rest = elim (take_out i cache) as (λ _. Option (Buf × List Buf)) [
      | none ↦ none
      | some (c, cache') ↦ some (c, b ∷ cache')
    ] in
    if b.id == i then some (b, cache) else rest

-- `b->refcnt--` in its place.
unfoldable pub drop_ref : ℕ → List Buf → List Buf
drop_ref i [] = []
drop_ref i (b ∷ cache) =
    let rest = drop_ref i cache in
    if b.id == i then record b { refcnt = sub32 b.refcnt 1 } ∷ cache else b ∷ rest

unfoldable pub brelse_taken : ℕ → List Buf → Option (Buf × List Buf) → List Buf
unfolding drop_ref
brelse_taken i cache none = cache
brelse_taken i cache (some (b, rest)) =
    if sub32 b.refcnt 1 == 0 then record b { refcnt = 0 } ∷ rest else drop_ref i cache

-- `brelse` of the buffer at this place.
unfoldable pub brelse : ℕ → List Buf → List Buf
unfolding brelse_taken take_out
brelse i cache = brelse_taken i cache (take_out i cache)

-- `bread` sets the buffer valid, by `iderw`; log.c sets it dirty, and the disk driver not dirty.
unfoldable pub set_flags : ℕ → Bool → Bool → List Buf → List Buf
set_flags i valid dirty [] = []
set_flags i valid dirty (b ∷ cache) =
    let rest = set_flags i valid dirty cache in
    if b.id == i then record b { valid = valid; dirty = dirty } ∷ cache else b ∷ rest
