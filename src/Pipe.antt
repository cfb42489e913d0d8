-- ===== src/Pipe.antt =====
-- pipe.c: the ring buffer of a pipe and the calls on it. A call that sleeps is run up to there:
-- what it has done, and how it stopped.
pub mod Queue
pub mod Write
pub mod Read
pub mod Stream
pub mod Order
pub mod Delivery
mod Tests
use test_ascii.Common.{
  ℕ, zero, suc, ◌+◌, ◌-◌, ◌%◌, ◌^◌, Bool, true, false, not, ◌&&◌, ◌||◌, Option, none, some, List,
  [], ◌∷◌, u32, ◌==◌, if◌then◌else◌,
}
use test_ascii.Common.Arrays.{update}

abbrev pub pipe_size : ℕ
pipe_size = 512

-- `struct pipe`, less its lock.
pub record Pipe : Type 0 where
  pub buf : ℕ → ℕ
  pub nread : ℕ
  pub nwrite : ℕ
  pub readopen : Bool
  pub writeopen : Bool

-- What `pipealloc` writes into a fresh page, whose `data` it leaves as it finds it.
unfoldable pub init : (ℕ → ℕ) → Pipe
init page = record { buf = page; nread = 0; nwrite = 0; readopen = true; writeopen = true }

-- The processes that sleep on `&p->nread`, and on `&p->nwrite`.
pub data Sleepers : Type 0 where
  readers : Sleepers
  writers : Sleepers

-- `p->nwrite == p->nread + PIPESIZE`
abbrev pub is_full : Pipe → Bool
is_full p = p.nwrite == u32 (p.nread + pipe_size)

-- `p->data[p->nwrite++ % PIPESIZE] = c`
unfoldable pub put : Pipe → ℕ → Pipe
put p c = record p { buf = update p.buf (p.nwrite % pipe_size) c; nwrite = u32 (p.nwrite + 1) }

-- How a run of `pipewrite` stops: it returns `n`, it sleeps, or it returns -1.
pub data WriteStop : Type 0 where
  wrote_all : WriteStop
  write_sleeps : WriteStop
  write_failed : WriteStop

-- `pipewrite` by a process that has been killed or not, from where it starts or wakes up, with
-- the bytes that are left. It gives how the run stops, whom it has woken, the pipe, and the bytes
-- that are left then.
unfoldable pub pipewrite : Bool → Pipe → List ℕ → WriteStop × Option Sleepers × Pipe × List ℕ
unfolding put
pipewrite killed p [] = (wrote_all, some readers, p, [])
pipewrite killed p (c ∷ cs) =
    let rest = pipewrite killed (put p c) cs in
    if is_full p
    then (if not p.readopen || killed
        then (write_failed, none, p, c ∷ cs)
        else (write_sleeps, some readers, p, c ∷ cs))
    else rest

-- How a run of `piperead` stops: it returns these bytes, it sleeps, or it returns -1.
pub data ReadStop : Type 0 where
  got : List ℕ → ReadStop
  read_sleeps : ReadStop
  read_failed : ReadStop

-- `p->nread++`
unfoldable pub advance : Pipe → Pipe
advance p = record p { nread = u32 (p.nread + 1) }

-- The copying loop of `piperead`.
unfoldable pub read_copy : Pipe → ℕ → List ℕ × Pipe
unfolding advance
read_copy p zero = ([], p)
read_copy p (suc n) =
    let (bytes, p') = read_copy (advance p) n in
    if p.nread == p.nwrite then ([], p) else (p.buf (p.nread % pipe_size) ∷ bytes, p')

-- `piperead` of at most `n` bytes, run in the same way.
unfoldable pub piperead : Bool → Pipe → ℕ → ReadStop × Option Sleepers × Pipe
unfolding read_copy
piperead killed p n =
    if p.nread == p.nwrite && p.writeopen
    then (if killed then (read_failed, none, p) else (read_sleeps, none, p))
    else let (bytes, p') = read_copy p n in (got bytes, some writers, p')

-- `pipeclose` of an end, with whom it wakes and whether it frees the pipe's page.
unfoldable pub pipeclose : Bool → Pipe → Sleepers × Pipe × Bool
pipeclose true p =
    let p' = record p { writeopen = false } in (readers, p', not p'.readopen && not p'.writeopen)
pipeclose false p =
    let p' = record p { readopen = false } in (writers, p', not p'.readopen && not p'.writeopen)
