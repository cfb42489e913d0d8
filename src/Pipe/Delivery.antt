-- ===== src/Pipe/Delivery.antt =====
-- What a pipe (pipe.c) promises its users.
use test_ascii.Common.{
  ℕ, ◌≡◌, ◌<◌, ◌≤◌, ◌⊎◌, inl, inr, arith, Bool, true, false, Option, some, List, ◌++◌, length, ap,
  ◌∙◌, leb, not, ◌||◌, none, take, drop, refl, ◌&&◌, if◌then◌else◌, Bool-cases, ◌==◌,
}
use test_ascii.Pipe.{
  Pipe, pipe_size, pipewrite, piperead, got, read_sleeps, read_failed, Sleepers, writers, WriteStop,
  write_failed,
}
use test_ascii.Pipe.Queue.{IsPipe, used, contents, length-contents, is_empty_iff}
use test_ascii.Pipe.Write.{Wrote, Wrote-full, room, stops, pipewrite-Wrote}
use test_ascii.Pipe.Read.{read_copy-Copied}
use test_ascii.Pipe.Stream.{Traffic, after_write, Reach}
use test_ascii.Pipe.Order.{Reach-Sound}

-- Whatever runs of the calls came before, the bytes that went into the pipe are, in order, those
-- that its readers have got followed by those it holds, which are at most 512.
pub in_order :
    {s : Traffic}
    → Reach s
    → (s.written ≡ s.received ++ contents s.pipe) × (length (contents s.pipe) ≤ pipe_size)
in_order {s} r =
    let sound = Reach-Sound r in
    (sound.in_order, omega (arith, length-contents s.pipe, sound.is_pipe.fits))

-- While no write has returned -1, a reader sleeps only beside an empty pipe whose two ends are
-- open, and a writer only beside a full one whose two ends are open.
pub sleepers_wait :
    {s : Traffic}
    → Reach s
    → s.gave_up ≡ false
    → ((s.reader_asleep ≡ false)
        ⊎ ((used s.pipe ≡ 0) × (s.pipe.writeopen ≡ true) × (s.pipe.readopen ≡ true)))
      × ((s.writer_asleep ≡ false)
          ⊎ ((used s.pipe ≡ pipe_size) × (s.pipe.readopen ≡ true) × (s.pipe.writeopen ≡ true)))
sleepers_wait {s} r calm =
    let sound = Reach-Sound r in
    (
      elim (Bool-cases s.reader_asleep) [ inl e ↦ inr (sound.reader_waits calm e) | inr e ↦ inl e ],
      elim (Bool-cases s.writer_asleep) [ inl e ↦ inr (sound.writer_waits e) | inr e ↦ inl e ],
    )

-- A killed process that writes more than 512 bytes into a pipe beside which a reader sleeps leaves
-- the pipe full and the reader asleep.
pub killed_writer :
    {s : Traffic}
    → Reach s
    → (bytes : List ℕ) → s.gave_up ≡ false
    → s.reader_asleep ≡ true
    → pipe_size < length bytes
    → let t = after_write s bytes (pipewrite true s.pipe bytes) in
      (t.reader_asleep ≡ true) × (used t.pipe ≡ pipe_size)
unfolding after_write
killed_writer {s} r bytes calm asleep long =
    let sound = Reach-Sound r in
    let wrote = pipewrite-Wrote true s.pipe bytes sound.is_pipe in
    let empty = (sound.reader_waits calm asleep).0 in
    (
      rw (ap (λ (x : WriteStop × Option Sleepers). x.1) (wrote.stop ∙ fails (ground arith))) asleep,
      Wrote-full true s.pipe bytes _ _ _ _ sound.is_pipe wrote (omega (arith, empty)),
    )
  where
    no_reader : not s.pipe.readopen || true ≡ true
    no_reader = ground arith

    fails :
        leb (length bytes) (room s.pipe) ≡ false
        → stops (leb (length bytes) (room s.pipe)) s.pipe.readopen true ≡ (write_failed, none)
    fails unfit = rw (unfit, no_reader)

-- `piperead` of at most `n` bytes. Beside an empty pipe with its write end open it changes
-- nothing: it returns -1 for a killed process and sleeps for another one. Else it returns the
-- first `n` bytes of the pipe, or as many as there are, removes just these and wakes the writers;
-- then if the pipe was empty its write end was closed.
pub piperead_lem :
    (killed : Bool) (p : Pipe) (n : ℕ)
    → IsPipe p
    → let (how, woken, p') = piperead killed p n in
      ((used p ≡ 0)
        × (p.writeopen ≡ true)
        × (p' ≡ p)
        × (how ≡ (if killed then read_failed else read_sleeps)))
      ⊎ ((how ≡ got (take n (contents p)))
          × (woken ≡ some writers)
          × (contents p' ≡ drop n (contents p))
          × (used p ≡ 0 → p.writeopen ≡ false))
unfolding piperead
piperead_lem killed p n ok = elim (Bool-cases (p.nread == p.nwrite && p.writeopen)) [
  | inl empty ↦ elim (Bool-cases killed) [
    | inl dead ↦
        rw (empty, dead) (inl (ground (arith, is_empty_iff p ok), ground arith, refl, refl))
    | inr alive ↦
        rw (empty, alive) (inl (ground (arith, is_empty_iff p ok), ground arith, refl, refl))
  ]
  | inr some_left ↦
      let copied = read_copy-Copied p n ok in
      rw (some_left)
        (inr (rw (copied.bytes), refl, copied.kept, λ e. ground (arith, is_empty_iff p ok)))
]

-- `pipewrite` into a pipe. It adds those of the bytes that fit, in order, leaves the others, and
-- leaves the ends as they are. If all fit it returns and has woken the readers; else, if the read
-- end is closed or the process killed, it returns -1 and has woken nobody, and otherwise it has
-- woken the readers and sleeps.
pub pipewrite_lem :
    (killed : Bool) (p : Pipe) (bytes : List ℕ)
    → IsPipe p
    → Wrote killed p bytes (pipewrite killed p bytes)
pipewrite_lem = pipewrite-Wrote
