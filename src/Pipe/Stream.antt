-- ===== src/Pipe/Stream.antt =====
-- pipe.c as a whole: the runs of `pipewrite`, `piperead` and `pipeclose` on one pipe, in any order
-- but one: a call that sleeps counts as asleep until the pipe wakes it, so a sleeper that `kill`
-- wakes, and that returns -1, does not close its end after that. A run is one stretch of a call, up
-- to where it sleeps or returns.
use test_ascii.Common.{
  ℕ, ◌-◌, ◌≡◌, Bool, true, false, ◌||◌, Option, some, List, [], ◌++◌, length, take,
}
use test_ascii.Pipe.{
  Pipe, init, pipewrite, piperead, pipeclose, WriteStop, write_sleeps, write_failed, ReadStop, got,
  read_sleeps, read_failed, Sleepers, readers, writers,
}

-- A pipe, the bytes that its writers have put into it and its readers have got so far, whether a
-- reader or a writer sleeps that nobody has woken, and whether a write has returned -1.
pub record Traffic : Type 0 where
  pub pipe : Pipe
  pub written : List ℕ
  pub received : List ℕ
  pub reader_asleep : Bool
  pub writer_asleep : Bool
  pub gave_up : Bool

unfoldable pub opened : (ℕ → ℕ) → Traffic
opened page = record {
  pipe = init page;
  written = [];
  received = [];
  reader_asleep = false;
  writer_asleep = false;
  gave_up = false;
}

-- Who of the sleepers is still asleep after a wakeup.
abbrev pub asleep_after : Option Sleepers → Sleepers → Bool → Bool
asleep_after (some readers) readers b = false
asleep_after (some writers) writers b = false
asleep_after _ who b = b

abbrev pub sleeps : WriteStop → Bool
sleeps write_sleeps = true
sleeps _ = false

abbrev pub fails : WriteStop → Bool
fails write_failed = true
fails _ = false

unfoldable pub after_write :
    Traffic → List ℕ → WriteStop × Option Sleepers × Pipe × List ℕ → Traffic
after_write s bytes (how, woken, p', left) = record {
  pipe = p';
  written = s.written ++ take (length bytes - length left) bytes;
  received = s.received;
  reader_asleep = asleep_after woken readers s.reader_asleep;
  writer_asleep = s.writer_asleep || sleeps how;
  gave_up = s.gave_up || fails how;
}

unfoldable pub after_read : Traffic → ReadStop × Option Sleepers × Pipe → Traffic
after_read s (got bytes, woken, p') = record s {
  pipe = p';
  received = s.received ++ bytes;
  writer_asleep = asleep_after woken writers s.writer_asleep;
}
after_read s (read_sleeps, woken, p') = record s { pipe = p'; reader_asleep = true }
after_read s (read_failed, woken, p') = record s { pipe = p' }

unfoldable pub after_close : Traffic → Sleepers × Pipe × Bool → Traffic
after_close s (woken, p', freed) = record s {
  pipe = p';
  reader_asleep = asleep_after (some woken) readers s.reader_asleep;
  writer_asleep = asleep_after (some woken) writers s.writer_asleep;
}

-- A process that is in a call holds its end open, so an end is closed while nobody sleeps on it.
pub data Step : Traffic → Traffic → Type 0 where
  writes :
      (s : Traffic) (killed : Bool) (bytes : List ℕ)
      → s.pipe.writeopen ≡ true
      → Step s (after_write s bytes (pipewrite killed s.pipe bytes))
  reads :
      (s : Traffic) (killed : Bool) (n : ℕ)
      → s.pipe.readopen ≡ true
      → Step s (after_read s (piperead killed s.pipe n))
  closes_write :
      (s : Traffic) → s.writer_asleep ≡ false → Step s (after_close s (pipeclose true s.pipe))
  closes_read :
      (s : Traffic) → s.reader_asleep ≡ false → Step s (after_close s (pipeclose false s.pipe))

pub data Reach : Traffic → Type 0 where
  starts : (page : ℕ → ℕ) → Reach (opened page)
  goes_on : (s t : Traffic) → Reach s → Step s t → Reach t
