-- ===== src/Pipe/Order.antt =====
-- What the runs on a pipe (pipe.c) amount to together.
use test_ascii.Common.{
  ℕ, zero, suc, ◌-◌, ◌≡◌, ◌≢◌, refl, sym, ◌∙◌, ap, subst, ◌<◌, ◌≤◌, arith, Bool, true, false, not,
  ◌&&◌, ◌||◌, Option, none, some, List, [], ◌∷◌, ◌++◌, leb, ◌==◌, length, append_assoc,
  take-append-drop, length-drop, length-append, Bool-cases, inl, inr, take, drop,
}
use test_ascii.Pipe.{
  Pipe, pipe_size, init, piperead, pipeclose, WriteStop, wrote_all, write_failed, write_sleeps,
  Sleepers, readers,
}
use test_ascii.Pipe.Queue.{IsPipe, used, contents, window, length-contents, is_empty_iff}
use test_ascii.Pipe.Write.{Wrote, Wrote-full, room, pipewrite-Wrote}
use test_ascii.Pipe.Read.{read_copy-Copied}
use test_ascii.Pipe.Stream.{
  Traffic, opened, after_write, after_read, after_close, asleep_after, sleeps, fails, Step, writes,
  reads, closes_write, closes_read, Reach, starts, goes_on,
}

-- A prefix is what is not left.
take-length-drop :
    (n : ℕ) (bytes : List ℕ) → take (length bytes - length (drop n bytes)) bytes ≡ take n bytes
take-length-drop zero bytes = ap (λ k. take k bytes) nothing
  where
    nothing : length bytes - length bytes ≡ 0
    nothing = omega arith
take-length-drop (suc n) [] = refl
take-length-drop (suc n) (c ∷ cs) =
    ap (λ k. take k (c ∷ cs)) one_more ∙ ap (λ bytes. c ∷ bytes) (take-length-drop n cs)
  where
    one_more : suc (length cs) - length (drop n cs) ≡ suc (length cs - length (drop n cs))
    one_more = omega (arith, length-drop n cs)

-- The order of the bytes, and why a process sleeps.
pub record Sound (s : Traffic) : Type 0 where
  pub is_pipe : IsPipe s.pipe
  pub in_order : s.written ≡ s.received ++ contents s.pipe
  pub reader_waits :
      s.gave_up ≡ false
      → s.reader_asleep ≡ true
      → (used s.pipe ≡ 0) × (s.pipe.writeopen ≡ true) × (s.pipe.readopen ≡ true)
  pub writer_waits :
      s.writer_asleep ≡ true
      → (used s.pipe ≡ pipe_size) × (s.pipe.readopen ≡ true) × (s.pipe.writeopen ≡ true)

opened-Sound : (page : ℕ → ℕ) → Sound (opened page)
unfolding opened init contents window
opened-Sound page = record {
  is_pipe = record { nread_word = omega arith; nwrite_word = omega arith; fits = omega arith };
  in_order = refl;
  reader_waits = λ h e. absurd (ground arith);
  writer_waits = λ e. absurd (ground arith);
}

-- The three ways in which a run of `pipewrite` stops.
data Stopped (p p' : Pipe) (bytes : List ℕ) : WriteStop → Option Sleepers → Type 0 where
  all_fit : length bytes ≤ room p → Stopped p p' bytes wrote_all (some readers)
  no_reader : used p' ≡ pipe_size → Stopped p p' bytes write_failed none
  no_room :
      used p' ≡ pipe_size
      → length bytes ≢ 0
      → p.readopen ≡ true
      → Stopped p p' bytes write_sleeps (some readers)

stopped :
    (killed : Bool) (p : Pipe) (bytes : List ℕ) (how : WriteStop) (woken : Option Sleepers)
    (p' : Pipe) (left : List ℕ)
    → IsPipe p
    → Wrote killed p bytes (how, woken, p', left)
    → Stopped p p' bytes how woken
stopped killed p bytes how woken p' left ok wrote =
    elim (Bool-cases (leb (length bytes) (room p))) [
      | inl fit ↦ by_stop (rw (wrote.stop, fit)) (all_fit (ground arith))
      | inr unfit ↦ elim (Bool-cases (not p.readopen || killed)) [
        | inl failing ↦ by_stop (rw (wrote.stop, unfit, failing)) (no_reader (full (ground arith)))
        | inr sleeping ↦
            by_stop (rw (wrote.stop, unfit, sleeping))
              (no_room (full (ground arith)) (ground arith) (ground arith))
      ]
    ]
  where
    by_stop :
        {how' : WriteStop} {woken' : Option Sleepers}
        → ◌≡◌ {A = WriteStop × Option Sleepers} (how, woken) (how', woken')
        → Stopped p p' bytes how' woken'
        → Stopped p p' bytes how woken
    by_stop e = subst (λ (x : WriteStop × Option Sleepers). Stopped p p' bytes x.0 x.1) (sym e)

    full : room p < length bytes → used p' ≡ pipe_size
    full = Wrote-full killed p bytes how woken p' left ok wrote

write-Sound :
    (s : Traffic) (killed : Bool) (bytes : List ℕ) (how : WriteStop) (woken : Option Sleepers)
    (p' : Pipe) (left : List ℕ)
    → Sound s
    → s.pipe.writeopen ≡ true
    → Wrote killed s.pipe bytes (how, woken, p', left)
    → Stopped s.pipe p' bytes how woken
    → Sound (after_write s bytes (how, woken, p', left))
unfolding after_write
write-Sound s killed bytes how woken p' left ok holds wrote how_stopped = record {
  is_pipe = wrote.is_pipe;
  in_order =
      rw (wrote.rest, take-length-drop (room s.pipe) bytes, ok.in_order, append_assoc, wrote.added);
  reader_waits = waits how_stopped;
  writer_waits = writers_wait how_stopped;
}
  where
    grows : used s.pipe ≤ used p'
    grows = omega (
      arith,
      length-contents s.pipe,
      length-contents p',
      ap length wrote.added,
      length-append (contents s.pipe) (take (room s.pipe) bytes),
    )

    still_waits :
        s.writer_asleep ≡ true
        → (used p' ≡ pipe_size) × (p'.readopen ≡ true) × (p'.writeopen ≡ true)
    still_waits e =
        let (full, reader, writer) = ok.writer_waits e in
        (
          omega (arith, wrote.is_pipe.fits, full, grows),
          rw (wrote.ends.0) reader,
          rw (wrote.ends.1) writer,
        )

    waits :
        {how : WriteStop} {woken : Option Sleepers}
        → Stopped s.pipe p' bytes how woken
        → (s.gave_up || fails how) ≡ false
        → asleep_after woken readers s.reader_asleep ≡ true
        → (used p' ≡ 0) × (p'.writeopen ≡ true) × (p'.readopen ≡ true)
    waits (all_fit fit) h e = absurd (ground arith)
    waits (no_reader full) h e = absurd (ground arith)
    waits (no_room full some_bytes reader) h e = absurd (ground arith)

    writers_wait :
        {how : WriteStop} {woken : Option Sleepers}
        → Stopped s.pipe p' bytes how woken
        → (s.writer_asleep || sleeps how) ≡ true
        → (used p' ≡ pipe_size) × (p'.readopen ≡ true) × (p'.writeopen ≡ true)
    writers_wait (all_fit fit) e = still_waits (ground arith)
    writers_wait (no_reader full) e = still_waits (ground arith)
    writers_wait (no_room full some_bytes reader) e =
        (full, rw (wrote.ends.0) reader, rw (wrote.ends.1) holds)

read-Sound :
    (s : Traffic) (killed : Bool) (n : ℕ)
    → Sound s
    → s.pipe.readopen ≡ true
    → Sound (after_read s (piperead killed s.pipe n))
unfolding after_read piperead
read-Sound s killed n ok holds =
    elim (Bool-cases (s.pipe.nread == s.pipe.nwrite && s.pipe.writeopen)) [
      | inl empty ↦ elim (Bool-cases killed) [
        | inl dead ↦
            rw (empty, dead)
              record {
                is_pipe = ok.is_pipe;
                in_order = ok.in_order;
                reader_waits = ok.reader_waits;
                writer_waits = ok.writer_waits;
              }
        | inr alive ↦
            rw (empty, alive)
              record {
                is_pipe = ok.is_pipe;
                in_order = ok.in_order;
                reader_waits = λ h e. ground (arith, is_empty_iff s.pipe ok.is_pipe);
                writer_waits = ok.writer_waits;
              }
      ]
      | inr some_left ↦
          let copied = read_copy-Copied s.pipe n ok.is_pipe in
          rw (some_left) record {
            is_pipe = copied.is_pipe;
            in_order = rw (copied.bytes, append_assoc, copied.kept, take-append-drop, ok.in_order);
            reader_waits =
                λ h e. absurd (ground (arith, ok.reader_waits h e, is_empty_iff s.pipe ok.is_pipe));
            writer_waits = λ e. absurd (ground arith);
          }
    ]

close_write-Sound :
    (s : Traffic)
    → Sound s
    → s.writer_asleep ≡ false
    → Sound (after_close s (pipeclose true s.pipe))
unfolding after_close pipeclose contents
close_write-Sound s ok awake = record {
  is_pipe = record {
    nread_word = ok.is_pipe.nread_word;
    nwrite_word = ok.is_pipe.nwrite_word;
    fits = ok.is_pipe.fits;
  };
  in_order = ok.in_order;
  reader_waits = λ h e. absurd (ground arith);
  writer_waits = λ e. absurd (ground arith);
}

close_read-Sound :
    (s : Traffic)
    → Sound s
    → s.reader_asleep ≡ false
    → Sound (after_close s (pipeclose false s.pipe))
unfolding after_close pipeclose contents
close_read-Sound s ok awake = record {
  is_pipe = record {
    nread_word = ok.is_pipe.nread_word;
    nwrite_word = ok.is_pipe.nwrite_word;
    fits = ok.is_pipe.fits;
  };
  in_order = ok.in_order;
  reader_waits = λ h e. absurd (ground arith);
  writer_waits = λ e. absurd (ground arith);
}

step-Sound : {s t : Traffic} → Step s t → Sound s → Sound t
step-Sound (writes s killed bytes holds) ok =
    let wrote = pipewrite-Wrote killed s.pipe bytes ok.is_pipe in
    write-Sound s killed bytes _ _ _ _ ok holds wrote
      (stopped killed s.pipe bytes _ _ _ _ ok.is_pipe wrote)
step-Sound (reads s killed n holds) ok = read-Sound s killed n ok holds
step-Sound (closes_write s awake) ok = close_write-Sound s ok awake
step-Sound (closes_read s awake) ok = close_read-Sound s ok awake

pub Reach-Sound : {s : Traffic} → Reach s → Sound s
Reach-Sound (starts page) = opened-Sound page
Reach-Sound (goes_on s t r step) = step-Sound step (Reach-Sound r)
