-- ===== src/Pipe/Write.antt =====
-- pipe.c: `pipewrite` on the list of bytes that a pipe holds.
use test_ascii.Common.{
  ℕ, suc, ◌-◌, ◌≡◌, refl, ◌∙◌, ap, ◌<◌, arith, Bool, true, false, not, ◌||◌, Option, none, some,
  List, [], ◌∷◌, ◌++◌, leb, if◌then◌else◌, length, length-append, length-take, append-nil,
  append_assoc, take-nil, drop-nil, Bool-cases, inl, inr, take, drop,
}
use test_ascii.Pipe.{
  Pipe, pipe_size, is_full, put, pipewrite, WriteStop, wrote_all, write_sleeps, write_failed,
  Sleepers, readers,
}
use test_ascii.Pipe.Queue.{
  IsPipe, used, contents, contents-put, put-IsPipe, is_full_iff, length-contents,
}

-- How many bytes fit.
abbrev pub room : Pipe → ℕ
room p = pipe_size - used p

-- How a run that has all its bytes in the pipe, or not, stops, and whom it has woken.
abbrev pub stops : Bool → Bool → Bool → WriteStop × Option Sleepers
stops true readopen killed = (wrote_all, some readers)
stops false readopen killed =
    if not readopen || killed then (write_failed, none) else (write_sleeps, some readers)

-- What a run of `pipewrite` comes to.
pub record Wrote (killed : Bool) (p : Pipe) (bytes : List ℕ)
    (out : WriteStop × Option Sleepers × Pipe × List ℕ) : Type 0 where
  pub stop :
      let (how, woken, p', left) = out in
      (how, woken) ≡ stops (leb (length bytes) (room p)) p.readopen killed
  pub added : let (how, woken, p', left) = out in contents p' ≡ contents p ++ take (room p) bytes
  pub rest : let (how, woken, p', left) = out in left ≡ drop (room p) bytes
  pub is_pipe : let (how, woken, p', left) = out in IsPipe p'
  pub ends :
      let (how, woken, p', left) = out in (p'.readopen ≡ p.readopen) × (p'.writeopen ≡ p.writeopen)

-- A run that finds the pipe full.
full-Wrote :
    (killed : Bool) (p : Pipe) (c : ℕ) (cs : List ℕ)
    → IsPipe p
    → used p ≡ pipe_size
    → Wrote killed p (c ∷ cs) (
        if not p.readopen || killed
        then (write_failed, none, p, c ∷ cs)
        else (write_sleeps, some readers, p, c ∷ cs))
full-Wrote killed p c cs ok full = elim (Bool-cases (not p.readopen || killed)) [
  | inl fails ↦ rw (fails) record {
    stop = rw (no_fit, fails);
    added = nothing_added;
    rest = nothing_taken;
    is_pipe = ok;
    ends = (refl, refl);
  }
  | inr sleeps ↦ rw (sleeps) record {
    stop = rw (no_fit, sleeps);
    added = nothing_added;
    rest = nothing_taken;
    is_pipe = ok;
    ends = (refl, refl);
  }
]
  where
    no_room : room p ≡ 0
    no_room = omega arith

    no_fit : leb (suc (length cs)) (room p) ≡ false
    no_fit = ground arith

    nothing_added : contents p ≡ contents p ++ take (room p) (c ∷ cs)
    nothing_added = rw (no_room, append-nil)

    nothing_taken : c ∷ cs ≡ drop (room p) (c ∷ cs)
    nothing_taken = rw (no_room)

-- A run that finds room for its first byte.
put-Wrote :
    (killed : Bool) (p : Pipe) (c : ℕ) (cs : List ℕ)
    (out : WriteStop × Option Sleepers × Pipe × List ℕ)
    → IsPipe p
    → used p < pipe_size
    → Wrote killed (put p c) cs out
    → Wrote killed p (c ∷ cs) out
unfolding put
put-Wrote killed p c cs (how, woken, p', left) ok fits later = record {
  stop = later.stop ∙ ap (λ all. stops all p.readopen killed) same_fit;
  added = rw (later.added, contents-put p c ok fits, append_assoc, one_less);
  rest = rw (later.rest, one_less);
  is_pipe = later.is_pipe;
  ends = later.ends;
}
  where
    one_less : room p ≡ suc (room (put p c))
    one_less = omega (arith, ok.nread_word, ok.nwrite_word, ok.fits)

    same_fit : leb (length cs) (room (put p c)) ≡ leb (suc (length cs)) (room p)
    same_fit = ground (arith, one_less)

pub pipewrite-Wrote :
    (killed : Bool) (p : Pipe) (bytes : List ℕ)
    → IsPipe p
    → Wrote killed p bytes (pipewrite killed p bytes)
unfolding pipewrite
pipewrite-Wrote killed p [] ok = record {
  stop = ap (λ all. stops all p.readopen killed) fits;
  added = rw (take-nil, append-nil);
  rest = rw (drop-nil);
  is_pipe = ok;
  ends = (refl, refl);
}
  where
    fits : true ≡ leb 0 (room p)
    fits = ground arith
pipewrite-Wrote killed p (c ∷ cs) ok = elim (Bool-cases (is_full p)) [
  | inl full ↦ rw (full) (full-Wrote killed p c cs ok ((is_full_iff p ok).0 full))
  | inr not_full ↦
      let fits : used p < pipe_size = ground (arith, ok.fits, is_full_iff p ok) in
      rw (not_full) (
        put-Wrote killed p c cs _ ok fits
          (pipewrite-Wrote killed (put p c) cs (put-IsPipe p c ok fits)))
]

-- A run that does not have room for all bytes fills the pipe.
pub Wrote-full :
    (killed : Bool) (p : Pipe) (bytes : List ℕ) (how : WriteStop) (woken : Option Sleepers)
    (p' : Pipe) (left : List ℕ)
    → IsPipe p
    → Wrote killed p bytes (how, woken, p', left)
    → room p < length bytes
    → used p' ≡ pipe_size
Wrote-full killed p bytes how woken p' left ok wrote more = omega (
  arith,
  ok.fits,
  length-contents p,
  length-contents p',
  ap length wrote.added,
  length-append (contents p) (take (room p) bytes),
  length-take (room p) bytes,
)
