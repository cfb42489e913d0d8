-- ===== src/Pipe/Read.antt =====
-- pipe.c: `piperead` on the list of bytes that a pipe holds.
use test_ascii.Common.{
  ℕ, zero, suc, ◌≡◌, ◌≢◌, refl, arith, List, [], ◌==◌, Bool-cases, inl, inr, take, drop,
}
use test_ascii.Pipe.{Pipe, advance, read_copy}
use test_ascii.Pipe.Queue.{IsPipe, used, contents, contents-advance, advance-IsPipe, is_empty_iff}

-- What the copying loop comes to.
pub record Copied (p : Pipe) (n : ℕ) (out : List ℕ × Pipe) : Type 0 where
  pub bytes : let (bytes, p') = out in bytes ≡ take n (contents p)
  pub kept : let (bytes, p') = out in contents p' ≡ drop n (contents p)
  pub is_pipe : let (bytes, p') = out in IsPipe p'
  pub ends : let (bytes, p') = out in (p'.readopen ≡ p.readopen) × (p'.writeopen ≡ p.writeopen)

no_contents : (p : Pipe) → used p ≡ 0 → contents p ≡ []
unfolding contents
no_contents p none_used = rw (none_used)

pub read_copy-Copied : (p : Pipe) (n : ℕ) → IsPipe p → Copied p n (read_copy p n)
unfolding read_copy advance
read_copy-Copied p zero ok = record { bytes = refl; kept = refl; is_pipe = ok; ends = (refl, refl) }
read_copy-Copied p (suc n) ok = elim (Bool-cases (p.nread == p.nwrite)) [
  | inl empty ↦
      let nothing : contents p ≡ [] = no_contents p ((is_empty_iff p ok).0 empty) in
      rw (empty)
        record { bytes = rw (nothing); kept = rw (nothing); is_pipe = ok; ends = (refl, refl) }
  | inr more ↦
      let some_left : used p ≢ 0 = λ e. ground (arith, is_empty_iff p ok) in
      let later = read_copy-Copied (advance p) n (advance-IsPipe p ok some_left) in
      rw (more) record {
        bytes = rw (later.bytes, contents-advance p ok some_left);
        kept = rw (later.kept, contents-advance p ok some_left);
        is_pipe = later.is_pipe;
        ends = later.ends;
      }
]
