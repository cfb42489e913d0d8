-- ===== src/Log/Space.antt =====
-- Log space: what `begin_op` reserves and `log_write` uses.
use test_ascii.Common.{
  ℕ, suc, ◌+◌, ◌-◌, ◌*◌, ◌≡◌, ◌≢◌, refl, sym, ◌∙◌, ◌<◌, ◌≤◌, ◌⊎◌, inl, inr, arith, ◌==◌, false,
  some, Option-cases, List, [], ◌∷◌, done, panic, length, set, get_elem?,
}
use test_ascii.Common.Arrays.{find_from, find_from-some, find_from-none}
use test_ascii.Log.Budget.{
  sum, remove, sum-set, sum-remove, length-remove, Capped, Capped-set, Capped-remove,
  sum-le_of_Capped, length-set_,
}
use test_ascii.Log.{Log, max_op_blocks, log_size, begin_op, end_op_start, log_write, absorb}
use test_ascii.Log.View.{IsListed}

-- What listing block `b` has done to the list in memory.
pub record Absorbed (l l' : Log) (b : ℕ) : Type 0 where
  pub listed : IsListed l'.start l'.size l'.n l'.block
  pub has_it : (i : ℕ) × (i < l'.n) × (l'.block i ≡ b)
  pub entries_kept : (i : ℕ) → i < l.n → l'.block i ≡ l.block i
  pub not_shorter : l.n ≤ l'.n
  pub one_more : l'.n ≤ l.n + 1
  pub ops_kept :
      (l'.outstanding ≡ l.outstanding) × (l'.size ≡ l.size) × (l'.committing ≡ l.committing)

absorb-Absorbed :
    (l : Log) (b : ℕ)
    → IsListed l.start l.size l.n l.block
    → (b < l.start) ⊎ (l.start + l.size ≤ b)
    → l.n + 1 < l.size
    → Absorbed l (absorb b (find_from (λ i. l.block i == b) l.n 0) l) b
unfolding absorb
absorb-Absorbed l b ls out room = elim (Option-cases (find_from (λ i. l.block i == b) l.n 0)) [
  | inl e ↦
      let fresh : (i : ℕ) → i < l.n → (l.block i == b) ≡ false =
        λ i p. find_from-none (λ i. l.block i == b) l.n 0 e i (omega arith) (omega arith) in
      rw e (record {
        listed = record {
          fits = room;
          outside = λ i p. ground (arith, ls.outside i);
          distinct = λ i j p q f. ground (arith, ls.distinct i j, fresh i, fresh j);
        };
        has_it = (l.n, omega arith, ground arith);
        entries_kept = λ i p. ground arith;
        not_shorter = omega arith;
        one_more = omega arith;
        ops_kept = (refl, refl, refl);
      })
  | inr (k, e) ↦
      let (lo, hi, hit, first) = find_from-some (λ i. l.block i == b) l.n 0 k e in
      rw e (record {
        listed = record {
          fits = ls.fits;
          outside = λ i p. ground (arith, ls.outside i);
          distinct = λ i j p q f. ground (arith, ls.distinct i j);
        };
        has_it = (k, omega arith, ground arith);
        entries_kept = λ i p. ground arith;
        not_shorter = omega arith;
        one_more = omega arith;
        ops_kept = (refl, refl, refl);
      })
]

-- A `log_write` that does not panic keeps the list in memory well formed: the block is listed
-- afterwards, the entries before it are as they were, at most one entry is new, and the counts of
-- operations are as before.
pub log_write-Absorbed :
    (l l' : Log) (b : ℕ)
    → IsListed l.start l.size l.n l.block
    → (b < l.start) ⊎ (l.start + l.size ≤ b)
    → log_write b l ≡ done l'
    → Absorbed l l' b
unfolding log_write
log_write-Absorbed l l' b ls out e =
    let room : l.n + 1 < l.size = ground arith in
    let same : absorb b (find_from (λ i. l.block i == b) l.n 0) l ≡ l' = ground arith in
    rw (← same) (absorb-Absorbed l b ls out room)

-- The log with, for each operation in progress, how many more blocks it may write: an operation
-- writes at most `max_op_blocks`.
pub data Step : Log → List ℕ → Log → List ℕ → Type 0 where
  begun : (l l' : Log) (bs : List ℕ) → begin_op l ≡ some l' → Step l bs l' (max_op_blocks ∷ bs)
  wrote :
      (l l' : Log) (bs : List ℕ) (i k b : ℕ)
      → get_elem? bs i ≡ some (suc k)
      → (b < l.start) ⊎ (l.start + l.size ≤ b)
      → log_write b l ≡ done l'
      → Step l bs l' (set bs i k)
  ended :
      (l l' : Log) (bs : List ℕ) (i k : ℕ)
      → get_elem? bs i ≡ some k
      → end_op_start l ≡ done (l', false)
      → Step l bs l' (remove bs i)

-- The runs from an empty log of this size up to the next commit.
pub data Run (start size : ℕ) : Log → List ℕ → Type 0 where
  empty :
      (l : Log)
      → l.start ≡ start
      → l.size ≡ size
      → l.n ≡ 0
      → l.outstanding ≡ 0
      → l.committing ≡ false
      → Run start size l []
  more :
      {l l' : Log} {bs cs : List ℕ} → Run start size l bs → Step l bs l' cs → Run start size l' cs

-- Every operation in progress has its blocks reserved.
record Room (size : ℕ) (l : Log) (bs : List ℕ) : Type 0 where
  listed : IsListed l.start l.size l.n l.block
  size_kept : l.size ≡ size
  ops : l.outstanding ≡ length bs
  few : length bs ≤ 3
  capped : Capped bs
  reserved : l.n + sum bs ≤ log_size
  open_log : l.committing ≡ false

-- What a granted `begin_op` has checked.
begin_op-some :
    (l l' : Log)
    → l.n ≤ log_size
    → l.outstanding ≤ 3
    → begin_op l ≡ some l'
    → (record l { outstanding = l.outstanding + 1 } ≡ l')
      × (l.n + (l.outstanding + 1) * max_op_blocks ≤ log_size)
      × (l.committing ≡ false)
unfolding begin_op
begin_op-some l l' a b e = ground arith

begin_op-Room :
    {size : ℕ} (l l' : Log) (bs : List ℕ)
    → Room size l bs
    → begin_op l ≡ some l'
    → Room size l' (max_op_blocks ∷ bs)
begin_op-Room l l' bs r e =
    let (same, space, free) =
      begin_op-some l l' (omega (arith, r.reserved)) (omega (arith, r.ops, r.few)) e in
    rw (← same) (record {
      listed = r.listed;
      size_kept = r.size_kept;
      ops = omega (arith, r.ops);
      few = omega (arith, r.ops);
      capped = (omega arith, r.capped);
      reserved = omega (arith, sum-le_of_Capped bs r.capped, r.ops);
      open_log = r.open_log;
    })

log_write-Room :
    {size : ℕ} (l l' : Log) (bs : List ℕ) (i k b : ℕ)
    → Room size l bs
    → get_elem? bs i ≡ some (suc k)
    → (b < l.start) ⊎ (l.start + l.size ≤ b)
    → log_write b l ≡ done l'
    → Room size l' (set bs i k)
log_write-Room l l' bs i k b r g out e =
    let a = log_write-Absorbed l l' b r.listed out e in
    record {
      listed = a.listed;
      size_kept = a.ops_kept.1 ∙ r.size_kept;
      ops = a.ops_kept.0 ∙ r.ops ∙ sym (length-set_ bs i k);
      few = omega (arith, length-set_ bs i k, r.few);
      capped = Capped-set bs i k r.capped g;
      reserved = omega (arith, sum-set bs i k g, a.one_more, r.reserved);
      open_log = a.ops_kept.2 ∙ r.open_log;
    }

end_op_start-done :
    (l l' : Log)
    → 0 < l.outstanding
    → l.outstanding ≤ 3
    → end_op_start l ≡ done (l', false)
    → record l { outstanding = l.outstanding - 1 } ≡ l'
unfolding end_op_start
end_op_start-done l l' a b e = ground arith

end_op-Room :
    {size : ℕ} (l l' : Log) (bs : List ℕ) (i k : ℕ)
    → Room size l bs
    → get_elem? bs i ≡ some k
    → end_op_start l ≡ done (l', false)
    → Room size l' (remove bs i)
end_op-Room l l' bs i k r g e =
    let same =
      end_op_start-done l l' (omega (arith, r.ops, length-remove bs i k g))
        (omega (arith, r.ops, r.few)) e in
    rw (← same) (record {
      listed = r.listed;
      size_kept = r.size_kept;
      ops = omega (arith, r.ops, length-remove bs i k g);
      few = omega (arith, r.few, length-remove bs i k g);
      capped = Capped-remove bs i r.capped;
      reserved = omega (arith, sum-remove bs i, r.reserved);
      open_log = r.open_log;
    })

Step-Room :
    {size : ℕ} {l l' : Log} {bs cs : List ℕ} → Step l bs l' cs → Room size l bs → Room size l' cs
Step-Room (begun l l' bs e) r = begin_op-Room l l' bs r e
Step-Room (wrote l l' bs i k b g out e) r = log_write-Room l l' bs i k b r g out e
Step-Room (ended l l' bs i k g e) r = end_op-Room l l' bs i k r g e

Run-Room :
    {start size : ℕ} {l : Log} {bs : List ℕ} → 0 < size → Run start size l bs → Room size l bs
Run-Room pos (empty l a b c d e) = record {
  listed = record {
    fits = omega arith;
    outside = λ i p. absurd (omega arith);
    distinct = λ i j p q f. absurd (omega arith);
  };
  size_kept = b;
  ops = d;
  few = omega arith;
  capped = tt;
  reserved = omega arith;
  open_log = e;
}
Run-Room pos (more r s) = Step-Room s (Run-Room pos r)

-- Reservation suffices: if the log region has at least 31 blocks, then in every run of operations
-- that `begin_op` admits, each writing at most 10 blocks, a `log_write` within its operation's
-- limit never panics.
pub log_write_never_full :
    {start size : ℕ} {l : Log} {bs : List ℕ} (i k b : ℕ)
    → log_size < size
    → Run start size l bs
    → get_elem? bs i ≡ some (suc k)
    → log_write b l ≢ panic
unfolding log_write
log_write_never_full {l = l} {bs = bs} i k b big r g e =
    let room = Run-Room (omega arith) r in
    let below : l.n < log_size = omega (arith, sum-set bs i k g, room.reserved) in
    let busy : 0 < l.outstanding = omega (arith, room.ops, length-remove bs i (suc k) g) in
    let few : l.outstanding ≤ 3 = omega (arith, room.ops, room.few) in
    absurd (ground (arith, room.size_kept))
