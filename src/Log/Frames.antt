-- ===== src/Log/Frames.antt =====
-- The two copying loops of log.c, `install_trans` and `write_log`, as one loop and its effect on
-- the cache and on a disk that may lose power on the way.
use test_ascii.Common.{
  ℕ, zero, suc, ◌+◌, ◌-◌, ◌≡◌, ◌≢◌, refl, ◌∙◌, ◌<◌, ◌≤◌, arith, if◌then◌else◌, ◌==◌,
}
use native.Mathlib.Decide.{ℕ_discrete}
use test_ascii.Log.{Log, copy_block, install_from, write_log_from}

-- Copy block `src i` to block `dst i`, for `k` values of `i` from `tail` on.
pub copies : (ℕ → ℕ) → (ℕ → ℕ) → ℕ → ℕ → Log → Log
copies src dst zero tail l = l
copies src dst (suc k) tail l = copies src dst k (tail + 1) (copy_block (src tail) (dst tail) l)

-- What a copy leaves alone.
pub record Kept (l l' : Log) : Type 0 where
  pub start_kept : l'.start ≡ l.start
  pub size_kept : l'.size ≡ l.size
  pub n_kept : l'.n ≡ l.n
  pub block_kept : (i : ℕ) → l'.block i ≡ l.block i

pub copy_block-Kept : (from to : ℕ) (l : Log) → Kept l (copy_block from to l)
unfolding copy_block
copy_block-Kept from to l = record {
  start_kept = refl;
  size_kept = refl;
  n_kept = refl;
  block_kept = λ i. refl;
}

pub install_from-copies :
    (k tail : ℕ) (l : Log) → install_from k tail l ≡ copies (λ i. l.start + i + 1) l.block k tail l
unfolding install_from copies
install_from-copies zero tail l = refl
install_from-copies (suc k) tail l =
    unfold copy_block in
    install_from-copies k (tail + 1) (copy_block (l.start + tail + 1) (l.block tail) l)

pub write_log_from-copies :
    (k tail : ℕ) (l : Log)
    → write_log_from k tail l ≡ copies l.block (λ i. l.start + i + 1) k tail l
unfolding write_log_from copies
write_log_from-copies zero tail l = refl
write_log_from-copies (suc k) tail l =
    unfold copy_block in
    write_log_from-copies k (tail + 1) (copy_block (l.block tail) (l.start + tail + 1) l)

-- The targets are distinct and no source is a target.
pub record IsApart (src dst : ℕ → ℕ) (tail end : ℕ) : Type 0 where
  pub dst_distinct : (i j : ℕ) → tail ≤ i → tail ≤ j → i < end → j < end → dst i ≡ dst j → i ≡ j
  pub src_not_dst : (i j : ℕ) → tail ≤ i → tail ≤ j → i < end → j < end → src i ≢ dst j

-- After the loop: the first `power` targets are on disk, the others are as they were there; in the
-- cache all are copied.
pub record Copied (src dst : ℕ → ℕ) (tail end : ℕ) (l l' : Log) : Type 0 where
  pub kept : Kept l l'
  pub reached :
      (i : ℕ) → tail ≤ i → i < end → i < tail + l.power → l'.disk (dst i) ≡ l.cache (src i)
  pub missed : (i : ℕ) → tail ≤ i → i < end → tail + l.power ≤ i → l'.disk (dst i) ≡ l.disk (dst i)
  pub disk_else : (b : ℕ) → ((i : ℕ) → tail ≤ i → i < end → dst i ≢ b) → l'.disk b ≡ l.disk b
  pub cache_in : (i : ℕ) → tail ≤ i → i < end → l'.cache (dst i) ≡ l.cache (src i)
  pub cache_else : (b : ℕ) → ((i : ℕ) → tail ≤ i → i < end → dst i ≢ b) → l'.cache b ≡ l.cache b
  pub power_left : l'.power ≡ l.power - (end - tail)

-- One copy.
module _ (from to : ℕ) (l : Log) where
  copy_block-cache :
      (b : ℕ) → (copy_block from to l).cache b ≡ (if to == b then l.cache from else l.cache b)
  unfolding copy_block
  copy_block-cache b = refl

  copy_block-disk :
      (b : ℕ)
      → (copy_block from to l).disk b
        ≡ (if l.power == 0 then l.disk b else if to == b then l.cache from else l.disk b)
  unfolding copy_block
  copy_block-disk b = ground arith

  copy_block-power : (copy_block from to l).power ≡ l.power - 1
  unfolding copy_block
  copy_block-power = refl

module _ (src dst : ℕ → ℕ) where
  IsApart-suc : {tail end : ℕ} → IsApart src dst tail end → IsApart src dst (tail + 1) end
  IsApart-suc a = record {
    dst_distinct = λ i j p q r s e. a.dst_distinct i j (omega arith) (omega arith) r s e;
    src_not_dst = λ i j p q r s. a.src_not_dst i j (omega arith) (omega arith) r s;
  }

  -- One copy and then the rest of the loop.
  Copied-cons :
      (tail end : ℕ) (l l' : Log)
      → tail < end
      → IsApart src dst tail end
      → Copied src dst (tail + 1) end (copy_block (src tail) (dst tail) l) l'
      → Copied src dst tail end l l'
  Copied-cons tail end l l' lt a c = record {
    kept = record {
      start_kept = c.kept.start_kept ∙ k.start_kept;
      size_kept = c.kept.size_kept ∙ k.size_kept;
      n_kept = c.kept.n_kept ∙ k.n_kept;
      block_kept = λ i. c.kept.block_kept i ∙ k.block_kept i;
    };
    reached = λ i p q r. elim (ℕ_discrete tail i) [
      | yes e ↦ rw (← e) (
          ground (
            arith,
            c.disk_else (dst tail) fresh,
            copy_block-disk (src tail) (dst tail) l (dst tail),
          ))
      | no ne ↦ ground (
        arith,
        c.reached i,
        pw,
        copy_block-cache (src tail) (dst tail) l (src i),
        a.src_not_dst i tail,
      )
    ];
    missed = λ i p q r. elim (ℕ_discrete tail i) [
      | yes e ↦ rw (← e) (
          ground (
            arith,
            c.disk_else (dst tail) fresh,
            copy_block-disk (src tail) (dst tail) l (dst tail),
          ))
      | no ne ↦ ground (
        arith,
        c.missed i,
        pw,
        copy_block-disk (src tail) (dst tail) l (dst i),
        a.dst_distinct tail i,
      )
    ];
    disk_else = λ b h. ground (
      arith,
      c.disk_else b (λ i p q. h i (omega arith) q),
      copy_block-disk (src tail) (dst tail) l b,
      h tail,
    );
    cache_in = λ i p q. elim (ℕ_discrete tail i) [
      | yes e ↦ rw (← e) (
          ground (
            arith,
            c.cache_else (dst tail) fresh,
            copy_block-cache (src tail) (dst tail) l (dst tail),
          ))
      | no ne ↦ ground (
        arith,
        c.cache_in i,
        copy_block-cache (src tail) (dst tail) l (src i),
        a.src_not_dst i tail,
      )
    ];
    cache_else = λ b h. ground (
      arith,
      c.cache_else b (λ i p q. h i (omega arith) q),
      copy_block-cache (src tail) (dst tail) l b,
      h tail,
    );
    power_left = omega (arith, c.power_left, pw);
  }
    where
      k : Kept l (copy_block (src tail) (dst tail) l)
      k = copy_block-Kept (src tail) (dst tail) l

      pw : (copy_block (src tail) (dst tail) l).power ≡ l.power - 1
      pw = copy_block-power (src tail) (dst tail) l

      fresh : (i : ℕ) → tail + 1 ≤ i → i < end → dst i ≢ dst tail
      fresh i p q e =
          absurd (omega (arith, a.dst_distinct i tail (omega arith) (omega arith) q lt e))

  pub copies-Copied :
      (k tail end : ℕ) (l : Log)
      → tail + k ≡ end
      → IsApart src dst tail end
      → Copied src dst tail end l (copies src dst k tail l)
  unfolding copies
  copies-Copied zero tail end l e a = record {
    kept = record { start_kept = refl; size_kept = refl; n_kept = refl; block_kept = λ i. refl };
    reached = λ i p q r. absurd (omega arith);
    missed = λ i p q r. refl;
    disk_else = λ b h. refl;
    cache_in = λ i p q. absurd (omega arith);
    cache_else = λ b h. refl;
    power_left = omega arith;
  }
  copies-Copied (suc k) tail end l e a = Copied-cons tail end l _ (omega arith) a (
      copies-Copied k (tail + 1) end (copy_block (src tail) (dst tail) l) (omega arith)
        (IsApart-suc a))
