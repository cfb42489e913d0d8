-- ===== src/Strings/Copy.antt =====
-- string.c: `safestrcpy`.
use test_ascii.Common.{
  ℕ, zero, suc, ◌+◌, ◌≡◌, ◌≢◌, ◌≤◌, ◌<◌, ◌⊎◌, inl, inr, refl, sym, ap, ◌∙◌, arith, ◌==◌, Bool-cases,
}
use test_ascii.Common.Arrays.{update}
use test_ascii.Strings.{Memory, safestrcpy}

-- From `s` on there is a string of `k` characters, those at `t`, and nothing outside the `n` bytes
-- from `s` on has changed.
pub record Copied (s t n k : ℕ) (before after : Memory) : Type 0 where
  pub inside : k < n
  pub ends : after (s + k) ≡ 0
  pub same : (i : ℕ) → i < k → after (s + i) ≡ before (t + i)
  pub no_nul : (i : ℕ) → i < k → before (t + i) ≢ 0
  pub stops : (before (t + k) ≡ 0) ⊎ (k + 1 ≡ n)
  pub outside : (a : ℕ) → (a < s) ⊎ (s + n ≤ a) → after a ≡ before a

-- A string with one more character before it.
extend :
    (s t n k : ℕ) (mem after : Memory)
    → mem t ≢ 0
    → (s + suc (suc n) ≤ t) ⊎ (t + suc (suc n) ≤ s)
    → Copied (s + 1) (t + 1) (suc n) k (update mem s (mem t)) after
    → Copied s t (suc (suc n)) (k + 1) mem after
extend s t n k mem after nz apart c = record {
  inside = omega (arith, c.inside);
  ends = ap after (omega arith) ∙ c.ends;
  same = same;
  no_nul = no_nul;
  stops = stops c.stops;
  outside = λ a h. c.outside a (ground arith) ∙ ground arith;
}
  where
    kept : (i : ℕ) → i < suc n → update mem s (mem t) (t + 1 + i) ≡ mem (t + suc i)
    kept i h = let shift : t + 1 + i ≡ t + suc i = omega arith in rw (shift) (ground arith)

    first : update mem s (mem t) s ≡ mem (t + 0)
    first = let start : t + 0 ≡ t = omega arith in rw (start) (ground arith)

    same : (i : ℕ) → i < k + 1 → after (s + i) ≡ mem (t + i)
    same zero h = ap after (omega arith) ∙ c.outside s (inl (omega arith)) ∙ first
    same (suc i) h =
        ap after (omega arith) ∙ c.same i (omega arith) ∙ kept i (omega (arith, c.inside))

    no_nul : (i : ℕ) → i < k + 1 → mem (t + i) ≢ 0
    no_nul zero h e = nz (ap mem (omega arith) ∙ e)
    no_nul (suc i) h e = c.no_nul i (omega arith) (kept i (omega (arith, c.inside)) ∙ e)

    stops :
        (update mem s (mem t) (t + 1 + k) ≡ 0) ⊎ (k + 1 ≡ suc n)
        → (mem (t + (k + 1)) ≡ 0) ⊎ (k + 1 + 1 ≡ suc (suc n))
    stops (inl e) = inl (ap mem (omega arith) ∙ sym (kept k c.inside) ∙ e)
    stops (inr e) = inr (omega arith)

first_nul : (t : ℕ) (mem : Memory) → mem t ≡ 0 → mem (t + 0) ≡ 0
first_nul t mem e = let start : t + 0 ≡ t = omega arith in rw (start) e

-- `safestrcpy` into `n` bytes, one at least, that the source's `n` bytes do not overlap: the
-- result is a string of fewer than `n` characters, the characters of the source up to its NUL or
-- as many as fit, and no byte outside the `n` bytes has changed.
pub safestrcpy_lem :
    (s t n : ℕ) (mem : Memory)
    → 0 < n
    → (s + n ≤ t) ⊎ (t + n ≤ s)
    → (k : ℕ) × Copied s t n k mem (safestrcpy s t n mem)
unfolding safestrcpy
safestrcpy_lem s t zero mem pos apart = absurd (omega arith)
safestrcpy_lem s t (suc zero) mem pos apart = (
  0,
  record {
    inside = omega arith;
    ends = ground arith;
    same = λ i h. absurd (omega arith);
    no_nul = λ i h. absurd (omega arith);
    stops = inr refl;
    outside = λ a h. ground arith;
  },
)
safestrcpy_lem s t (suc (suc n)) mem pos apart = elim (Bool-cases (mem t == 0)) [
  | inl nul ↦ (
    0,
    rw (nul) record {
      inside = omega arith;
      ends = ground arith;
      same = λ i h. absurd (omega arith);
      no_nul = λ i h. absurd (omega arith);
      stops = inl (first_nul t mem (ground arith));
      outside = λ a h. ground arith;
    },
  )
  | inr more ↦
      let copied = update mem s (mem t) in
      let (k, c) = safestrcpy_lem (s + 1) (t + 1) (suc n) copied (omega arith) (ground arith) in
      (k + 1, rw (more) (extend s t n k mem _ (ground arith) apart c))
]
