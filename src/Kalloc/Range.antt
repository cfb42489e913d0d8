-- ===== src/Kalloc/Range.antt =====
-- kalloc.c: `freerange`.
use test_ascii.Common.{
  ℕ, zero, suc, ◌+◌, ◌*◌, ◌/◌, ◌%◌, ◌≡◌, ◌<◌, ◌≤◌, refl, arith, Bool, true, false, not, ◌&&◌, ◌||◌,
  ◌==◌, ltb, leb, if◌then◌else◌, Outcome, done, Bool-cases, inl, inr,
}
use test_ascii.Common.Arrays.{update}
use test_ascii.Kalloc.{
  Kmem, kfree, freerange, freerange_from, page_size, page_round_up, kernbase, phystop, v2p,
}
use test_ascii.Kalloc.Owners.{Reach, later, freed}

-- The page at `a` lies between two addresses.
abbrev pub is_whole : ℕ → ℕ → ℕ → Bool
is_whole vstart vend a = a % page_size == 0 && (leb vstart a && leb (a + page_size) vend)

module _ (end : ℕ) (end_pos : 0 < end) where
  kfree_returns :
      (v : ℕ) (k : Kmem)
      → v % page_size ≡ 0
      → end ≤ v
      → kernbase ≤ v
      → v < kernbase + phystop
      → kfree end v k ≡ done (record k { next = update k.next v k.freelist; freelist = v })
  unfolding kfree
  kfree_returns v k aligned above lo hi = rw (good) refl
    where
      good : (not (v % page_size == 0) || ltb v end || leb phystop (v2p v)) ≡ false
      good = ground arith

  -- What a run of the loop from page `p` on leads to.
  abbrev pub Frees : ℕ → ℕ → (ℕ → Bool) → Outcome Kmem → Type 0
  Frees p vend owned out =
      (k' : Kmem) × (owned' : ℕ → Bool) × (out ≡ done k')
      × Reach end end_pos k' owned'
      × ((a : ℕ) → owned' a ≡ (if is_whole p vend a then false else owned a))

  freerange_from-Frees :
      (n p vend : ℕ) (k : Kmem) (owned : ℕ → Bool)
      → p % page_size ≡ 0
      → end ≤ p
      → kernbase ≤ p
      → vend ≤ kernbase + phystop
      → vend < p + n * page_size + page_size
      → ((a : ℕ) → p ≤ a → owned a ≡ true)
      → Reach end end_pos k owned
      → Frees p vend owned (freerange_from end n p vend k)
  unfolding freerange_from
  freerange_from-Frees zero p vend k owned aligned above lo hi enough all r =
      (k, owned, refl, r, λ a. ground arith)
  freerange_from-Frees (suc n) p vend k owned aligned above lo hi enough all r =
      elim (Bool-cases (leb (p + page_size) vend)) [
        | inr stop ↦ rw (stop) (k, owned, refl, r, λ a. ground arith)
        | inl more ↦
            let k₁ = record k { next = update k.next p k.freelist; freelist = p } in
            let e = kfree_returns p k aligned above lo (ground arith) in
            let (k', owned', e', r', frees) =
              freerange_from-Frees n (p + page_size) vend k₁ (update owned p false) (omega arith)
                (omega arith) (omega arith) hi (omega arith) (λ a h. ground (arith, all a))
                (later r (freed k k₁ owned p (all p (omega arith)) e)) in
            rw (more, e) (k', owned', e', r', λ a. ground (arith, frees a))
      ]

  -- `freerange` on memory between the kernel's end and the top of physical memory, all of it
  -- owned: it does not panic, and then just the pages that lie in the range as a whole have no
  -- owner; the loop's bound is enough.
  pub freerange_lem :
      (vstart vend : ℕ) (k : Kmem) {owned : ℕ → Bool}
      → end ≤ vstart
      → kernbase ≤ vstart
      → vstart ≤ vend
      → vend ≤ kernbase + phystop
      → ((a : ℕ) → vstart ≤ a → owned a ≡ true)
      → Reach end end_pos k owned
      → Frees vstart vend owned (freerange end vstart vend k)
  unfolding freerange
  freerange_lem vstart vend k {owned} above lo order hi all r =
      let p = page_round_up vstart in
      let (k', owned', e, r', frees) =
        freerange_from-Frees (vend / page_size) p vend k owned (omega arith) (omega arith)
          (omega arith) hi (omega arith) (λ a h. all a (omega arith)) r in
      (k', owned', e, r', λ a. ground (arith, frees a))
