-- ===== src/Kalloc/Owners.antt =====
-- kalloc.c and those who use its pages: the free list and who owns which page.
use test_ascii.Common.{
  ℕ, ◌≡◌, ◌≢◌, ◌<◌, ◌⊎◌, inl, inr, refl, sym, subst, arith, Bool, true, false, List, [], ◌∷◌, ◌==◌,
  done, Bool-cases,
}
use test_ascii.Common.Arrays.{update}
use test_ascii.Kalloc.{Kmem, kalloc, kfree}

-- The pages that are threaded from page `p` on.
pub data Chain (next : ℕ → ℕ) : ℕ → List ℕ → Type 0 where
  stop : Chain next 0 []
  link : (p : ℕ) (ps : List ℕ) → p ≢ 0 → Chain next (next p) ps → Chain next p (p ∷ ps)

abbrev pub IsNotIn : ℕ → List ℕ → Type 0
IsNotIn x [] = Unit
IsNotIn x (y ∷ ys) = (x ≢ y) × IsNotIn x ys

abbrev pub AreDistinct : List ℕ → Type 0
AreDistinct [] = Unit
AreDistinct (x ∷ xs) = IsNotIn x xs × AreDistinct xs

abbrev pub AreUnowned : (ℕ → Bool) → List ℕ → Type 0
AreUnowned owned [] = Unit
AreUnowned owned (x ∷ xs) = (owned x ≡ false) × AreUnowned owned xs

abbrev pub IsIn : ℕ → List ℕ → Type 0
IsIn x [] = ⊥
IsIn x (y ∷ ys) = (x ≡ y) ⊎ IsIn x ys

-- A write to a page that is not on the list leaves the list.
pub Chain-update :
    {next : ℕ → ℕ} (x v : ℕ) (ps : List ℕ) {q : ℕ}
    → Chain next q ps
    → IsNotIn x ps
    → Chain (update next x v) q ps
Chain-update x v _ stop out = stop
Chain-update {next} x v _ (link p ps nz rest) out =
    link p ps nz (subst (λ q. Chain (update next x v) q ps) same (Chain-update x v ps rest out.1))
  where
    same : next p ≡ update next x v p
    same = ground (arith, out.0)

pub AreUnowned-IsNotIn :
    (owned : ℕ → Bool) (x : ℕ) (ps : List ℕ) → AreUnowned owned ps → owned x ≡ true → IsNotIn x ps
AreUnowned-IsNotIn owned x [] u o = tt
AreUnowned-IsNotIn owned x (p ∷ ps) u o =
    (λ e. ground (arith, u.0), AreUnowned-IsNotIn owned x ps u.1 o)

-- A new owner of a page that is not on the list leaves the list unowned.
pub AreUnowned-update :
    (owned : ℕ → Bool) (x : ℕ) (b : Bool) (ps : List ℕ)
    → AreUnowned owned ps
    → IsNotIn x ps
    → AreUnowned (update owned x b) ps
AreUnowned-update owned x b [] u out = tt
AreUnowned-update owned x b (p ∷ ps) u out =
    (ground (arith, u.0, out.0), AreUnowned-update owned x b ps u.1 out.1)

module _ (end : ℕ) (end_pos : 0 < end) where
  -- An allocator, and who has been given a page and has not freed it. An owner writes what it
  -- likes to the first word of its page.
  pub data Step : Kmem → (ℕ → Bool) → Kmem → (ℕ → Bool) → Type 0 where
    allocated :
        (k : Kmem) (owned : ℕ → Bool)
        → (kalloc k).0 ≢ 0
        → Step k owned (kalloc k).1 (update owned (kalloc k).0 true)
    freed :
        (k k' : Kmem) (owned : ℕ → Bool) (v : ℕ)
        → owned v ≡ true
        → kfree end v k ≡ done k'
        → Step k owned k' (update owned v false)
    scribbled :
        (k : Kmem) (owned : ℕ → Bool) (v w : ℕ)
        → owned v ≡ true
        → Step k owned (record k { next = update k.next v w }) owned

  -- At boot the list is empty and all memory belongs to the kernel, which then frees pages by
  -- `freerange`.
  pub data Reach : Kmem → (ℕ → Bool) → Type 0 where
    booted : (next : ℕ → ℕ) → Reach (record { freelist = 0; next = next }) (λ _. true)
    later :
        {k k' : Kmem} {owned owned' : ℕ → Bool}
        → Reach k owned
        → Step k owned k' owned'
        → Reach k' owned'

  -- The free list has each page that nobody owns, once.
  pub record Sound (k : Kmem) (owned : ℕ → Bool) : Type 0 where
    pub free : List ℕ
    pub chain : Chain k.next k.freelist free
    pub distinct : AreDistinct free
    pub unowned : AreUnowned owned free
    pub complete : (a : ℕ) → owned a ≡ false → IsIn a free

  allocated-Sound :
      (k : Kmem) (owned : ℕ → Bool) (q : ℕ) (free : List ℕ)
      → q ≡ k.freelist
      → k.freelist ≢ 0
      → Chain k.next q free
      → AreDistinct free
      → AreUnowned owned free
      → ((a : ℕ) → owned a ≡ false → IsIn a free)
      → Sound (record k { freelist = k.next k.freelist }) (update owned k.freelist true)
  allocated-Sound k owned _ _ e nz stop d u all = absurd (nz (sym e))
  allocated-Sound k owned _ _ e nz (link p ps pnz rest) d u all = rw (← e) record {
    free = ps;
    chain = rest;
    distinct = d.1;
    unowned = AreUnowned-update owned p true ps u.1 d.0;
    complete = λ a f. ground (arith, all a);
  }

  kalloc-Sound :
      (k : Kmem) (owned : ℕ → Bool)
      → (kalloc k).0 ≢ 0
      → Sound k owned
      → Sound (kalloc k).1 (update owned (kalloc k).0 true)
  unfolding kalloc
  kalloc-Sound k owned nz s = elim (Bool-cases (k.freelist == 0)) [
    | inl e ↦ absurd (nz (ground arith))
    | inr ne ↦ rw (ne) (
        allocated-Sound k owned k.freelist s.free refl (ground arith) s.chain s.distinct s.unowned
          s.complete)
  ]

  kfree-Sound :
      (k k' : Kmem) (owned : ℕ → Bool) (v : ℕ)
      → owned v ≡ true
      → kfree end v k ≡ done k'
      → Sound k owned
      → Sound k' (update owned v false)
  unfolding kfree
  kfree-Sound k k' owned v o e s =
      let out : IsNotIn v s.free = AreUnowned-IsNotIn owned v s.free s.unowned o in
      let same : record k { next = update k.next v k.freelist; freelist = v } ≡ k' = ground arith in
      rw (← same) record {
        free = v ∷ s.free;
        chain = link v s.free (ground arith) (
            subst (λ q. Chain (update k.next v k.freelist) q s.free) set_next
              (Chain-update v k.freelist s.free s.chain out));
        distinct = (out, s.distinct);
        unowned = (ground arith, AreUnowned-update owned v false s.free s.unowned out);
        complete = λ a f. ground (arith, s.complete a);
      }
    where
      set_next : k.freelist ≡ update k.next v k.freelist v
      set_next = ground arith

  step-Sound :
      {k k' : Kmem} {owned owned' : ℕ → Bool}
      → Step k owned k' owned'
      → Sound k owned
      → Sound k' owned'
  step-Sound (allocated k owned nz) s = kalloc-Sound k owned nz s
  step-Sound (freed k k' owned v o e) s = kfree-Sound k k' owned v o e s
  step-Sound (scribbled k owned v w o) s = record {
    free = s.free;
    chain = Chain-update v w s.free s.chain (AreUnowned-IsNotIn owned v s.free s.unowned o);
    distinct = s.distinct;
    unowned = s.unowned;
    complete = s.complete;
  }

  pub Reach-Sound : {k : Kmem} {owned : ℕ → Bool} → Reach k owned → Sound k owned
  Reach-Sound (booted next) = record {
    free = [];
    chain = stop;
    distinct = tt;
    unowned = tt;
    complete = λ a f. absurd (ground arith);
  }
  Reach-Sound (later r step) = step-Sound step (Reach-Sound r)

  -- Whatever was allocated, freed and written to allocated pages before: `kalloc` returns 0 only
  -- if every page has an owner, and otherwise a page that has none.
  pub kalloc_lem :
      {k : Kmem} {owned : ℕ → Bool}
      → Reach k owned
      → (((kalloc k).0 ≡ 0) × ((a : ℕ) → owned a ≡ true))
        ⊎ (((kalloc k).0 ≢ 0) × (owned (kalloc k).0 ≡ false))
  unfolding kalloc
  kalloc_lem {k} {owned} r =
      let s = Reach-Sound r in by_list k.freelist s.free refl s.chain s.unowned s.complete
    where
      by_list :
          (q : ℕ) (free : List ℕ)
          → q ≡ k.freelist
          → Chain k.next q free
          → AreUnowned owned free
          → ((a : ℕ) → owned a ≡ false → IsIn a free)
          → (((kalloc k).0 ≡ 0) × ((a : ℕ) → owned a ≡ true))
            ⊎ (((kalloc k).0 ≢ 0) × (owned (kalloc k).0 ≡ false))
      by_list _ _ e stop u all = inl (ground arith, λ a. ground (arith, all a))
      by_list _ _ e (link p ps nz rest) u all = inr (ground arith, ground (arith, u.0))

-- What `kfree` takes, the next `kalloc` returns, and then the list is as before.
pub kalloc-kfree :
    (end v : ℕ) (k : Kmem) {k' : Kmem}
    → 0 < end
    → kfree end v k ≡ done k'
    → ((kalloc k').0 ≡ v) × ((kalloc k').1.freelist ≡ k.freelist)
unfolding kalloc kfree
kalloc-kfree end v k {k'} pos e =
    let same : record k { next = update k.next v k.freelist; freelist = v } ≡ k' = ground arith in
    let nz : v ≢ 0 = ground arith in rw (← same) (ground arith)
