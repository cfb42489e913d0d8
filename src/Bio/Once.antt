-- ===== src/Bio/Once.antt =====
-- bio.c: how often a block is in the cache.
use test_ascii.Common.{
  ℕ, zero, suc, ◌+◌, ◌≡◌, ◌≢◌, ◌≤◌, ◌⊎◌, inl, inr, refl, ◌∙◌, subst, arith, Bool, false, ◌&&◌,
  Option, none, some, List, [], ◌∷◌, ◌==◌, if◌then◌else◌, sub32, Outcome, done, panic, Bool-cases,
}
use test_ascii.Bio.{
  Buf, binit_from, is_hit, is_free, keep_front, find_cached, or_recycle, recycle, bget, bget_found,
  bget_recycled, take_out, drop_ref, brelse, brelse_taken, set_flags,
}

-- How many buffers hold a block.
unfoldable pub copies : ℕ → ℕ → List Buf → ℕ
copies dev blockno [] = 0
copies dev blockno (b ∷ cache) =
    let rest = copies dev blockno cache in if is_hit dev blockno b then suc rest else rest

-- Every buffer is in use or dirty.
abbrev pub AreBusy : List Buf → Type 0
AreBusy [] = Unit
AreBusy (b ∷ cache) = (is_free b ≡ false) × AreBusy cache

module _ (dev blockno d k : ℕ) where
  abbrev Searched : List Buf → Option (ℕ × List Buf) → Type 0
  Searched cache none = copies dev blockno cache ≡ 0
  Searched cache (some (i, cache')) = copies d k cache' ≡ copies d k cache

  keep_front-Searched :
      (b : Buf) (cache : List Buf) (o : Option (ℕ × List Buf))
      → is_hit dev blockno b ≡ false
      → Searched cache o
      → Searched (b ∷ cache) (keep_front b o)
  unfolding copies
  keep_front-Searched b cache none miss h = rw (miss) h
  keep_front-Searched b cache (some (i, cache')) miss h = rw (h) refl

  find_cached-Searched : (cache : List Buf) → Searched cache (find_cached dev blockno cache)
  unfolding find_cached copies
  find_cached-Searched [] = refl
  find_cached-Searched (b ∷ cache) =
      let rest = keep_front-Searched b cache (find_cached dev blockno cache) in
      let deeper = find_cached-Searched cache in
      elim (Bool-cases (is_hit dev blockno b)) [
        | inl hit ↦ rw (hit) refl
        | inr miss ↦ rw (miss) (rest miss deeper)
      ]

  abbrev Recycled : List Buf → Option (ℕ × List Buf) → Type 0
  Recycled cache none = AreBusy cache
  Recycled cache (some (i, cache')) =
      copies d k cache' ≤ copies d k cache + (if dev == d && blockno == k then 1 else 0)

  or_recycle-Recycled :
      (b : Buf) (cache : List Buf) (o : Option (ℕ × List Buf))
      → Recycled cache o
      → Recycled (b ∷ cache) (or_recycle dev blockno b cache o)
  unfolding or_recycle copies
  or_recycle-Recycled b cache (some (i, cache')) h = ground (arith, h)
  or_recycle-Recycled b cache none h = elim (Bool-cases (is_free b)) [
    | inl free ↦ rw (free) ground arith
    | inr used ↦ rw (used) (used, h)
  ]

  recycle-Recycled : (cache : List Buf) → Recycled cache (recycle dev blockno cache)
  unfolding recycle
  recycle-Recycled [] = tt
  recycle-Recycled (b ∷ cache) =
      or_recycle-Recycled b cache (recycle dev blockno cache) (recycle-Recycled cache)

  abbrev Got : List Buf → Outcome (ℕ × List Buf) → Type 0
  Got cache panic = (copies dev blockno cache ≡ 0) × AreBusy cache
  Got cache (done (i, cache')) =
      (copies d k cache' ≡ copies d k cache)
      ⊎ ((copies dev blockno cache ≡ 0)
          × (copies d k cache' ≤ copies d k cache + (if dev == d && blockno == k then 1 else 0)))

  Recycled-Got :
      (cache : List Buf) (o : Option (ℕ × List Buf))
      → copies dev blockno cache ≡ 0
      → Recycled cache o
      → Got cache (bget_recycled o)
  unfolding bget_recycled
  Recycled-Got cache none z h = (z, h)
  Recycled-Got cache (some (i, cache')) z h = inr (z, h)

  found-Got :
      (cache : List Buf) (o : Option (ℕ × List Buf))
      → Searched cache o
      → Got cache (bget_found dev blockno cache o)
  unfolding bget_found
  found-Got cache (some (i, cache')) h = inl h
  found-Got cache none h = Recycled-Got cache (recycle dev blockno cache) h (recycle-Recycled cache)

  bget-Got : (cache : List Buf) → Got cache (bget dev blockno cache)
  unfolding bget
  bget-Got cache = found-Got cache (find_cached dev blockno cache) (find_cached-Searched cache)

module _ (d k : ℕ) where
  drop_ref-copies : (i : ℕ) (cache : List Buf) → copies d k (drop_ref i cache) ≡ copies d k cache
  unfolding drop_ref copies
  drop_ref-copies i [] = refl
  drop_ref-copies i (b ∷ cache) = ground (arith, drop_ref-copies i cache)

  set_flags-copies :
      (i : ℕ) (valid dirty : Bool) (cache : List Buf)
      → copies d k (set_flags i valid dirty cache) ≡ copies d k cache
  unfolding set_flags copies
  set_flags-copies i valid dirty [] = refl
  set_flags-copies i valid dirty (b ∷ cache) = ground (arith, set_flags-copies i valid dirty cache)

  abbrev Taken : List Buf → Option (Buf × List Buf) → Type 0
  Taken cache none = Unit
  Taken cache (some (b, rest)) = copies d k (b ∷ rest) ≡ copies d k cache

  abbrev push : Buf → Option (Buf × List Buf) → Option (Buf × List Buf)
  push b none = none
  push b (some (c, cache')) = some (c, b ∷ cache')

  push-Taken :
      (b : Buf) (cache : List Buf) (o : Option (Buf × List Buf))
      → Taken cache o
      → Taken (b ∷ cache) (push b o)
  unfolding copies
  push-Taken b cache none h = tt
  push-Taken b cache (some (c, rest)) h = ground (arith, h)

  take_out-Taken : (i : ℕ) (cache : List Buf) → Taken cache (take_out i cache)
  unfolding take_out
  take_out-Taken i [] = tt
  take_out-Taken i (b ∷ cache) =
      let deeper = push-Taken b cache (take_out i cache) (take_out-Taken i cache) in
      elim (Bool-cases (b.id == i)) [ inl hit ↦ rw (hit) refl | inr miss ↦ rw (miss) deeper ]

  Taken-copies :
      (i : ℕ) (cache : List Buf) (o : Option (Buf × List Buf))
      → Taken cache o
      → copies d k (brelse_taken i cache o) ≡ copies d k cache
  unfolding brelse_taken
  Taken-copies i cache none h = refl
  Taken-copies i cache (some (b, rest)) h = elim (Bool-cases (sub32 b.refcnt 1 == 0)) [
    | inl last ↦ rw (last) (unfold copies in h)
    | inr more ↦ rw (more) (drop_ref-copies i cache)
  ]

  brelse-copies : (i : ℕ) (cache : List Buf) → copies d k (brelse i cache) ≡ copies d k cache
  unfolding brelse
  brelse-copies i cache = Taken-copies i cache (take_out i cache) (take_out-Taken i cache)

  binit_from-copies :
      (n i : ℕ) (cache : List Buf) → d ≢ 0 → copies d k (binit_from n i cache) ≡ copies d k cache
  unfolding binit_from
  binit_from-copies zero i cache nz = refl
  binit_from-copies (suc n) i cache nz =
      binit_from-copies n (i + 1) _ nz ∙ unfold copies in ground arith

-- What the calls on the cache lead to from a cache of `n` buffers.
pub data Reach (n : ℕ) : List Buf → Type 0 where
  initial : Reach n (binit_from n 0 [])
  got :
      (dev blockno i : ℕ) (cache cache' : List Buf)
      → Reach n cache
      → bget dev blockno cache ≡ done (i, cache')
      → Reach n cache'
  released : (i : ℕ) (cache : List Buf) → Reach n cache → Reach n (brelse i cache)
  flagged :
      (i : ℕ) (valid dirty : Bool) (cache : List Buf)
      → Reach n cache
      → Reach n (set_flags i valid dirty cache)

still_once :
    (dev blockno d k i : ℕ) (cache cache' : List Buf)
    → bget dev blockno cache ≡ done (i, cache')
    → copies d k cache ≤ 1
    → copies d k cache' ≤ 1
still_once dev blockno d k i cache cache' e before =
    elim (subst (Got dev blockno d k cache) e (bget-Got dev blockno d k cache)) [
      | inl same ↦ omega (arith, same)
      | inr (none_yet, bound) ↦ elim (Bool-cases (dev == d && blockno == k)) [
        | inr other ↦ ground (arith, bound)
        | inl this ↦
            let same_dev : dev ≡ d = ground arith in
            let same_block : blockno ≡ k = ground arith in
            let zero_copies : copies d k cache ≡ 0 = rw (same_dev, same_block) at none_yet in
            ground (arith, bound, zero_copies)
      ]
    ]

-- `bget` panics only if the block is not in the cache and every buffer is in use or dirty.
pub bget_panics :
    (dev blockno : ℕ) (cache : List Buf)
    → bget dev blockno cache ≡ panic
    → (copies dev blockno cache ≡ 0) × AreBusy cache
bget_panics dev blockno cache e =
    subst (Got dev blockno 0 0 cache) e (bget-Got dev blockno 0 0 cache)

-- No two buffers of the cache hold the same block of the same device, whatever `bget` and
-- `brelse` calls came before, in any order; device 0, which fresh buffers have, does not count.
pub cached_once :
    {n : ℕ} {cache : List Buf} (d k : ℕ) → Reach n cache → d ≢ 0 → copies d k cache ≤ 1
unfolding copies
cached_once d k initial nz = omega (arith, binit_from-copies d k _ 0 [] nz)
cached_once d k (got dev blockno i cache cache' r e) nz =
    still_once dev blockno d k i cache cache' e (cached_once d k r nz)
cached_once d k (released i cache r) nz =
    omega (arith, brelse-copies d k i cache, cached_once d k r nz)
cached_once d k (flagged i valid dirty cache r) nz =
    omega (arith, set_flags-copies d k i valid dirty cache, cached_once d k r nz)
