-- ===== src/Kalloc.antt =====
-- kalloc.c: the physical page allocator. A page is its address, and the list of free pages is
-- threaded through the first word of each.
pub mod Owners
pub mod Range
mod Tests
use test_ascii.Common.{
  ℕ, zero, suc, ◌+◌, ◌*◌, ◌/◌, ◌%◌, ◌^◌, ◌-◌, Bool, true, false, not, ◌||◌, ltb, leb, ◌==◌,
  if◌then◌else◌, sub32, u32, Outcome, done, panic, ◌>>=◌,
}
use test_ascii.Common.Arrays.{update}

-- mmu.h and memlayout.h
abbrev pub page_size : ℕ
page_size = 4096

abbrev pub phystop : ℕ
phystop = 0xE000000

abbrev pub kernbase : ℕ
kernbase = 0x80000000

-- `PGROUNDUP`
abbrev pub page_round_up : ℕ → ℕ
page_round_up a = u32 (a + page_size - 1) / page_size * page_size

-- `V2P`
abbrev pub v2p : ℕ → ℕ
v2p v = sub32 v kernbase

-- `kmem`, with the first word of each page.
pub record Kmem : Type 0 where
  pub freelist : ℕ
  pub next : ℕ → ℕ

-- `kalloc`: a page, or 0.
unfoldable pub kalloc : Kmem → ℕ × Kmem
kalloc k =
    if k.freelist == 0 then (0, k) else (k.freelist, record k { freelist = k.next k.freelist })

-- `end` is the first address after the kernel, which the linker sets.
module _ (end : ℕ) where
  unfoldable pub kfree : ℕ → Kmem → Outcome Kmem
  kfree v k =
      if not (v % page_size == 0) || ltb v end || leb phystop (v2p v)
      then panic
      else done (record k { next = update k.next v k.freelist; freelist = v })

  -- The loop of `freerange` from page `p` on, of at most `n` passes.
  unfoldable pub freerange_from : ℕ → ℕ → ℕ → Kmem → Outcome Kmem
  freerange_from zero p vend k = done k
  freerange_from (suc n) p vend k =
      let rest = kfree p k >>= λ k'. freerange_from n (p + page_size) vend k' in
      if leb (p + page_size) vend then rest else done k

  unfoldable pub freerange : ℕ → ℕ → Kmem → Outcome Kmem
  unfolding freerange_from
  freerange vstart vend k = freerange_from (vend / page_size) (page_round_up vstart) vend k
