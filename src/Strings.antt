-- ===== src/Strings.antt =====
-- string.c: the routines on bytes. Memory is a function from addresses to bytes; no object wraps
-- around the end of the address space.
pub mod Move
pub mod Copy
pub mod Compare
pub mod Pad
mod Tests
use test_ascii.Common.{
  ℕ, zero, suc, ◌+◌, ◌-◌, ◌%◌, Bool, true, false, not, ◌&&◌, ◌||◌, ltb, ◌==◌, if◌then◌else◌, sub32,
}
use test_ascii.Common.Arrays.{update}

abbrev pub Memory : Type 0
Memory = ℕ → ℕ

-- `memset`, whichever of its two ways it takes: the low byte of `c`, `n` times.
unfoldable pub memset : ℕ → ℕ → ℕ → Memory → Memory
memset dst c zero mem = mem
memset dst c (suc n) mem = memset (dst + 1) c n (update mem dst (c % 256))

-- The two loops of `memmove`, upwards and downwards.
unfoldable pub move_up : ℕ → ℕ → ℕ → Memory → Memory
move_up d s zero mem = mem
move_up d s (suc n) mem = move_up (d + 1) (s + 1) n (update mem d (mem s))

unfoldable pub move_down : ℕ → ℕ → ℕ → Memory → Memory
move_down d s zero mem = mem
move_down d s (suc n) mem = move_down (d - 1) (s - 1) n (update mem (d - 1) (mem (s - 1)))

unfoldable pub memmove : ℕ → ℕ → ℕ → Memory → Memory
unfolding move_up move_down
memmove dst src n mem =
    if ltb src dst && ltb dst (src + n)
    then move_down (dst + n) (src + n) n mem
    else move_up dst src n mem

unfoldable pub memcmp : ℕ → ℕ → ℕ → Memory → ℕ
memcmp s1 s2 zero mem = 0
memcmp s1 s2 (suc n) mem =
    let rest = memcmp (s1 + 1) (s2 + 1) n mem in
    if not (mem s1 == mem s2) then sub32 (mem s1) (mem s2) else rest

unfoldable pub strncmp : ℕ → ℕ → ℕ → Memory → ℕ
strncmp p q zero mem = 0
strncmp p q (suc n) mem =
    let rest = strncmp (p + 1) (q + 1) n mem in
    if not (mem p == 0) && mem p == mem q then rest else sub32 (mem p) (mem q)

-- The loop of `safestrcpy`, with `n` bytes left, the one for the NUL included.
unfoldable pub safestrcpy : ℕ → ℕ → ℕ → Memory → Memory
safestrcpy s t zero mem = mem
safestrcpy s t (suc zero) mem = update mem s 0
safestrcpy s t (suc (suc n)) mem =
    let copied = update mem s (mem t) in
    let rest = safestrcpy (s + 1) (t + 1) (suc n) copied in
    if mem t == 0 then update copied (s + 1) 0 else rest

-- `while(n-- > 0) *s++ = 0;`
unfoldable pub pad : ℕ → ℕ → Memory → Memory
pad s zero mem = mem
pad s (suc n) mem = pad (s + 1) n (update mem s 0)

-- The loop of `strncpy`, with `n` bytes left, and the second one.
unfoldable pub strncpy : ℕ → ℕ → ℕ → Memory → Memory
unfolding pad
strncpy s t zero mem = mem
strncpy s t (suc n) mem =
    let copied = update mem s (mem t) in
    let rest = strncpy (s + 1) (t + 1) n copied in if mem t == 0 then pad (s + 1) n copied else rest

-- `strlen`, of a string with a NUL in its first `fuel` bytes.
unfoldable pub strlen_from : ℕ → ℕ → ℕ → Memory → ℕ
strlen_from zero s n mem = n
strlen_from (suc fuel) s n mem =
    let rest = strlen_from fuel s (n + 1) mem in if mem (s + n) == 0 then n else rest
