-- ===== src/Syscall/Bounds.antt =====
-- syscall.c: what is fetched lies in the memory of the process.
use test_ascii.Common.{
  ℕ, ◌+◌, ◌-◌, ◌*◌, ◌%◌, ◌^◌, ◌≡◌, ◌≢◌, ◌<◌, ◌≤◌, ◌⊎◌, inl, inr, refl, sym, ◌∙◌, ap, subst, arith,
  Option, none, some, ltb, leb, ◌||◌, ◌==◌, if_lem, u32, Option-cases,
}
use mathlib.Core.Option
use test_ascii.Common.Arrays.{find_from, find_from-some, find_from-none}
use test_ascii.Syscall.{
  User, word_at, fetchint, string_length, fetchstr, argint, check_block, argptr, string_at, argstr,
  is_outside,
}

-- `size` bytes from `a` on are in the memory of the process.
abbrev pub IsInside : User → ℕ → ℕ → Type 0
IsInside u a size = (a < u.sz) × (a + size ≤ u.sz)

-- The place of argument `n` on the stack.
abbrev pub place : User → ℕ → ℕ
place u n = (u.esp + 4 + 4 * n) % 2 ^ 32

-- The argument, if there is one.
abbrev pub Argument : User → ℕ → Option ℕ → Type 0
Argument u n none = IsInside u (place u n) 4 → ⊥
Argument u n (some v) = IsInside u (place u n) 4 × (v ≡ word_at u.memory (place u n))

argint-Argument : (n : ℕ) (u : User) → u.sz < 2 ^ 31 → Argument u n (argint n u)
unfolding argint fetchint
argint-Argument n u small =
    if_lem (Argument u n) (leb u.sz (place u n) || ltb u.sz (u32 (place u n + 4)))
      (λ out (lo, hi). ground (arith, out, lo, hi, small))
      (λ inside. ((ground (arith, inside, small), ground (arith, inside, small)), refl))

-- A pointer to a block.
abbrev pub Block : User → ℕ → ℕ → Option ℕ → Type 0
Block u n size none =
    IsInside u (place u n) 4 → size < 2 ^ 31 → IsInside u (word_at u.memory (place u n)) size → ⊥
Block u n size (some p) = Argument u n (some p) × (size < 2 ^ 31) × IsInside u p size

check_block-Block :
    (n size : ℕ) (u : User) (o : Option ℕ)
    → u.sz < 2 ^ 31
    → size < 2 ^ 32
    → Argument u n o
    → Block u n size (check_block size u o)
unfolding check_block
check_block-Block n size u none small bits none_there = λ there _ _. none_there there
check_block-Block n size u (some i) small bits (there, e) =
    if_lem (Block u n size) (is_outside i size u)
      (λ out _ positive (lo, hi). ground (arith, out, positive, lo, hi, e, small))
      (λ inside. (
        (there, e),
        ground (arith, inside, bits),
        (ground (arith, inside, small, bits), ground (arith, inside, small, bits)),
      ))

-- For a process below the kernel: `argptr` returns a pointer only if the argument and the block of
-- `size` bytes at it are in the memory of the process and the size is not negative, and then it is
-- the argument; otherwise it returns -1.
pub argptr_lem :
    (n size : ℕ) (u : User) → u.sz < 2 ^ 31 → size < 2 ^ 32 → Block u n size (argptr n size u)
unfolding argptr
argptr_lem n size u small bits =
    check_block-Block n size u (argint n u) small bits (argint-Argument n u small)

-- A string of the length, ended by a NUL, in the memory of the process.
pub record IsString (u : User) (a length : ℕ) : Type 0 where
  pub inside : a + length < u.sz
  pub nonzero : (i : ℕ) → i < length → u.memory (a + i) ≢ 0
  pub ended : u.memory (a + length) ≡ 0

abbrev pub Length : User → ℕ → Option ℕ → Type 0
Length u a none = (s : ℕ) → a ≤ s → s < u.sz → u.memory s ≢ 0
Length u a (some length) = IsString u a length

fetchstr-Length : (a : ℕ) (u : User) → Length u a (fetchstr a u)
unfolding fetchstr string_length
fetchstr-Length a u =
    if_lem (Length u a) (leb u.sz a) (λ out s lo hi. absurd (ground (arith, out, lo, hi)))
      (λ inside.
        by_search (ground (arith, inside))
          (Option-cases (find_from (λ s. u.memory s == 0) (u.sz - a) a)))
  where
    by_search :
        a < u.sz
        → (find_from (λ s. u.memory s == 0) (u.sz - a) a ≡ none)
          ⊎ ((s : ℕ) × (find_from (λ s. u.memory s == 0) (u.sz - a) a ≡ some s))
        → Length u a (string_length a (find_from (λ s. u.memory s == 0) (u.sz - a) a))
    by_search lt (inl e) =
        subst (λ o. Length u a (string_length a o)) (sym e)
          (λ s lo hi z. ground (
            arith,
            z,
            find_from-none (λ s. u.memory s == 0) (u.sz - a) a e s lo (omega (arith, lo, hi, lt)),
          ))
    by_search lt (inr (s, e)) =
        subst (λ o. Length u a (string_length a o)) (sym e)
          (let (lo, hi, hit, first) = find_from-some (λ s. u.memory s == 0) (u.sz - a) a s e in
            record {
              inside = omega (arith, lo, hi, lt);
              nonzero =
                  λ i h z. ground (arith, z, first (a + i) (omega arith) (omega (arith, h, lo)));
              ended = ap u.memory (at_end s lo) ∙ ground (arith, hit);
            })
      where
        at_end : (s : ℕ) → a ≤ s → a + (s - a) ≡ s
        at_end s lo = omega arith

abbrev pub Text : User → ℕ → Option (ℕ × ℕ) → Type 0
Text u n none =
    IsInside u (place u n) 4 → (length : ℕ) → IsString u (word_at u.memory (place u n)) length → ⊥
Text u n (some (p, length)) = Argument u n (some p) × IsString u p length

string_at-Text : (n : ℕ) (u : User) (o : Option ℕ) → Argument u n o → Text u n (string_at u o)
unfolding string_at
string_at-Text n u none none_there = λ there length s. none_there there
string_at-Text n u (some a) (there, e) = by_length (fetchstr a u) (fetchstr-Length a u)
  where
    by_length : (o : Option ℕ) → Length u a o → Text u n (Option.map (λ length. (a, length)) o)
    by_length none no_nul = λ _ length s.
        let t = subst (λ p. IsString u p length) (sym e) s in
        no_nul (a + length) (omega arith) t.inside t.ended
    by_length (some length) s = ((there, e), s)

-- For a process below the kernel: `argstr` returns a pointer and a length only if the argument is in
-- the memory of the process and points to a string of that length there, its NUL included;
-- otherwise there is none and it returns -1.
pub argstr_lem : (n : ℕ) (u : User) → u.sz < 2 ^ 31 → Text u n (argstr n u)
unfolding argstr
argstr_lem n u small = string_at-Text n u (argint n u) (argint-Argument n u small)
