-- ===== src/Fs/Bits.antt =====
-- fs.c: the bits of a byte of the free map.
use Prim.Native.Nat.{bit_and, bit_or}
use test_ascii.Common.{
  ℕ, ◌-◌, ◌^◌, ◌≡◌, ◌<◌, refl, arith, Bool, true, false, not, Option, none, some, Option-cases, inl,
  inr, ap, not-false, ◌&&◌, ◌==◌, ltb, if◌then◌else◌,
}
use test_ascii.Common.Arrays.{find_from, find_from-none}

-- `byte & (1 << k)`, `byte | (1 << k)` and `byte & ~(1 << k)`.
unfoldable pub is_set : ℕ → ℕ → Bool
is_set byte k = not (bit_and byte (2 ^ k) == 0)

unfoldable pub set_bit : ℕ → ℕ → ℕ
set_bit byte k = bit_or byte (2 ^ k)

unfoldable pub clear_bit : ℕ → ℕ → ℕ
clear_bit byte k = bit_and byte (255 - 2 ^ k)

-- No value below the bound fails the test.
is_none : Option ℕ → Bool
is_none none = true
is_none (some x) = false

passes : ℕ → (ℕ → Bool) → Bool
unfolding find_from is_none
passes n p = is_none (find_from (λ x. not (p x)) n 0)

passes_at : (n : ℕ) (p : ℕ → Bool) (x : ℕ) → passes n p ≡ true → x < n → p x ≡ true
unfolding passes is_none
passes_at n p x h lt = not-false (p x) (elim (Option-cases (find_from (λ x. not (p x)) n 0)) [
  | inl e ↦ find_from-none (λ x. not (p x)) n 0 e x (omega arith) (omega arith)
  | inr (k, e) ↦ absurd (ground (arith, h, ap is_none e))
])

abbrev same : Bool → Bool → Bool
same true b = b
same false b = not b

same_lem : (a b : Bool) → same a b ≡ true → a ≡ b
same_lem true true h = refl
same_lem true false h = absurd (ground arith)
same_lem false true h = absurd (ground arith)
same_lem false false h = refl

all_bits : (ℕ → ℕ → ℕ → Bool) → Bool
all_bits p = passes 256 (λ x. passes 8 (λ k. passes 8 (λ j. p x k j)))

all_bits_sound :
    (p : ℕ → ℕ → ℕ → Bool) (x k j : ℕ)
    → all_bits p ≡ true
    → x < 256
    → k < 8
    → j < 8
    → p x k j ≡ true
unfolding all_bits
all_bits_sound p x k j h lx lk lj =
    let at_x = passes_at 256 (λ x. passes 8 (λ k. passes 8 (λ j. p x k j))) x h lx in
    let at_k = passes_at 8 (λ k. passes 8 (λ j. p x k j)) k at_x lk in
    passes_at 8 (λ j. p x k j) j at_k lj

set_table :
    all_bits (λ x k j. same (is_set (set_bit x k) j) (if k == j then true else is_set x j)) ≡ true
unfolding all_bits passes find_from is_none is_set set_bit
set_table = refl

clear_table :
    all_bits (λ x k j. same (is_set (clear_bit x k) j) (if k == j then false else is_set x j))
    ≡ true
unfolding all_bits passes find_from is_none is_set clear_bit
clear_table = refl

-- Setting or clearing a bit of a byte changes that bit and no other.
pub is_set-set_bit :
    (x k j : ℕ)
    → x < 256
    → k < 8
    → j < 8
    → is_set (set_bit x k) j ≡ (if k == j then true else is_set x j)
is_set-set_bit x k j lx lk lj = same_lem _ _ (
    all_bits_sound (λ x k j. same (is_set (set_bit x k) j) (if k == j then true else is_set x j)) x
      k j set_table lx lk lj)

pub is_set-clear_bit :
    (x k j : ℕ)
    → x < 256
    → k < 8
    → j < 8
    → is_set (clear_bit x k) j ≡ (if k == j then false else is_set x j)
is_set-clear_bit x k j lx lk lj = same_lem _ _ (
    all_bits_sound (λ x k j. same (is_set (clear_bit x k) j) (if k == j then false else is_set x j))
      x k j clear_table lx lk lj)

is_byte_table : all_bits (λ x k j. ltb (set_bit x k) 256 && ltb (clear_bit x k) 256) ≡ true
unfolding all_bits passes find_from is_none set_bit clear_bit
is_byte_table = refl

pub set_bit-le : (x k : ℕ) → x < 256 → k < 8 → set_bit x k < 256
set_bit-le x k lx lk = ground (
  arith,
  all_bits_sound (λ x k j. ltb (set_bit x k) 256 && ltb (clear_bit x k) 256) x k 0 is_byte_table,
)

pub clear_bit-le : (x k : ℕ) → x < 256 → k < 8 → clear_bit x k < 256
clear_bit-le x k lx lk = ground (
  arith,
  all_bits_sound (λ x k j. ltb (set_bit x k) 256 && ltb (clear_bit x k) 256) x k 0 is_byte_table,
)
