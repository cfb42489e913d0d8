-- ===== src/Strings/Move.antt =====
-- string.c: `memmove`, beside a copy that reads all before it writes.
use test_ascii.Common.{
  ℕ, zero, suc, ◌+◌, ◌-◌, ◌≡◌, ◌≤◌, ◌⊎◌, inl, inr, ap₂, ◌∙◌, arith, ◌&&◌, ltb, leb, if◌then◌else◌,
  Bool-cases,
}
use native.Mathlib.Decide.{ℕ_discrete, dec_lt}
use test_ascii.Common.Arrays.{update}
use test_ascii.Strings.{Memory, move_up, move_down, memmove}

-- The copy of `n` bytes from `src` to `dst`, all read before any is written.
abbrev pub snapshot : ℕ → ℕ → ℕ → Memory → ℕ → ℕ
snapshot dst src n mem a = if leb dst a && ltb a (dst + n) then mem (src + (a - dst)) else mem a

move_up-snapshot :
    (d s n : ℕ) (mem : Memory)
    → (d ≤ s) ⊎ (s + n ≤ d)
    → (a : ℕ) → move_up d s n mem a ≡ snapshot d s n mem a
unfolding move_up
move_up-snapshot d s zero mem apart a = ground arith
move_up-snapshot d s (suc n) mem apart a =
    move_up-snapshot (d + 1) (s + 1) n (update mem d (mem s)) (ground arith) a ∙ elim (dec_lt d a) [
      | yes h ↦
          let shift : s + 1 + (a - (d + 1)) ≡ s + (a - d) = omega arith in rw (shift) (ground arith)
      | no h ↦ elim (ℕ_discrete d a) [
        | yes e ↦ let start : s + (a - d) ≡ s = omega arith in rw (start) (ground arith)
        | no ne ↦ ground arith
      ]
    ]

move_down-snapshot :
    (d s n : ℕ) (mem : Memory)
    → s ≤ d
    → (a : ℕ) → move_down (d + n) (s + n) n mem a ≡ snapshot d s n mem a
unfolding move_down
move_down-snapshot d s zero mem below a = ground arith
move_down-snapshot d s (suc n) mem below a =
    ap₂ (λ i j. move_down i j n (update mem i (mem j)) a) last_d last_s
    ∙ move_down-snapshot d s n (update mem (d + n) (mem (s + n))) below a
    ∙ elim (ℕ_discrete (d + n) a) [
      | yes e ↦ let at_end : s + (a - d) ≡ s + n = omega arith in rw (at_end) (ground arith)
      | no ne ↦ ground arith
    ]
  where
    last_d : d + suc n - 1 ≡ d + n
    last_d = omega arith

    last_s : s + suc n - 1 ≡ s + n
    last_s = omega arith

-- Whether or not the two places overlap, `memmove` leaves each byte of the destination with what
-- the matching byte of the source was before, and all other bytes as they were.
pub memmove_lem :
    (dst src n : ℕ) (mem : Memory) (a : ℕ) → memmove dst src n mem a ≡ snapshot dst src n mem a
unfolding memmove
memmove_lem dst src n mem a = elim (Bool-cases (ltb src dst && ltb dst (src + n))) [
  | inl over ↦ rw (over) (move_down-snapshot dst src n mem (ground arith) a)
  | inr apart ↦ rw (apart) (move_up-snapshot dst src n mem (ground arith) a)
]
