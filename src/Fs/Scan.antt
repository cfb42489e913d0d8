-- ===== src/Fs/Scan.antt =====
-- fs.c: the two loops of `balloc` that look for a free block.
use test_ascii.Common.{
  ℕ, zero, suc, ◌+◌, ◌*◌, ◌/◌, ◌%◌, ◌≡◌, ◌≤◌, ◌<◌, inl, inr, refl, sym, ◌∙◌, arith, true, false,
  Option, none, some, ltb, Bool-cases, if_lem, ltb→le,
}
use native.Mathlib.Decide.{ℕ_discrete, dec_lt}
use test_ascii.Fs.{Superblock, Disk, bpb}
use test_ascii.Fs.Blocks.{map_bit, scan_bits, scan_next, scan_map}
use test_ascii.Fs.Map.{in_use}

module _ (sb : Superblock) where
  map_bit-in_use :
      (d : Disk) (b bi : ℕ) → b % bpb ≡ 0 → bi < bpb → map_bit sb d b bi ≡ in_use sb d (b + bi)
  unfolding map_bit in_use
  map_bit-in_use d b bi aligned below =
      let same_block : (b + bi) / bpb ≡ b / bpb = omega arith in
      let same_bit : (b + bi) % bpb ≡ bi = omega arith in rw (same_block, same_bit) refl

  abbrev Scanned : Disk → ℕ → ℕ → ℕ → Option ℕ → Type 0
  Scanned d b n bi none = (c : ℕ) → b + bi ≤ c → c < b + bi + n → c < sb.size → in_use sb d c ≡ true
  Scanned d b n bi (some k) =
      (bi ≤ k)
      × (k < bi + n)
      × (b + k < sb.size)
      × (in_use sb d (b + k) ≡ false)
      × ((c : ℕ) → b + bi ≤ c → c < b + k → in_use sb d c ≡ true)

  step-Scanned :
      (d : Disk) (b n bi : ℕ) (o : Option ℕ)
      → in_use sb d (b + bi) ≡ true
      → Scanned d b n (bi + 1) o
      → Scanned d b (suc n) bi o
  step-Scanned d b n bi none used rest = λ c lo hi below. elim (ℕ_discrete (b + bi) c) [
    | yes e ↦ rw (← e) used
    | no ne ↦ rest c (omega arith) (omega arith) below
  ]
  step-Scanned d b n bi (some k) used (lo, hi, inside, free, before) = (
    omega arith,
    omega arith,
    inside,
    free,
    λ c p q. elim (ℕ_discrete (b + bi) c) [
      | yes e ↦ rw (← e) used
      | no ne ↦ before c (omega arith) q
    ],
  )

  scan_bits-Scanned :
      (d : Disk) (b n bi : ℕ)
      → b % bpb ≡ 0
      → bi + n ≤ bpb
      → Scanned d b n bi (scan_bits sb d b n bi)
  unfolding scan_bits
  scan_bits-Scanned d b zero bi aligned fits = λ c lo hi below. absurd (omega arith)
  scan_bits-Scanned d b (suc n) bi aligned fits =
      let rest = scan_bits-Scanned d b n (bi + 1) aligned (omega arith) in
      let bit = map_bit-in_use d b bi aligned (omega arith) in
      elim (Bool-cases (ltb (b + bi) sb.size)) [
        | inr past ↦ rw (past) (λ c lo hi below. absurd (ground arith))
        | inl inside ↦ elim (Bool-cases (map_bit sb d b bi)) [
          | inl used ↦
              rw (inside, used)
                (step-Scanned d b n bi (scan_bits sb d b n (bi + 1)) (sym bit ∙ used) rest)
          | inr free ↦
              rw (inside, free)
                (
                  omega arith,
                  omega arith,
                  ground arith,
                  sym bit ∙ free,
                  λ c p q. absurd (omega arith),
                )
        ]
      ]

  -- The outer loop from `b` on.
  abbrev pub Searched : Disk → ℕ → Option (ℕ × ℕ) → Type 0
  Searched d b none = (c : ℕ) → b ≤ c → c < sb.size → in_use sb d c ≡ true
  Searched d b (some (a, bi)) =
      (a % bpb ≡ 0)
      × (bi < bpb)
      × (a + bi < sb.size)
      × (in_use sb d (a + bi) ≡ false)
      × ((c : ℕ) → b ≤ c → c < a + bi → in_use sb d c ≡ true)

  next-Searched :
      (d : Disk) (b : ℕ) (o : Option ℕ) (rest : Option (ℕ × ℕ))
      → b % bpb ≡ 0
      → Scanned d b bpb 0 o
      → Searched d (b + bpb) rest
      → Searched d b (scan_next sb b o rest)
  unfolding scan_next
  next-Searched d b none none aligned here rest =
      λ c lo below. either c lo below (dec_lt c (b + bpb))
    where
      either : (c : ℕ) → b ≤ c → c < sb.size → Dec (c < b + bpb) → in_use sb d c ≡ true
      either c lo below (yes h) = here c (omega arith) (omega arith) below
      either c lo below (no h) = rest c (omega arith) below
  next-Searched d b none (some (a, bi)) aligned here (a_aligned, inside, below, free, before) =
      (a_aligned, inside, below, free, λ c lo hi. either c lo hi (dec_lt c (b + bpb)))
    where
      either : (c : ℕ) → b ≤ c → c < a + bi → Dec (c < b + bpb) → in_use sb d c ≡ true
      either c lo hi (yes h) = here c (omega arith) (omega arith) (omega arith)
      either c lo hi (no h) = before c (omega arith) hi
  next-Searched d b (some k) rest aligned (lo, hi, inside, free, before) more =
      (aligned, omega arith, inside, free, λ c p q. before c (omega arith) q)

  pub scan_map-Searched :
      (d : Disk) (n b : ℕ) → b % bpb ≡ 0 → sb.size < b + n * bpb → Searched d b (scan_map sb d n b)
  unfolding scan_map
  scan_map-Searched d zero b aligned enough = λ c lo below. absurd (omega arith)
  scan_map-Searched d (suc n) b aligned enough =
      let rest = scan_map-Searched d n (b + bpb) (omega arith) (omega arith) in
      let here = scan_bits-Scanned d b bpb 0 aligned (omega arith) in
      if_lem (Searched d b) (ltb b sb.size)
        (λ inside.
          next-Searched d b (scan_bits sb d b bpb 0) (scan_map sb d n (b + bpb)) aligned here rest)
        (λ past c lo below. absurd (omega (arith, ltb→le b sb.size past)))
