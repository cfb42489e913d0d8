-- ===== src/Common/Arrays.antt =====
-- C arrays that are scanned by index, as functions: update at one index, and search.
use Prim.Native.Nat.{ℕ, zero, suc, ◌+◌, ◌≤◌, ◌<◌}
use mathlib.Core.Path.{◌≡◌, ap}
use mathlib.Core.Logic.{◌≢◌, inl, inr}
use mathlib.Core.Bool.{Bool, true, false}
use mathlib.Core.Option.{Option, none, some}
use native.Mathlib.Decide.{ℕ_discrete}
use native.Mathlib.Omega.{arith}
use test_ascii.Common.Tests.{◌==◌, ==_refl, ==_false, if◌then◌else◌, Bool-cases, Option-cases}

-- `f[i] = v`.
abbrev pub update {ℓ} : {A : Type ℓ} → (ℕ → A) → ℕ → A → ℕ → A
update f i v j = if i == j then v else f j

pub update-same {ℓ} : {A : Type ℓ} (f : ℕ → A) (i : ℕ) (v : A) → update f i v i ≡ v
update-same f i v = ap (λ b. if b then v else f i) (==_refl i)

pub update-other {ℓ} :
    {A : Type ℓ} (f : ℕ → A) (i : ℕ) (v : A) (j : ℕ) → i ≢ j → update f i v j ≡ f j
update-other f i v j ne = ap (λ b. if b then v else f j) (==_false i j ne)

-- `for(k = i; k < i + n; k++) if(test(k)) return k;`
unfoldable pub find_from : (ℕ → Bool) → ℕ → ℕ → Option ℕ
find_from test zero i = none
find_from test (suc n) i = let rest = find_from test n (i + 1) in if test i then some i else rest

-- What a search returns is in the range, passes the test, and is the first that does.
pub find_from-some :
    (test : ℕ → Bool) (n i k : ℕ)
    → find_from test n i ≡ some k
    → (i ≤ k) × (k < i + n) × (test k ≡ true) × ((j : ℕ) → i ≤ j → j < k → test j ≡ false)
unfolding find_from
find_from-some test zero i k h = absurd (cc)
find_from-some test (suc n) i k h = elim (Bool-cases (test i)) [
  | inl hit ↦ ground arith
  | inr miss ↦
      let (lo, hi, good, first) = find_from-some test n (i + 1) k (ground arith) in
      (omega arith, omega arith, good, λ j p q. earlier miss first j p q)
]
  where
    earlier :
        test i ≡ false
        → ((j : ℕ) → i + 1 ≤ j → j < k → test j ≡ false)
        → (j : ℕ) → i ≤ j
        → j < k
        → test j ≡ false
    earlier miss first j p q = elim (ℕ_discrete i j) [
      | yes e ↦ rw (← e) miss
      | no ne ↦ first j (omega arith) q
    ]

-- A search that fails has seen no hit in its range.
pub find_from-none :
    (test : ℕ → Bool) (n i : ℕ)
    → find_from test n i ≡ none
    → (j : ℕ) → i ≤ j
    → j < i + n
    → test j ≡ false
unfolding find_from
find_from-none test zero i h j p q = absurd (omega arith)
find_from-none test (suc n) i h j p q = elim (Bool-cases (test i)) [
  | inl hit ↦ absurd (ground arith)
  | inr miss ↦ elim (ℕ_discrete i j) [
    | yes e ↦ rw (← e) miss
    | no ne ↦ find_from-none test n (i + 1) (ground arith) j (omega arith) (omega arith)
  ]
]

-- A search succeeds where there is a hit.
pub find_from_hit :
    (test : ℕ → Bool) (n i j : ℕ)
    → i ≤ j
    → j < i + n
    → test j ≡ true
    → (k : ℕ) × (find_from test n i ≡ some k)
find_from_hit test n i j p q hit = elim (Option-cases (find_from test n i)) [
  | inl e ↦ absurd (cc (find_from-none test n i e j p q))
  | inr found ↦ found
]
