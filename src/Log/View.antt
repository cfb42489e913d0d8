-- ===== src/Log/View.antt =====
-- What a disk with a log on it means: the abstract view that recovery and commit are proved
-- against.
use test_ascii.Common.{
  ℕ, ◌+◌, ◌≤◌, ◌<◌, ◌≡◌, ◌≢◌, ◌⊎◌, inl, inr, Option, none, some, ◌==◌, arith, Option-cases,
}
use test_ascii.Common.Arrays.{find_from, find_from-some, find_from-none, find_from_hit}
use test_ascii.Log.{Log, Block}

-- The block that block `b` stands for once recovery has run: its copy in the log if the header
-- lists it, and else itself.
unfoldable pub logged : (ℕ → Block) → ℕ → Option ℕ → ℕ → Block
logged disk start none b = disk b
logged disk start (some i) b = disk (start + i + 1)

unfoldable pub entry : (ℕ → Block) → ℕ → ℕ → Option ℕ
unfolding find_from
entry disk start b = find_from (λ i. disk start (i + 1) == b) (disk start 0) 0

unfoldable pub view : (ℕ → Block) → ℕ → ℕ → Block
unfolding logged entry
view disk start b = logged disk start (entry disk start b) b

-- The log region of `size` blocks from `start` on.
abbrev pub InLog : Log → ℕ → Type 0
InLog l b = (l.start ≤ b) × (b < l.start + l.size)

-- A header in memory or on disk lists distinct blocks outside the log, and they fit.
pub record IsListed (start size n : ℕ) (block : ℕ → ℕ) : Type 0 where
  pub fits : n < size
  pub outside : (i : ℕ) → i < n → (block i < start) ⊎ (start + size ≤ block i)
  pub distinct : (i j : ℕ) → i < n → j < n → block i ≡ block j → i ≡ j

-- The header on disk is the list `n`, `block`.
pub record Heads (disk : ℕ → Block) (start n : ℕ) (block : ℕ → ℕ) : Type 0 where
  pub count : disk start 0 ≡ n
  pub entries : (i : ℕ) → i < n → disk start (i + 1) ≡ block i

module _ {disk : ℕ → Block} {start n : ℕ} {block : ℕ → ℕ} (h : Heads disk start n block) where
  -- A listed block stands for its copy.
  pub view_listed :
      (size i : ℕ)
      → IsListed start size n block
      → i < n
      → view disk start (block i) ≡ disk (start + i + 1)
  unfolding view entry logged
  view_listed size i ls p =
      let (k, e) =
        find_from_hit (λ j. disk start (j + 1) == block i) (disk start 0) 0 i (omega arith)
          (omega (arith, h.count)) (ground (arith, h.entries i)) in
      let (lo, hi, hit, first) =
        find_from-some (λ j. disk start (j + 1) == block i) (disk start 0) 0 k e in
      let same : k ≡ i =
        ls.distinct k i (omega (arith, h.count)) p (ground (arith, h.entries k, h.count)) in
      rw e (rw same)

  -- A block that is not listed stands for itself.
  pub view_unlisted : (b : ℕ) → ((i : ℕ) → i < n → block i ≢ b) → view disk start b ≡ disk b
  unfolding view entry logged
  view_unlisted b fresh = elim (Option-cases (entry disk start b)) [
    | inl e ↦ rw e
    | inr (k, e) ↦
        let (lo, hi, hit, first) =
          find_from-some (λ j. disk start (j + 1) == b) (disk start 0) 0 k e in
        absurd (fresh k (omega (arith, h.count)) (ground (arith, h.entries k, h.count)))
  ]

-- With an empty header every block stands for itself.
pub view_empty : (disk : ℕ → Block) (start b : ℕ) → disk start 0 ≡ 0 → view disk start b ≡ disk b
view_empty disk start b e =
    view_unlisted {block = λ _. 0} (record { count = e; entries = λ i p. absurd (omega arith) }) b
      (λ i p. absurd (omega arith))

-- Whether a block is listed.
pub listed_cases :
    (n : ℕ) (block : ℕ → ℕ) (b : ℕ)
    → ((i : ℕ) × (i < n) × (block i ≡ b)) ⊎ ((i : ℕ) → i < n → block i ≢ b)
listed_cases n block b = elim (Option-cases (find_from (λ i. block i == b) n 0)) [
  | inl e ↦ inr (λ i p.
      ground (arith, find_from-none (λ i. block i == b) n 0 e i (omega arith) (omega arith)))
  | inr (k, e) ↦
      let (lo, hi, hit, first) = find_from-some (λ i. block i == b) n 0 k e in
      inl (k, omega arith, ground arith)
]

pub empty-IsListed :
    (start size n : ℕ) (block : ℕ → ℕ) → n ≡ 0 → 0 < size → IsListed start size n block
empty-IsListed start size n block e pos = record {
  fits = omega arith;
  outside = λ i p. absurd (omega arith);
  distinct = λ i j p q f. absurd (omega arith);
}

-- The header on disk lists what the list in memory does.
pub Heads-IsListed :
    {disk : ℕ → Block} {start n : ℕ} {block : ℕ → ℕ} (size : ℕ)
    → Heads disk start n block
    → IsListed start size n block
    → IsListed start size (disk start 0) (λ i. disk start (i + 1))
Heads-IsListed size h ls = record {
  fits = omega (arith, h.count, ls.fits);
  outside = λ i p. ground (arith, h.entries i, h.count, ls.outside i);
  distinct = λ i j p q e. ground (arith, h.entries i, h.entries j, h.count, ls.distinct i j);
}
