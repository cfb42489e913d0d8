-- ===== src/Fs/Words.antt =====
-- fs.c: the `uint` and `short` values that blocks hold, little end first.
use test_ascii.Common.{
  ℕ, ◌+◌, ◌*◌, ◌/◌, ◌%◌, ◌^◌, ◌≡◌, ◌≢◌, ◌<◌, ◌≤◌, ◌⊎◌, inl, inr, ap₂, ◌∙◌, refl, arith,
}
use test_ascii.Fs.{Disk, poke}
use test_ascii.Fs.Map.{AreBytes}

unfoldable pub read_half : Disk → ℕ → ℕ → ℕ
read_half d b i = d.blocks b i + 256 * d.blocks b (i + 1)

unfoldable pub read_word : Disk → ℕ → ℕ → ℕ
unfolding read_half
read_word d b i = read_half d b i + 2 ^ 16 * read_half d b (i + 2)

unfoldable pub write_half : ℕ → ℕ → ℕ → Disk → Disk
unfolding poke
write_half b i v d = poke b (i + 1) (v / 256 % 256) (poke b i (v % 256) d)

unfoldable pub write_word : ℕ → ℕ → ℕ → Disk → Disk
unfolding write_half
write_word b i v d = write_half b (i + 2) (v / 2 ^ 16) (write_half b i v d)

-- The writes between `i` and `i + n` of block `b`.
pub record Rewrites (b i n : ℕ) (d d' : Disk) : Type 0 where
  pub kept : (x j : ℕ) → (b ≢ x) ⊎ ((j < i) ⊎ (i + n ≤ j)) → d'.blocks x j ≡ d.blocks x j
  pub bytes : AreBytes d → AreBytes d'
  pub logged : (x : ℕ) → d'.logged x ≡ d.logged x

pub write_half-Rewrites : (b i v : ℕ) (d : Disk) → Rewrites b i 2 d (write_half b i v d)
unfolding write_half poke
write_half-Rewrites b i v d = record {
  kept = λ x j h. ground arith;
  bytes = λ h x j. ground (arith, h x j);
  logged = λ x. refl;
}

pub Rewrites-trans :
    (b i m n : ℕ) {d e f : Disk}
    → Rewrites b i m d e
    → Rewrites b (i + m) n e f
    → Rewrites b i (m + n) d f
Rewrites-trans b i m n p q = record {
  kept = λ x j h.
      q.kept x j (elim h [
        | inl ne ↦ inl ne
        | inr (inl lt) ↦ inr (inl (omega arith))
        | inr (inr le) ↦ inr (inr (omega arith))
      ])
      ∙ p.kept x j (elim h [
        | inl ne ↦ inl ne
        | inr (inl lt) ↦ inr (inl lt)
        | inr (inr le) ↦ inr (inr (omega arith))
      ]);
  bytes = λ h. q.bytes (p.bytes h);
  logged = λ x. q.logged x ∙ p.logged x;
}

pub write_word-Rewrites : (b i v : ℕ) (d : Disk) → Rewrites b i 4 d (write_word b i v d)
unfolding write_word
write_word-Rewrites b i v d =
    Rewrites-trans b i 2 2 (write_half-Rewrites b i v d)
      (write_half-Rewrites b (i + 2) (v / 2 ^ 16) (write_half b i v d))

pub read_half-write_half : (b i v : ℕ) (d : Disk) → read_half (write_half b i v d) b i ≡ v % 2 ^ 16
unfolding write_half poke read_half
read_half-write_half b i v d = ground arith

pub read_half-Rewrites :
    {b i n : ℕ} {d d' : Disk} (x j : ℕ)
    → Rewrites b i n d d'
    → (b ≢ x) ⊎ ((j + 1 < i) ⊎ (i + n ≤ j))
    → read_half d' x j ≡ read_half d x j
unfolding read_half
read_half-Rewrites x j p h =
    ap₂ (λ u v. u + 256 * v)
      (p.kept x j (elim h [
        | inl ne ↦ inl ne
        | inr (inl lt) ↦ inr (inl (omega arith))
        | inr (inr le) ↦ inr (inr le)
      ]))
      (p.kept x (j + 1) (elim h [
        | inl ne ↦ inl ne
        | inr (inl lt) ↦ inr (inl lt)
        | inr (inr le) ↦ inr (inr (omega arith))
      ]))

pub read_word-write_word :
    (b i v : ℕ) (d : Disk) → v < 2 ^ 32 → read_word (write_word b i v d) b i ≡ v
unfolding write_word read_word
read_word-write_word b i v d small =
    ap₂ (λ u w. u + 2 ^ 16 * w)
      (read_half-Rewrites b i (write_half-Rewrites b (i + 2) (v / 2 ^ 16) (write_half b i v d))
          (inr (inl (omega arith)))
        ∙ read_half-write_half b i v d)
      (read_half-write_half b (i + 2) (v / 2 ^ 16) (write_half b i v d))
    ∙ omega arith

pub read_word-same :
    (d d' : Disk) (x j : ℕ)
    → ((k : ℕ) → d'.blocks x k ≡ d.blocks x k)
    → read_word d' x j ≡ read_word d x j
unfolding read_word read_half
read_word-same d d' x j h =
    ap₂ (λ u v. u + 2 ^ 16 * v) (ap₂ (λ u v. u + 256 * v) (h j) (h (j + 1)))
      (ap₂ (λ u v. u + 256 * v) (h (j + 2)) (h (j + 2 + 1)))

pub read_word-Rewrites :
    {b i n : ℕ} {d d' : Disk} (x j : ℕ)
    → Rewrites b i n d d'
    → (b ≢ x) ⊎ ((j + 3 < i) ⊎ (i + n ≤ j))
    → read_word d' x j ≡ read_word d x j
unfolding read_word
read_word-Rewrites x j p h =
    ap₂ (λ u v. u + 2 ^ 16 * v)
      (read_half-Rewrites x j p (elim h [
        | inl ne ↦ inl ne
        | inr (inl lt) ↦ inr (inl (omega arith))
        | inr (inr le) ↦ inr (inr le)
      ]))
      (read_half-Rewrites x (j + 2) p (elim h [
        | inl ne ↦ inl ne
        | inr (inl lt) ↦ inr (inl (omega arith))
        | inr (inr le) ↦ inr (inr (omega arith))
      ]))
