-- ===== src/Fs/Names.antt =====
-- fs.c: `namecmp` and the test of an entry, as what they say of the bytes of the names.
use test_ascii.Common.{
  ℕ, ◌+◌, ◌-◌, ◌*◌, ◌≡◌, ◌≢◌, ◌<◌, sym, ◌∙◌, ap, arith, true, false, Bool, ◌&&◌, ◌==◌, ◌↔◌,
}
use test_ascii.Strings.Compare.{strncmp_iff}
use test_ascii.Fs.Dirs.{two_names, namecmp, is_entry}

-- The names agree in their 14 bytes, or as far as the NUL of the first.
abbrev pub SameName : (ℕ → ℕ) → (ℕ → ℕ) → Type 0
SameName s t = (i : ℕ) → i < 14 → ((j : ℕ) → j < i → s j ≢ 0) → s i ≡ t i

-- An entry is in use, and has the name.
abbrev pub HasName : (ℕ → ℕ) → (ℕ → ℕ) → Type 0
HasName name e = (e 0 + 256 * e 1 ≢ 0) × SameName name (λ i. e (i + 2))

pub first : (s t : ℕ → ℕ) (i : ℕ) → i < 14 → two_names s t (0 + i) ≡ s i
first s t i h = ground (arith, h, ap s (zero_plus i))
  where
    zero_plus : (i : ℕ) → 0 + i ≡ i
    zero_plus i = omega arith

pub second : (s t : ℕ → ℕ) (i : ℕ) → i < 14 → two_names s t (14 + i) ≡ t i
second s t i h = ground (arith, h, ap t (drop i))
  where
    drop : (i : ℕ) → 14 + i - 14 ≡ i
    drop i = omega arith

module _ (s t : ℕ → ℕ) (s_bytes : (i : ℕ) → s i < 256) (t_bytes : (i : ℕ) → t i < 256) where
  names-bytes : (a : ℕ) → two_names s t a < 256
  names-bytes a = ground (arith, s_bytes a, t_bytes (a - 14))

  -- On bytes, `namecmp` returns 0 just if the two names agree in their 14 characters, or as far as
  -- the NUL of the first.
  pub namecmp_iff : (namecmp s t ≡ 0) ↔ SameName s t
  unfolding namecmp
  namecmp_iff = (
    λ e i lt no_nul.
        sym (first s t i lt)
        ∙ (strncmp_iff (two_names s t) names-bytes 0 14 14).0 e i lt
            (λ j h z. no_nul j h (sym (first s t j (omega (arith, h, lt))) ∙ z))
        ∙ second s t i lt,
    λ same. (strncmp_iff (two_names s t) names-bytes 0 14 14).1 (λ i lt no_nul.
        first s t i lt
        ∙ same i lt (λ j h z. no_nul j h (first s t j (omega (arith, h, lt)) ∙ z))
        ∙ sym (second s t i lt)),
  )

and_zero : (b : Bool) (n : ℕ) → (b && n == 0) ≡ true → n ≡ 0
and_zero b n h = ground (arith, h)

module _ (name e : ℕ → ℕ) (name_bytes : (i : ℕ) → name i < 256) (bytes : (i : ℕ) → e i < 256) where
  pub is_entry-true : is_entry name e ≡ true → HasName name e
  unfolding is_entry
  is_entry-true h = (
    λ z. ground (arith, h, z),
    (namecmp_iff name (λ i. e (i + 2)) name_bytes (λ i. bytes (i + 2))).0 (and_zero _ _ h),
  )

  pub is_entry-false : is_entry name e ≡ false → ¬ HasName name e
  unfolding is_entry
  is_entry-false h (used, same) =
      let equal = (namecmp_iff name (λ i. e (i + 2)) name_bytes (λ i. bytes (i + 2))).1 same in
      ground (arith, h, used, equal)
