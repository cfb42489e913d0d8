-- ===== src/Strings/Compare.antt =====
-- string.c: `strncmp`.
use test_ascii.Common.{
  ℕ, zero, suc, ◌+◌, ◌≡◌, ◌≢◌, ◌<◌, ◌↔◌, inl, inr, refl, sym, ap, ◌∙◌, arith, not, ◌&&◌, ◌==◌,
  Bool-cases,
}
use test_ascii.Strings.{Memory, strncmp}

-- The characters at two places agree, `n` of them or up to a NUL at the first place.
abbrev pub AgreeAsStrings : Memory → ℕ → ℕ → ℕ → Type 0
AgreeAsStrings mem p q n =
    (i : ℕ) → i < n → ((j : ℕ) → j < i → mem (p + j) ≢ 0) → mem (p + i) ≡ mem (q + i)

AgreeAsStrings-suc :
    (mem : Memory) (p q n : ℕ)
    → mem p ≡ mem q
    → (mem p ≢ 0 → AgreeAsStrings mem (p + 1) (q + 1) n)
    → AgreeAsStrings mem p q (suc n)
AgreeAsStrings-suc mem p q n e rest zero h no_nul = ap mem start_p ∙ e ∙ sym (ap mem start_q)
  where
    start_p : p + 0 ≡ p
    start_p = omega arith

    start_q : q + 0 ≡ q
    start_q = omega arith
AgreeAsStrings-suc mem p q n e rest (suc i) h no_nul =
    ap mem (next p)
    ∙ rest first i (omega arith) (λ j b z. no_nul (suc j) (omega arith) (ap mem (next_of p j) ∙ z))
    ∙ sym (ap mem (next q))
  where
    next : (a : ℕ) → a + suc i ≡ a + 1 + i
    next a = omega arith

    next_of : (a j : ℕ) → a + suc j ≡ a + 1 + j
    next_of a j = omega arith

    start_p : p ≡ p + 0
    start_p = omega arith

    first : mem p ≢ 0
    first z = no_nul 0 (omega arith) (sym (ap mem start_p) ∙ z)

AgreeAsStrings-head : (mem : Memory) (p q n : ℕ) → AgreeAsStrings mem p q (suc n) → mem p ≡ mem q
AgreeAsStrings-head mem p q n all =
    ap mem (start p) ∙ all 0 (omega arith) (λ j h. absurd (omega arith)) ∙ sym (ap mem (start q))
  where
    start : (a : ℕ) → a ≡ a + 0
    start a = omega arith

AgreeAsStrings-tail :
    (mem : Memory) (p q n : ℕ)
    → mem p ≢ 0
    → AgreeAsStrings mem p q (suc n)
    → AgreeAsStrings mem (p + 1) (q + 1) n
AgreeAsStrings-tail mem p q n nz all i h no_nul =
    ap mem (shift p) ∙ all (suc i) (omega arith) before ∙ sym (ap mem (shift q))
  where
    shift : (a : ℕ) → a + 1 + i ≡ a + suc i
    shift a = omega arith

    at_start : p + 0 ≡ p
    at_start = omega arith

    before : (j : ℕ) → j < suc i → mem (p + j) ≢ 0
    before zero b z = nz (sym (ap mem at_start) ∙ z)
    before (suc j) b z = no_nul j (omega arith) (ap mem (back j) ∙ z)
      where
        back : (j : ℕ) → p + 1 + j ≡ p + suc j
        back j = omega arith

module _ (mem : Memory) (bytes : (a : ℕ) → mem a < 256) where
  strncmp_sound : (p q n : ℕ) → strncmp p q n mem ≡ 0 → AgreeAsStrings mem p q n
  unfolding strncmp
  strncmp_sound p q zero e = λ i h. absurd (omega arith)
  strncmp_sound p q (suc n) e =
      let rest = strncmp_sound (p + 1) (q + 1) n in
      elim (Bool-cases (not (mem p == 0) && mem p == mem q)) [
        | inl goes_on ↦ AgreeAsStrings-suc mem p q n (ground arith) (λ _. rest (rw (goes_on) at e))
        | inr ends ↦
            let same : mem p ≡ mem q = grind (arith, bytes p, bytes q) in
            AgreeAsStrings-suc mem p q n same (λ nz. absurd (ground arith))
      ]

  strncmp_complete : (p q n : ℕ) → AgreeAsStrings mem p q n → strncmp p q n mem ≡ 0
  unfolding strncmp
  strncmp_complete p q zero all = refl
  strncmp_complete p q (suc n) all =
      let rest = strncmp_complete (p + 1) (q + 1) n in
      let same = AgreeAsStrings-head mem p q n all in
      elim (Bool-cases (not (mem p == 0) && mem p == mem q)) [
        | inl goes_on ↦ rw (goes_on) (rest (AgreeAsStrings-tail mem p q n (ground arith) all))
        | inr ends ↦ rw (ends) (omega (arith, same, bytes p, bytes q))
      ]

  -- On bytes, `strncmp` returns 0 just if the two strings agree in their first `n` characters, or
  -- up to the NUL of the first.
  pub strncmp_iff : (p q n : ℕ) → (strncmp p q n mem ≡ 0) ↔ AgreeAsStrings mem p q n
  strncmp_iff p q n = (strncmp_sound p q n, strncmp_complete p q n)
