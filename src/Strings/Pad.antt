-- ===== src/Strings/Pad.antt =====
-- string.c: `strncpy`.
use test_ascii.Common.{
  ℕ, zero, suc, ◌+◌, ◌≡◌, ◌≢◌, ◌<◌, ◌≤◌, refl, sym, ap, ◌∙◌, arith, ◌==◌, if_lem,
}
use test_ascii.Common.Arrays.{update}
use test_ascii.Strings.{Memory, strncpy, pad}

pad-below : (n s a : ℕ) (mem : Memory) → a < s → pad s n mem a ≡ mem a
unfolding pad
pad-below zero s a mem lt = refl
pad-below (suc n) s a mem lt = pad-below n (s + 1) a (update mem s 0) (omega arith) ∙ ground arith

-- Bytes before the destination are as before.
pub strncpy-below : (n s t a : ℕ) (mem : Memory) → a < s → strncpy s t n mem a ≡ mem a
unfolding strncpy
strncpy-below zero s t a mem lt = refl
strncpy-below (suc n) s t a mem lt =
    if_lem (λ (m : Memory). m a ≡ mem a) (mem t == 0)
      (λ _. pad-below n (s + 1) a (update mem s (mem t)) (omega arith) ∙ ground arith)
      (λ _. strncpy-below n (s + 1) (t + 1) a (update mem s (mem t)) (omega arith) ∙ ground arith)

-- Each byte up to a NUL is copied, `n` of them at most, to a place after the string.
pub strncpy_lem :
    (n s t i : ℕ) (mem : Memory)
    → t + n ≤ s
    → i < n
    → ((j : ℕ) → j < i → mem (t + j) ≢ 0)
    → strncpy s t n mem (s + i) ≡ mem (t + i)
unfolding strncpy
strncpy_lem zero s t i mem apart lt no_nul = absurd (omega arith)
strncpy_lem (suc n) s t zero mem apart lt no_nul =
    ap (strncpy s t (suc n) mem) (start s)
    ∙ if_lem (λ (m : Memory). m s ≡ mem t) (mem t == 0)
        (λ _. pad-below n (s + 1) s (update mem s (mem t)) (omega arith) ∙ ground arith)
        (λ _. strncpy-below n (s + 1) (t + 1) s (update mem s (mem t)) (omega arith) ∙ ground arith)
    ∙ sym (ap mem (start t))
  where
    start : (a : ℕ) → a + 0 ≡ a
    start a = omega arith
strncpy_lem (suc n) s t (suc i) mem apart lt no_nul =
    if_lem (λ (m : Memory). m (s + suc i) ≡ mem (t + suc i)) (mem t == 0)
      (λ nul. absurd (no_nul 0 (omega arith) (ap mem (start t) ∙ ground (arith, nul))))
      (λ _.
        ap (strncpy (s + 1) (t + 1) n copied) (next i s)
        ∙ strncpy_lem n (s + 1) (t + 1) i copied (omega arith) (omega arith) (λ j h z.
          no_nul (suc j) (omega arith)
            (ap mem (next j t) ∙ sym (kept (t + 1 + j) (omega arith)) ∙ z))
        ∙ kept (t + 1 + i) (omega arith)
        ∙ sym (ap mem (next i t)))
  where
    start : (a : ℕ) → a + 0 ≡ a
    start a = omega arith

    next : (i a : ℕ) → a + suc i ≡ a + 1 + i
    next i a = omega arith

    copied : Memory
    copied = update mem s (mem t)

    kept : (a : ℕ) → a < s → copied a ≡ mem a
    kept a h = ground arith

pad-bytes : (n s : ℕ) (mem : Memory) → ((a : ℕ) → mem a < 256) → (a : ℕ) → pad s n mem a < 256
unfolding pad
pad-bytes zero s mem h a = h a
pad-bytes (suc n) s mem h a = pad-bytes n (s + 1) (update mem s 0) (λ a. ground (arith, h a)) a

pub strncpy-bytes :
    (n s t : ℕ) (mem : Memory) → ((a : ℕ) → mem a < 256) → (a : ℕ) → strncpy s t n mem a < 256
unfolding strncpy
strncpy-bytes zero s t mem h a = h a
strncpy-bytes (suc n) s t mem h a =
    if_lem (λ (m : Memory). m a < 256) (mem t == 0)
      (λ _. pad-bytes n (s + 1) (update mem s (mem t)) copied a)
      (λ _. strncpy-bytes n (s + 1) (t + 1) (update mem s (mem t)) copied a)
  where
    copied : (a : ℕ) → update mem s (mem t) a < 256
    copied a = ground (arith, h a, h t)
