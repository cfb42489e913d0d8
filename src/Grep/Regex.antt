-- ===== src/Grep/Regex.antt =====
-- grep.c: what a regular expression means, apart from the matcher.
use test_ascii.Common.{
  ℕ, ◌≡◌, ◌≢◌, ◌⊎◌, ◌↔◌, inl, inr, refl, ap, arith, Bool, true, false, Bool-cases, List, [], ◌∷◌,
  ◌++◌, ◌==◌,
}
use test_ascii.Grep.{
  star, dot, caret, dollar, matchstar, matchhere, match_from, match, fits_one, first_fits, is_empty,
}

-- A character of the expression that is not followed by a star, and is not a final `$`.
abbrev pub IsPlain : ℕ → List ℕ → Type 0
IsPlain c [] = c ≢ dollar
IsPlain c (d ∷ re) = d ≢ star

-- The expression matches a prefix of the text.
pub data Matches : List ℕ → List ℕ → Type 0 where
  ends : (text : List ℕ) → Matches [] text
  at_end : (c : ℕ) → c ≡ dollar → Matches (c ∷ []) []
  star_none : (c d : ℕ) (re text : List ℕ) → d ≡ star → Matches re text → Matches (c ∷ d ∷ re) text
  star_one :
      (c d x : ℕ) (re text : List ℕ)
      → d ≡ star
      → (c ≡ dot) ⊎ (c ≡ x)
      → Matches (c ∷ d ∷ re) text
      → Matches (c ∷ d ∷ re) (x ∷ text)
  one :
      (c x : ℕ) (re text : List ℕ)
      → IsPlain c re
      → (c ≡ dot) ⊎ (c ≡ x)
      → Matches re text
      → Matches (c ∷ re) (x ∷ text)

-- The expression does not start with `^`.
abbrev pub IsFree : List ℕ → Type 0
IsFree [] = Unit
IsFree (c ∷ re) = c ≢ caret

-- The expression is found in the text: at its beginning if it starts with `^`, else anywhere.
pub data Found : List ℕ → List ℕ → Type 0 where
  anchored : (c : ℕ) (re text : List ℕ) → c ≡ caret → Matches re text → Found (c ∷ re) text
  anywhere : (re before text : List ℕ) → IsFree re → Matches re text → Found re (before ++ text)

matchstar_sound :
    (c d : ℕ) (re : List ℕ)
    → d ≡ star
    → ((t : List ℕ) → matchhere re t ≡ true → Matches re t)
    → (text : List ℕ) → matchstar (λ t. matchhere re t) c text ≡ true
    → Matches (c ∷ d ∷ re) text
unfolding matchstar
matchstar_sound c d re e here [] m = star_none c d re [] e (here [] m)
matchstar_sound c d re e here (x ∷ text) m = elim (Bool-cases (matchhere re (x ∷ text))) [
  | inl h ↦ star_none c d re (x ∷ text) e (here (x ∷ text) h)
  | inr h ↦
      star_one c d x re text e (ground arith) (matchstar_sound c d re e here text (ground arith))
]

first_fits_sound :
    (next : List ℕ → Bool) (c : ℕ) (re : List ℕ)
    → IsPlain c re
    → ((t : List ℕ) → next t ≡ true → Matches re t)
    → (text : List ℕ) → first_fits next c text ≡ true
    → Matches (c ∷ re) text
unfolding first_fits
first_fits_sound next c re plain after [] m = absurd (ground arith)
first_fits_sound next c re plain after (x ∷ text) m =
    one c x re text plain (ground arith) (after text (ground arith))

final_sound : (c : ℕ) (text : List ℕ) → c ≡ dollar → is_empty text ≡ true → Matches (c ∷ []) text
final_sound c [] e h = at_end c e
final_sound c (x ∷ text) e h = absurd (ground arith)

matchhere_sound : (re text : List ℕ) → matchhere re text ≡ true → Matches re text
unfolding matchhere
matchhere_sound [] text m = ends text
matchhere_sound (c ∷ []) text m = elim (Bool-cases (c == dollar)) [
  | inl e ↦ final_sound c text (ground arith) (ground arith)
  | inr e ↦
      first_fits_sound (λ t. matchhere [] t) c [] (ground arith) (λ t _. ends t) text (rw e at m)
]
matchhere_sound (c ∷ d ∷ re) text m =
    let here = matchhere_sound re in
    let after = matchhere_sound (d ∷ re) in
    elim (Bool-cases (d == star)) [
      | inl e ↦ matchstar_sound c d re (ground arith) here text (rw e at m)
      | inr e ↦
          first_fits_sound (λ t. matchhere (d ∷ re) t) c (d ∷ re) (ground arith) after text
            (rw e at m)
    ]

matchstar_here :
    (here : List ℕ → Bool) (c : ℕ) (text : List ℕ) → here text ≡ true → matchstar here c text ≡ true
unfolding matchstar
matchstar_here here c [] h = h
matchstar_here here c (x ∷ text) h = rw h refl

matchstar_more :
    (here : List ℕ → Bool) (c x : ℕ) (text : List ℕ)
    → (c ≡ dot) ⊎ (c ≡ x)
    → matchstar here c text ≡ true
    → matchstar here c (x ∷ text) ≡ true
unfolding matchstar
matchstar_more here c x text fit h = elim (Bool-cases (here (x ∷ text))) [
  | inl e ↦ rw e refl
  | inr e ↦ rw (e, h) (ground arith)
]

fits_one_iff : (c x : ℕ) → (c ≡ dot) ⊎ (c ≡ x) → fits_one c x ≡ true
fits_one_iff c x h = ground arith

matchhere_complete : {re text : List ℕ} → Matches re text → matchhere re text ≡ true
unfolding matchhere first_fits
matchhere_complete (ends text) = refl
matchhere_complete (at_end c e) = rw (e) refl
matchhere_complete (star_none c d re text e m) =
    rw (e) (matchstar_here (λ t. matchhere re t) c text (matchhere_complete m))
matchhere_complete (star_one c d x re text e fit m) =
    let hit : (d == star) ≡ true = ground arith in
    rw (hit)
      (matchstar_more (λ t. matchhere re t) c x text fit (rw (hit) at (matchhere_complete m)))
matchhere_complete (one c x [] text plain fit m) =
    let no : (c == dollar) ≡ false = ground arith in rw (no, fits_one_iff c x fit) refl
matchhere_complete (one c x (d ∷ re) text plain fit m) =
    let no : (d == star) ≡ false = ground arith in
    rw (no, fits_one_iff c x fit) (matchhere_complete m)

-- `matchhere` says whether the expression matches at the beginning of the text.
pub matchhere_iff : (re text : List ℕ) → (matchhere re text ≡ true) ↔ Matches re text
matchhere_iff re text = (matchhere_sound re text, matchhere_complete)

match_from_sound :
    (re text : List ℕ)
    → match_from re text ≡ true
    → (before after : List ℕ) × (text ≡ before ++ after) × Matches re after
unfolding match_from
match_from_sound re [] m = ([], [], refl, matchhere_sound re [] m)
match_from_sound re (x ∷ text) m = elim (Bool-cases (matchhere re (x ∷ text))) [
  | inl e ↦ ([], x ∷ text, refl, matchhere_sound re (x ∷ text) e)
  | inr e ↦
      let (before, after, split, found) = match_from_sound re text (rw (e) at m) in
      (x ∷ before, after, ap (λ t. x ∷ t) split, found)
]

match_from_complete :
    (re before after : List ℕ) → Matches re after → match_from re (before ++ after) ≡ true
unfolding match_from
match_from_complete re [] [] m = matchhere_complete m
match_from_complete re [] (x ∷ after) m = rw (matchhere_complete m) refl
match_from_complete re (x ∷ before) after m =
    elim (Bool-cases (matchhere re (x ∷ (before ++ after)))) [
      | inl e ↦ rw (e) refl
      | inr e ↦ rw (e) (match_from_complete re before after m)
    ]

-- `match` returns 1 just if the expression is found in the text: at its beginning if it starts
-- with `^`, and otherwise anywhere; where `.` stands for any character, `c*` for any number of
-- them, and a final `$` for the end of the text.
pub match_iff : (re text : List ℕ) → (match re text ≡ true) ↔ Found re text
unfolding match
match_iff re text = (sound re, complete)
  where
    free_sound : (re : List ℕ) → IsFree re → match_from re text ≡ true → Found re text
    free_sound re free m =
        let (before, after, split, found) = match_from_sound re text m in
        rw (split) (anywhere re before after free found)

    sound : (re : List ℕ) → match re text ≡ true → Found re text
    sound [] m = free_sound [] tt m
    sound (c ∷ re) m = elim (Bool-cases (c == caret)) [
      | inl e ↦ anchored c re text (ground arith) (matchhere_sound re text (rw (e) at m))
      | inr e ↦ free_sound (c ∷ re) (ground arith) (rw (e) at m)
    ]

    complete : {re text : List ℕ} → Found re text → match re text ≡ true
    complete (anchored c re text e m) =
        let hit : (c == caret) ≡ true = ground arith in rw (hit) (matchhere_complete m)
    complete (anywhere [] before text free m) = match_from_complete [] before text m
    complete (anywhere (c ∷ re) before text free m) =
        let no : (c == caret) ≡ false = ground arith in
        rw (no) (match_from_complete (c ∷ re) before text m)
