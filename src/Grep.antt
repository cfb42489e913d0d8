-- ===== src/Grep.antt =====
-- grep.c: the regular expression matcher. Strings are the lists of their characters before the
-- NUL.
pub mod Regex
mod Tests
use test_ascii.Common.{ℕ, Bool, true, false, ◌&&◌, ◌||◌, List, [], ◌∷◌, ◌==◌, if◌then◌else◌}

-- The characters that the matcher treats apart.
abbrev pub star : ℕ
star = 42

abbrev pub dot : ℕ
dot = 46

abbrev pub caret : ℕ
caret = 94

abbrev pub dollar : ℕ
dollar = 36

-- `matchstar`, where `here` is `matchhere` of the expression after the star.
unfoldable pub matchstar : (List ℕ → Bool) → ℕ → List ℕ → Bool
matchstar here c [] = here []
matchstar here c (x ∷ text) =
    let rest = matchstar here c text in
    if here (x ∷ text) then true else if x == c || c == dot then rest else false

-- `re[0] == '.' || re[0] == *text`
abbrev pub fits_one : ℕ → ℕ → Bool
fits_one c x = c == dot || c == x

abbrev pub is_empty : List ℕ → Bool
is_empty [] = true
is_empty (_ ∷ _) = false

-- The last test of `matchhere`, and its call for the rest of the expression, `next`.
unfoldable pub first_fits : (List ℕ → Bool) → ℕ → List ℕ → Bool
first_fits next c [] = false
first_fits next c (x ∷ text) = let rest = next text in if fits_one c x then rest else false

unfoldable pub matchhere : List ℕ → List ℕ → Bool
unfolding matchstar first_fits
matchhere [] text = true
matchhere (c ∷ []) text =
    if c == dollar then is_empty text else first_fits (λ t. matchhere [] t) c text
matchhere (c ∷ d ∷ re) text =
    if d == star
    then matchstar (λ t. matchhere re t) c text
    else first_fits (λ t. matchhere (d ∷ re) t) c text

-- The loop of `match`.
unfoldable pub match_from : List ℕ → List ℕ → Bool
match_from re [] = matchhere re []
match_from re (x ∷ text) =
    let rest = match_from re text in if matchhere re (x ∷ text) then true else rest

unfoldable pub match : List ℕ → List ℕ → Bool
unfolding match_from
match [] text = match_from [] text
match (c ∷ re) text = if c == caret then matchhere re text else match_from (c ∷ re) text
