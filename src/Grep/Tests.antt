-- ===== src/Grep/Tests.antt =====
-- Concrete runs of the matcher of grep.c.
use test_ascii.Common.{ℕ, ◌≡◌, ◌↔◌, refl, true, false, List, [], ◌∷◌}
use test_ascii.Grep.{match, match_from, matchhere, matchstar, first_fits}
use test_ascii.Grep.Regex.{Found, match_iff}

-- `^a*b$`
abbrev pattern_ : List ℕ
pattern_ = b'^' ∷ b'a' ∷ b'*' ∷ b'b' ∷ b'$' ∷ []

match_iff_example :
    (match pattern_ (b'a' ∷ b'a' ∷ b'b' ∷ []) ≡ true) ↔ Found pattern_ (b'a' ∷ b'a' ∷ b'b' ∷ [])
match_iff_example = match_iff pattern_ (b'a' ∷ b'a' ∷ b'b' ∷ [])

match_aab : match pattern_ (b'a' ∷ b'a' ∷ b'b' ∷ []) ≡ true
unfolding match match_from matchhere matchstar first_fits
match_aab = refl

match_aba : match pattern_ (b'a' ∷ b'b' ∷ b'a' ∷ []) ≡ false
unfolding match match_from matchhere matchstar first_fits
match_aba = refl
