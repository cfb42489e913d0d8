-- ===== src/Fs/Elements.antt =====
-- fs.c: `skipelem` and `namex` on the elements of a path.
use test_ascii.Common.{
  ℕ, zero, suc, ◌≡◌, ◌<◌, ◌≤◌, inl, inr, refl, sym, ◌∙◌, ap, subst, arith, true, false, Option,
  none, some, List, [], ◌∷◌, length, get_elem?, ◌==◌, if◌then◌else◌, if_lem, Bool-cases,
}
use test_ascii.Fs.Paths.{
  slash, skip_slashes, scan_element, char_at, copy_element, skip_first, skipelem,
}

-- The path, cut at each slash.
cons_first : ℕ → List (List ℕ) → List (List ℕ)
cons_first c [] = (c ∷ []) ∷ []
cons_first c (w ∷ ws) = (c ∷ w) ∷ ws

abbrev pub split : List ℕ → List (List ℕ)
unfolding cons_first
split [] = [] ∷ []
split (c ∷ path) = let rest = split path in if c == slash then [] ∷ rest else cons_first c rest

abbrev pub without_empty : List (List ℕ) → List (List ℕ)
without_empty [] = []
without_empty ([] ∷ ws) = without_empty ws
without_empty ((c ∷ w) ∷ ws) = (c ∷ w) ∷ without_empty ws

-- The names between the slashes.
unfoldable pub elements : List ℕ → List (List ℕ)
unfolding split
elements path = without_empty (split path)

elements-skip_slashes : (path : List ℕ) → elements (skip_slashes path) ≡ elements path
unfolding elements split skip_slashes
elements-skip_slashes [] = refl
elements-skip_slashes (c ∷ path) = elim (Bool-cases (c == slash)) [
  | inl e ↦ rw e (elements-skip_slashes path)
  | inr e ↦ rw e (rw e refl)
]

-- The cuts after the element that `scan_element` passes.
cuts : List ℕ → List (List ℕ)
unfolding split
cuts [] = []
cuts (c ∷ rest) = split rest

split-scan_element :
    (path : List ℕ) → split path ≡ (scan_element path).0 ∷ cuts (scan_element path).1
unfolding split scan_element cuts cons_first
split-scan_element [] = refl
split-scan_element (c ∷ path) = elim (Bool-cases (c == slash)) [
  | inl e ↦ rw e refl
  | inr e ↦ rw e (ap (cons_first c) (split-scan_element path))
]

-- A rest that is empty or starts with a slash.
abbrev StartsSlash : List ℕ → Type 0
StartsSlash [] = Unit
StartsSlash (c ∷ rest) = (c == slash) ≡ true

StartsSlash-scan_element : (path : List ℕ) → StartsSlash (scan_element path).1
unfolding scan_element
StartsSlash-scan_element [] = tt
StartsSlash-scan_element (c ∷ path) =
    if_lem (λ (p : List ℕ × List ℕ). StartsSlash p.1) (c == slash) (λ e. e)
      (λ _. StartsSlash-scan_element path)

elements-rest : (rest : List ℕ) → StartsSlash rest → without_empty (cuts rest) ≡ elements rest
unfolding elements split cuts
elements-rest [] h = refl
elements-rest (c ∷ rest) h = rw h refl

length-scan_element : (path : List ℕ) → length (scan_element path).1 ≤ length path
unfolding scan_element
length-scan_element [] = omega arith
length-scan_element (c ∷ path) =
    if_lem (λ (p : List ℕ × List ℕ). length p.1 ≤ suc (length path)) (c == slash) (λ _. omega arith)
      (λ _. omega (arith, length-scan_element path))

length-skip_slashes : (path : List ℕ) → length (skip_slashes path) ≤ length path
unfolding skip_slashes
length-skip_slashes [] = omega arith
length-skip_slashes (c ∷ path) =
    if_lem (λ p. length p ≤ suc (length path)) (c == slash) {x = skip_slashes path} {y = c ∷ path}
      (λ _. omega (arith, length-skip_slashes path)) (λ _. omega arith)

-- A path that is empty or starts with a name.
abbrev pub StartsName : List ℕ → Type 0
StartsName [] = Unit
StartsName (c ∷ rest) = (c == slash) ≡ false

StartsName-skip_slashes : (path : List ℕ) → StartsName (skip_slashes path)
unfolding skip_slashes
StartsName-skip_slashes [] = tt
StartsName-skip_slashes (c ∷ path) =
    if_lem StartsName (c == slash) (λ _. StartsName-skip_slashes path) (λ e. e)

-- The array `name'` holds the element `e`, over what `name` was: its characters as far as the 14
-- bytes go, a NUL if it is shorter than that, and everywhere else what was there.
pub record IsNamed (e : List ℕ) (name name' : ℕ → ℕ) : Type 0 where
  pub chars : (i c : ℕ) → i < 14 → get_elem? e i ≡ some c → name' i ≡ c
  pub nul : length e < 14 → name' (length e) ≡ 0
  pub inside : (i : ℕ) → 14 ≤ i → name' i ≡ name i
  pub past : (i : ℕ) → length e < i → name' i ≡ name i

get_elem?-char_at :
    (e : List ℕ) (i c : ℕ) → get_elem? e i ≡ some c → (i < length e) × (char_at e i ≡ c)
get_elem?-char_at [] i c h = absurd (ground (arith, h))
get_elem?-char_at (x ∷ e) zero c h = (omega arith, ground (arith, h))
get_elem?-char_at (x ∷ e) (suc i) c h =
    let (lt, same) = get_elem?-char_at e i c h in (omega (arith, lt), same)

copy_element-IsNamed : (e : List ℕ) (name : ℕ → ℕ) → IsNamed e name (copy_element e name)
unfolding copy_element
copy_element-IsNamed e name = record {
  chars = λ i c lt h.
      let (inside, same) = get_elem?-char_at e i c h in ground (arith, inside, same, lt);
  nul = λ short. ground (arith, short);
  inside = λ i h. ground (arith, h);
  past = λ i h. ground (arith, h);
}

-- What `skipelem` comes to: there is no element, or the first one is copied.
abbrev pub Skipped : List ℕ → (ℕ → ℕ) → Option (List ℕ × (ℕ → ℕ)) → Type 0
Skipped path name none = elements path ≡ []
Skipped path name (some (rest, name')) =
    (e : List ℕ) × (elements path ≡ e ∷ elements rest)
    × IsNamed e name name'
    × StartsName rest
    × (length rest < length path)

-- The first name, of a path that starts with one.
pub elements-name :
    (c : ℕ) (path : List ℕ)
    → (c == slash) ≡ false
    → elements (c ∷ path)
      ≡ (c ∷ (scan_element path).0) ∷ elements (skip_slashes (scan_element path).1)
unfolding elements split cons_first
elements-name c path h =
    ap (λ b. without_empty (if b then [] ∷ split path else cons_first c (split path))) h
    ∙ ap (λ ws. without_empty (cons_first c ws)) (split-scan_element path)
    ∙ ap (λ ws. (c ∷ (scan_element path).0) ∷ ws)
        (elements-rest (scan_element path).1 (StartsSlash-scan_element path)
          ∙ sym (elements-skip_slashes (scan_element path).1))

skip_first-Skipped :
    (path : List ℕ) (name : ℕ → ℕ) → StartsName path → Skipped path name (skip_first path name)
unfolding skip_first elements split scan_element cons_first
skip_first-Skipped [] name h = refl
skip_first-Skipped (c ∷ path) name h =
    let s = (scan_element path).0 in
    let rest = (scan_element path).1 in
    subst
      (λ (p : List ℕ × List ℕ).
        Skipped (c ∷ path) name (some (skip_slashes p.1, copy_element p.0 name)))
      (sym (ap (λ b. if◌then◌else◌ {A = List ℕ × List ℕ} b ([], c ∷ path) (c ∷ s, rest)) h))
      (
        c ∷ s,
        elements-name c path h,
        copy_element-IsNamed (c ∷ s) name,
        StartsName-skip_slashes rest,
        omega (arith, length-skip_slashes rest, length-scan_element path),
      )

-- `skipelem` returns 0 just if the path has no element. Otherwise the name holds the first one: its
-- first 14 characters, a NUL after them if there are fewer, and elsewhere what it held before; and
-- it returns a shorter path with the other elements and no slash in front.
pub skipelem_lem : (path : List ℕ) (name : ℕ → ℕ) → Skipped path name (skipelem path name)
unfolding skipelem
skipelem_lem path name =
    Skipped-skip (skip_first (skip_slashes path) name)
      (skip_first-Skipped (skip_slashes path) name (StartsName-skip_slashes path))
  where
    Skipped-skip :
        (o : Option (List ℕ × (ℕ → ℕ))) → Skipped (skip_slashes path) name o → Skipped path name o
    Skipped-skip none e = sym (elements-skip_slashes path) ∙ e
    Skipped-skip (some (rest, name')) (e, first, copied, starts, short) = (
      e,
      sym (elements-skip_slashes path) ∙ first,
      copied,
      starts,
      omega (arith, short, length-skip_slashes path),
    )
