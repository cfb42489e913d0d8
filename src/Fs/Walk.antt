-- ===== src/Fs/Walk.antt =====
-- fs.c: `namex` as a walk along the elements of a path.
use test_ascii.Common.{
  ℕ, zero, suc, ◌+◌, ◌≡◌, ◌≢◌, ◌<◌, inl, inr, refl, sym, ◌∙◌, ap, ap₂, subst, arith, Bool, true,
  false, not, ◌&&◌, Option, none, some, List, [], ◌∷◌, length, get_elem?, get_or, ltb, ◌==◌,
  if◌then◌else◌, Bool-cases, Outcome, done, panic, ◌>>=◌, fun_ext,
}
use native.Mathlib.Decide.{ℕ_discrete, dec_lt}
use test_ascii.Fs.{Superblock}
use test_ascii.Fs.Io.{Devsw, t_dir}
use test_ascii.Fs.Icache.{Icache, iget, idup, ilock, iunlock, iput, iunlockput}
use test_ascii.Fs.Dirs.{dirlookup}
use test_ascii.Fs.Paths.{
  slash, skipelem, is_empty, Named, namex_next, namex_step, namex_end, namex_loop, namex_start,
  namex,
}
use test_ascii.Fs.Elements.{elements, elements-name, StartsName, IsNamed, Skipped, skipelem_lem}

is_empty-elements : (path : List ℕ) → StartsName path → is_empty path ≡ is_empty (elements path)
unfolding elements
is_empty-elements [] h = refl
is_empty-elements (c ∷ path) h = sym (ap is_empty (elements-name c path h))

-- The array `name` with the element `e` put in its first 14 bytes.
abbrev pub put_name : List ℕ → (ℕ → ℕ) → ℕ → ℕ
put_name e name i =
    if ltb i 14 && ltb i (length e)
    then get_or e i 0
    else (if ltb i 14 && i == length e then 0 else name i)

get_elem?-get_or : (e : List ℕ) (i : ℕ) → i < length e → get_elem? e i ≡ some (get_or e i 0)
get_elem?-get_or [] i h = elim h [ ]
get_elem?-get_or (x ∷ e) zero h = refl
get_elem?-get_or (x ∷ e) (suc i) h = get_elem?-get_or e i (omega (arith, h))

IsNamed-put_name :
    (e : List ℕ) (name name' : ℕ → ℕ) → IsNamed e name name' → name' ≡ put_name e name
IsNamed-put_name e name name' n = fun_ext (λ i. place i)
  where
    at_end : (i : ℕ) → i ≡ length e → i < 14 → name' i ≡ 0
    at_end i same lt = ap name' same ∙ n.nul (omega (arith, same, lt))

    place : (i : ℕ) → name' i ≡ put_name e name i
    place i = elim (dec_lt i 14) [
      | no out ↦ n.inside i (omega (arith, out)) ∙ ground (arith, out)
      | yes lt ↦ elim (dec_lt i (length e)) [
        | yes char ↦
            n.chars i (get_or e i 0) lt (get_elem?-get_or e i char) ∙ ground (arith, lt, char)
        | no ge ↦ elim (ℕ_discrete i (length e)) [
          | yes same ↦ at_end i same lt ∙ ground (arith, lt, same)
          | no ne ↦ n.past i (omega (arith, ge, ne)) ∙ ground (arith, lt, ge, ne)
        ]
      ]
    ]

-- Calls in a row.
>>=-assoc :
    {A B C : Type 0} (o : Outcome A) (f : A → Outcome B) (g : B → Outcome C)
    → (o >>= λ a. f a >>= g) ≡ (o >>= f) >>= g
>>=-assoc (done a) f g = refl
>>=-assoc panic f g = refl

>>=-ext :
    {A B : Type 0} (o : Outcome A) (f g : A → Outcome B)
    → ((a : A) → f a ≡ g a)
    → (o >>= f) ≡ (o >>= g)
>>=-ext o f g same = ap (λ h. o >>= h) (fun_ext same)

module _ (sb : Superblock) (devsw : Devsw) (de : ℕ → ℕ) where
  -- One step down: what the directory `ip` has under a name, none if it is no directory or has no
  -- such entry. The reference to `ip` is given back.
  unfoldable pub enter : ℕ → (ℕ → ℕ) → Icache → Outcome (Option ℕ × Icache)
  enter ip name s = ilock sb (some ip) s >>= λ s₁.
      if (s₁.inodes ip).type == t_dir
      then (dirlookup sb devsw ip name de s₁ >>= λ (found, s₂). iunlockput sb ip s₂ >>= λ s₃.
          done (elim found [ none ↦ none | some (off, i) ↦ some i ], s₃))
      else (iunlockput sb ip s₁ >>= λ s₂. done (none, s₂))

  -- The parent of the last name: `ip` itself, if it is a directory.
  unfoldable pub stay : ℕ → Icache → Outcome (Option ℕ × Icache)
  stay ip s = ilock sb (some ip) s >>= λ s₁.
      if (s₁.inodes ip).type == t_dir
      then (iunlock (some ip) s₁ >>= λ s₂. done (some ip, s₂))
      else (iunlockput sb ip s₁ >>= λ s₂. done (none, s₂))

  abbrev go_on : (ℕ → ℕ) → (ℕ → Icache → Outcome Named) → Option ℕ × Icache → Outcome Named
  go_on name next (none, s) = done (none, (name, s))
  go_on name next (some i, s) = next i s

  abbrev with_name : (ℕ → ℕ) → Option ℕ × Icache → Outcome Named
  with_name name (o, s) = done (o, (name, s))

  -- The walk along a list of names, to the last one, or to the directory that holds the last one.
  -- Without a name it is the start itself, which has no holder to give.
  unfoldable pub walk : Bool → List (List ℕ) → (ℕ → ℕ) → ℕ → Icache → Outcome Named
  walk false [] name ip s = done (some ip, (name, s))
  walk false (e ∷ es) name ip s =
      enter ip (put_name e name) s
      >>= go_on (put_name e name) (λ i s'. walk false es (put_name e name) i s')
  walk true [] name ip s = iput sb ip s >>= λ s'. done (none, (name, s'))
  walk true (e ∷ []) name ip s = stay ip s >>= with_name (put_name e name)
  walk true (e ∷ e₁ ∷ es) name ip s =
      enter ip (put_name e name) s
      >>= go_on (put_name e name) (λ i s'. walk true (e₁ ∷ es) (put_name e name) i s')

  found-go_on :
      (o : Option (ℕ × ℕ)) (name : ℕ → ℕ) (s : Icache) (next : ℕ → Icache → Outcome Named)
      → namex_next o name s next
        ≡ go_on name next (elim o [ none ↦ none | some (off, i) ↦ some i ], s)
  unfolding namex_next
  found-go_on none name s next = refl
  found-go_on (some (off, i)) name s next = refl

  -- The body of the loop once the inode is locked, a directory or not.
  enter_locked :
      (dir last : Bool) (ip : ℕ) (name : ℕ → ℕ) (next : ℕ → Icache → Outcome Named)
      (given_back : Outcome Icache) (kept : Outcome Named)
      (looked : Outcome (Option (ℕ × ℕ) × Icache))
      → last ≡ false
      → (if not dir
          then (given_back >>= λ s₂. done (none, (name, s₂)))
          else (if last
              then kept
              else (looked >>= λ (found, s₂).
                  iunlockput sb ip s₂ >>= λ s₃. namex_next found name s₃ next)))
        ≡ ((if dir
              then (looked >>= λ (found, s₂). iunlockput sb ip s₂ >>= λ s₃.
                  done (elim found [ none ↦ none | some (off, i) ↦ some i ], s₃))
              else (given_back >>= λ s₂. done (none, s₂)))
            >>= go_on name next)
  enter_locked true last ip name next given_back kept looked goes = rw goes (
      >>=-ext looked _ _ (λ (found, s₂).
        >>=-ext (iunlockput sb ip s₂) _ _ (λ s₃. found-go_on found name s₃ next)
        ∙ >>=-assoc (iunlockput sb ip s₂) _ (go_on name next))
      ∙ >>=-assoc looked _ (go_on name next))
  enter_locked false last ip name next given_back kept looked goes =
      >>=-assoc given_back _ (go_on name next)

  -- A step of the loop that is not the last of a search for the parent enters the next directory.
  namex_step-enter :
      (parent is_last : Bool) (ip : ℕ) (name : ℕ → ℕ) (s : Icache)
      (next : ℕ → Icache → Outcome Named)
      → (parent && is_last) ≡ false
      → namex_step sb devsw de parent ip name is_last s next ≡ (enter ip name s >>= go_on name next)
  unfolding namex_step enter
  namex_step-enter parent is_last ip name s next goes =
      >>=-ext (ilock sb (some ip) s) _ _ (λ s₁.
        enter_locked ((s₁.inodes ip).type == t_dir) (parent && is_last) ip name next
          (iunlockput sb ip s₁) (iunlock (some ip) s₁ >>= λ s₂. done (some ip, (name, s₂)))
          (dirlookup sb devsw ip name de s₁) goes)
      ∙ >>=-assoc (ilock sb (some ip) s) _ (go_on name next)

  stay_locked :
      (dir : Bool) (ip : ℕ) (name : ℕ → ℕ) (given_back kept : Outcome Icache)
      (looked : Outcome Named)
      → (if not dir
          then (given_back >>= λ s₂. done (none, (name, s₂)))
          else (if true && true then (kept >>= λ s₂. done (some ip, (name, s₂))) else looked))
        ≡ ((if dir
              then (kept >>= λ s₂. done (some ip, s₂))
              else (given_back >>= λ s₂. done (none, s₂)))
            >>= with_name name)
  stay_locked true ip name given_back kept looked = >>=-assoc kept _ (with_name name)
  stay_locked false ip name given_back kept looked = >>=-assoc given_back _ (with_name name)

  -- The last step of a search for the parent stays.
  namex_step-stay :
      (ip : ℕ) (name : ℕ → ℕ) (s : Icache) (next : ℕ → Icache → Outcome Named)
      → namex_step sb devsw de true ip name true s next ≡ (stay ip s >>= with_name name)
  unfolding namex_step stay
  namex_step-stay ip name s next =
      >>=-ext (ilock sb (some ip) s) _ _ (λ s₁.
        stay_locked ((s₁.inodes ip).type == t_dir) ip name (iunlockput sb ip s₁)
          (iunlock (some ip) s₁)
          (dirlookup sb devsw ip name de s₁ >>= λ (found, s₂).
            iunlockput sb ip s₂ >>= λ s₃. namex_next found name s₃ next))
      ∙ >>=-assoc (ilock sb (some ip) s) _ (with_name name)

  -- A pass of the loop with the rest walked is the walk.
  namex_step-walk :
      (parent : Bool) (e : List ℕ) (es : List (List ℕ)) (name : ℕ → ℕ) (ip : ℕ) (s : Icache)
      → namex_step sb devsw de parent ip
          (put_name e name)
          (is_empty es)
          s
          (λ i s'. walk parent es (put_name e name) i s')
        ≡ walk parent (e ∷ es) name ip s
  unfolding walk
  namex_step-walk false e es name ip s =
      namex_step-enter false (is_empty es) ip (put_name e name) s _ refl
  namex_step-walk true e [] name ip s = namex_step-stay ip (put_name e name) s _
  namex_step-walk true e (e₁ ∷ es) name ip s =
      namex_step-enter true false ip (put_name e name) s _ refl

  namex_end-walk :
      (parent : Bool) (name : ℕ → ℕ) (ip : ℕ) (s : Icache)
      → namex_end sb devsw de parent ip name s ≡ walk parent [] name ip s
  unfolding namex_end walk
  namex_end-walk true name ip s = refl
  namex_end-walk false name ip s = refl

module _ (sb : Superblock) (devsw : Devsw) (de : ℕ → ℕ) (parent : Bool) where
  namex_loop-walk :
      (fuel : ℕ) (path : List ℕ) (name : ℕ → ℕ) (ip : ℕ) (s : Icache)
      → length path < fuel
      → namex_loop sb devsw de parent fuel path name ip s
        ≡ walk sb devsw de parent (elements path) name ip s
  unfolding namex_loop
  namex_loop-walk zero path name ip s enough = absurd (omega (arith, enough))
  namex_loop-walk (suc fuel) path name ip s enough =
      by_skip (skipelem path name) (skipelem_lem path name) (λ rest name' i s' short.
        namex_loop-walk fuel rest name' i s' (omega (arith, short, enough)))
    where
      by_skip :
          (o : Option (List ℕ × (ℕ → ℕ)))
          → Skipped path name o
          → ((rest : List ℕ) (name' : ℕ → ℕ) (i : ℕ) (s' : Icache)
              → length rest < length path
              → namex_loop sb devsw de parent fuel rest name' i s'
                ≡ walk sb devsw de parent (elements rest) name' i s')
          → elim o [
            | none ↦ namex_end sb devsw de parent ip name s
            | some (rest, name') ↦
                namex_step sb devsw de parent ip name'
                  (is_empty rest)
                  s
                  (λ i s'. namex_loop sb devsw de parent fuel rest name' i s')
          ]
            ≡ walk sb devsw de parent (elements path) name ip s
      by_skip none e ih =
          namex_end-walk sb devsw de parent name ip s
          ∙ ap (λ es. walk sb devsw de parent es name ip s) (sym e)
      by_skip (some (rest, name')) (e, first, named, starts, short) ih =
          ap₂ (λ b (f : ℕ → Icache → Outcome Named). namex_step sb devsw de parent ip name' b s f)
            (is_empty-elements rest starts)
            (fun_ext (λ i. fun_ext (λ s'. ih rest name' i s' short)))
          ∙ ap
              (λ (n : ℕ → ℕ).
                namex_step sb devsw de parent ip n (is_empty (elements rest)) s
                  (λ i s'. walk sb devsw de parent (elements rest) n i s'))
              (IsNamed-put_name e name name' named)
          ∙ namex_step-walk sb devsw de parent e (elements rest) name ip s
          ∙ ap (λ es. walk sb devsw de parent es name ip s) (sym first)

  -- The start of a walk: inode 1 of device 1 for a path that starts with a slash, and otherwise the
  -- current directory with one more reference.
  abbrev pub Walks : List ℕ → (ℕ → ℕ) → ℕ → Icache → Outcome Named → Type 0
  Walks path name cwd s o =
      ((rest : List ℕ)
        → path ≡ 47 ∷ rest
        → o ≡ (iget 1 1 s >>= λ (ip, s'). walk sb devsw de parent (elements path) name ip s'))
      × (((rest : List ℕ) → path ≢ 47 ∷ rest)
          → o ≡ walk sb devsw de parent (elements path) name (idup cwd s).0 (idup cwd s).1)

  namex_start-Walks :
      (path : List ℕ) (name : ℕ → ℕ) (cwd : ℕ) (s : Icache)
      → Walks path name cwd s (
          namex_start sb devsw de parent path cwd s >>= λ (ip, s').
          walk sb devsw de parent (elements path) name ip s')
  unfolding namex_start
  namex_start-Walks [] name cwd s = (λ rest e. absurd (ground (arith, e)), λ _. refl)
  namex_start-Walks (c ∷ path) name cwd s = elim (Bool-cases (c == slash)) [
    | inl root ↦ rw root (λ rest e. refl, λ other. absurd (other path (ground (arith, root))))
    | inr relative ↦ rw relative (λ rest e. absurd (ground (arith, e, relative)), λ _. refl)
  ]

  -- `namex` walks along the names between the path's slashes: from inode 1 of device 1 if the path
  -- starts with a slash, and otherwise from the current directory, with one more reference. Each
  -- step locks the directory, looks the name up and gives the directory back; it ends without an
  -- inode at what is no directory or has no such entry. `nameiparent` stops at the directory that
  -- holds the last name, which it unlocks and keeps, and gives the start back if there is no name.
  -- The fuel is enough for any path.
  pub namex-walk :
      (path : List ℕ) (name : ℕ → ℕ) (cwd : ℕ) (s : Icache)
      → Walks path name cwd s (namex sb devsw de parent path name cwd s)
  unfolding namex
  namex-walk path name cwd s =
      subst (Walks path name cwd s)
        (sym (
          >>=-ext (namex_start sb devsw de parent path cwd s) _ _
            (λ (ip, s'). namex_loop-walk (length path + 1) path name ip s' (omega arith))))
        (namex_start-Walks path name cwd s)
