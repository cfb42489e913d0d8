-- ===== src/Fs/Paths.antt =====
-- fs.c: path names. A path is the list of its characters, without the NUL.
use test_ascii.Common.{
  ℕ, zero, suc, ◌+◌, Bool, true, false, not, ◌&&◌, Option, none, some, List, [], ◌∷◌, length, ltb,
  leb, ◌==◌, if◌then◌else◌, Outcome, done, panic, ◌>>=◌,
}
use test_ascii.Fs.{Superblock}
use test_ascii.Fs.Io.{Devsw, t_dir}
use test_ascii.Fs.Icache.{Icache, iget, idup, ilock, iunlock, iput, iunlockput}
use test_ascii.Fs.Dirs.{dirsiz, dirlookup}

abbrev pub slash : ℕ
slash = 47

-- `while(*path == '/') path++;`
unfoldable pub skip_slashes : List ℕ → List ℕ
skip_slashes [] = []
skip_slashes (c ∷ path) = let rest = skip_slashes path in if c == slash then rest else c ∷ path

-- `while(*path != '/' && *path != 0) path++;`: the characters passed, and the rest.
unfoldable pub scan_element : List ℕ → List ℕ × List ℕ
scan_element [] = ([], [])
scan_element (c ∷ path) =
    let (s, rest) = scan_element path in if c == slash then ([], c ∷ path) else (c ∷ s, rest)

abbrev pub char_at : List ℕ → ℕ → ℕ
char_at [] i = 0
char_at (c ∷ s) zero = c
char_at (c ∷ s) (suc i) = char_at s i

-- The copy of the element `s` to `name`.
unfoldable pub copy_element : List ℕ → (ℕ → ℕ) → ℕ → ℕ
copy_element s name i =
    if leb dirsiz (length s)
    then (if ltb i dirsiz then char_at s i else name i)
    else (if ltb i (length s) then char_at s i else (if i == length s then 0 else name i))

unfoldable pub skip_first : List ℕ → (ℕ → ℕ) → Option (List ℕ × (ℕ → ℕ))
unfolding scan_element copy_element skip_slashes
skip_first [] name = none
skip_first (c ∷ path) name =
    let (s, rest) = scan_element (c ∷ path) in some (skip_slashes rest, copy_element s name)

unfoldable pub skipelem : List ℕ → (ℕ → ℕ) → Option (List ℕ × (ℕ → ℕ))
unfolding skip_slashes skip_first
skipelem path name = skip_first (skip_slashes path) name

-- fs.h, param.h
abbrev pub rootino : ℕ
rootino = 1

abbrev pub rootdev : ℕ
rootdev = 1

-- What `namex` returns: the inode, if there is one, and the name.
abbrev pub Named : Type 0
Named = Option ℕ × ((ℕ → ℕ) × Icache)

-- `*path == '\0'`
abbrev pub is_empty {ℓ} : {A : Type ℓ} → List A → Bool
is_empty [] = true
is_empty (x ∷ xs) = false

-- `if(next == 0) return 0; ip = next;`
unfoldable pub namex_next :
    Option (ℕ × ℕ) → (ℕ → ℕ) → Icache → (ℕ → Icache → Outcome Named) → Outcome Named
namex_next none name s next = done (none, (name, s))
namex_next (some (off, i)) name s next = next i s

module _ (sb : Superblock) (devsw : Devsw) (de : ℕ → ℕ) (parent : Bool) where
  -- The body of `namex`'s loop, for an element in `name`, the last one or not; `next` is the rest.
  unfoldable pub namex_step :
      ℕ → (ℕ → ℕ) → Bool → Icache → (ℕ → Icache → Outcome Named) → Outcome Named
  unfolding ilock iunlock iunlockput dirlookup namex_next
  namex_step ip name is_last s next = ilock sb (some ip) s >>= λ s₁.
      if not ((s₁.inodes ip).type == t_dir)
      then (iunlockput sb ip s₁ >>= λ s₂. done (none, (name, s₂)))
      else (if parent && is_last
          then (iunlock (some ip) s₁ >>= λ s₂. done (some ip, (name, s₂)))
          else (dirlookup sb devsw ip name de s₁ >>= λ (found, s₂).
              iunlockput sb ip s₂ >>= λ s₃. namex_next found name s₃ next))

  -- The end of `namex`, when there is no element left.
  unfoldable pub namex_end : ℕ → (ℕ → ℕ) → Icache → Outcome Named
  unfolding iput
  namex_end ip name s =
      if parent then (iput sb ip s >>= λ s'. done (none, (name, s'))) else done (some ip, (name, s))

  -- The loop of `namex`, of at most `fuel` passes.
  unfoldable pub namex_loop : ℕ → List ℕ → (ℕ → ℕ) → ℕ → Icache → Outcome Named
  unfolding skipelem namex_step namex_end
  namex_loop zero path name ip s = panic
  namex_loop (suc fuel) path name ip s = elim (skipelem path name) [
    | none ↦ namex_end ip name s
    | some (rest, name') ↦
        namex_step ip name' (is_empty rest) s (λ i s'. namex_loop fuel rest name' i s')
  ]

  -- `iget(ROOTDEV, ROOTINO)` or `idup(myproc()->cwd)`
  unfoldable pub namex_start : List ℕ → ℕ → Icache → Outcome (ℕ × Icache)
  unfolding iget idup
  namex_start [] cwd s = done (idup cwd s)
  namex_start (c ∷ path) cwd s = if c == slash then iget rootdev rootino s else done (idup cwd s)

  unfoldable pub namex : List ℕ → (ℕ → ℕ) → ℕ → Icache → Outcome Named
  unfolding namex_start namex_loop
  namex path name cwd s =
      namex_start path cwd s >>= λ (ip, s'). namex_loop (length path + 1) path name ip s'

unfoldable pub namei : Superblock → Devsw → (ℕ → ℕ) → List ℕ → (ℕ → ℕ) → ℕ → Icache → Outcome Named
unfolding namex
namei sb devsw de path name cwd s = namex sb devsw de false path name cwd s

unfoldable pub nameiparent :
    Superblock → Devsw → (ℕ → ℕ) → List ℕ → (ℕ → ℕ) → ℕ → Icache → Outcome Named
unfolding namex
nameiparent sb devsw de path name cwd s = namex sb devsw de true path name cwd s
