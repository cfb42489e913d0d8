-- ===== src/File/Refs.antt =====
-- file.c: reference counts, and the references that are held.
use test_ascii.Common.{
  ℕ, ◌+◌, ◌-◌, ◌^◌, ◌≡◌, ◌≢◌, ◌<◌, ◌⊎◌, inl, inr, refl, ap, ◌∙◌, arith, false, none, some, done,
  Bool-cases, Option-cases, ◌==◌, slt, sub32, u32,
}
use test_ascii.Common.Arrays.{update, find_from, find_from-some, find_from-none}
use test_ascii.File.{
  File, fd_none, fd_pipe, fd_inode, Ftable, nfile, filealloc, filealloc_found, filedup, fileclose,
  Release, nothing, pipeclose, iput, release_of,
}

-- A table, and how many references to each file are held: in descriptors and in calls.
pub data Step : Ftable → (ℕ → ℕ) → Ftable → (ℕ → ℕ) → Type 0 where
  opened :
      (t t' : Ftable) (held : ℕ → ℕ) (f : ℕ)
      → filealloc t ≡ (some f, t')
      → Step t held t' (update held f 1)
  duped :
      (t t' : Ftable) (held : ℕ → ℕ) (f : ℕ)
      → 0 < held f
      → held f + 1 < 2 ^ 31
      → filedup f t ≡ done t'
      → Step t held t' (update held f (held f + 1))
  closed :
      (t t' : Ftable) (held : ℕ → ℕ) (f : ℕ) (x : Release)
      → 0 < held f
      → fileclose f t ≡ done (x, t')
      → Step t held t' (update held f (held f - 1))
  -- The holder of a file sets its other fields.
  set_up :
      (t : Ftable) (held : ℕ → ℕ) (f : ℕ) (file : File)
      → file.ref ≡ (t f).ref
      → Step t held (update t f file) held

pub data Reach : Ftable → (ℕ → ℕ) → Type 0 where
  booted : (t : Ftable) → ((f : ℕ) → (t f).ref ≡ 0) → Reach t (λ _. 0)
  later :
      {t t' : Ftable} {held held' : ℕ → ℕ} → Reach t held → Step t held t' held' → Reach t' held'

pub record Counted (t : Ftable) (held : ℕ → ℕ) (f : ℕ) : Type 0 where
  pub count : (t f).ref ≡ held f
  pub small : held f < 2 ^ 31

-- What `filealloc` has done: it has found no free file, or the first one.
filealloc_cases :
    (t : Ftable)
    → ((filealloc t ≡ (none, t)) × ((f : ℕ) → f < nfile → (t f).ref ≢ 0))
      ⊎ ((f : ℕ) × (f < nfile)
          × ((t f).ref ≡ 0)
          × (filealloc t ≡ (some f, update t f (record (t f) { ref = 1 }))))
unfolding filealloc filealloc_found
filealloc_cases t = elim (Option-cases (find_from (λ f. (t f).ref == 0) nfile 0)) [
  | inl e ↦ inl (rw e, λ f h. ground (arith, find_from-none (λ f. (t f).ref == 0) nfile 0 e f))
  | inr (f, e) ↦
      let (lo, hi, free, first) = find_from-some (λ f. (t f).ref == 0) nfile 0 f e in
      inr (f, hi, ground arith, rw e)
]

-- `filedup` and `fileclose` by a holder.
filedup_held :
    (t : Ftable) (held : ℕ → ℕ) (f : ℕ)
    → 0 < held f
    → Counted t held f
    → filedup f t ≡ done (update t f (record (t f) { ref = u32 ((t f).ref + 1) }))
unfolding filedup
filedup_held t held f h c = rw (not_less)
  where
    not_less : slt (t f).ref 1 ≡ false
    not_less = ground (arith, c.count, c.small)

-- What a close of a file leaves: another reference, or a free slot and the pipe or inode let go.
pub data Closed (t t' : Ftable) (f : ℕ) (x : Release) (n : ℕ) : Type 0 where
  still_open :
      1 < n → x ≡ nothing → t' ≡ update t f (record (t f) { ref = n - 1 }) → Closed t t' f x n
  let_go :
      n ≡ 1
      → ((t f).kind ≡ fd_pipe → x ≡ pipeclose (t f).pipe (t f).writable)
      → ((t f).kind ≡ fd_inode → x ≡ iput (t f).ip)
      → ((t f).kind ≡ fd_none → x ≡ nothing)
      → t' ≡ update t f (record (t f) { ref = 0; kind = fd_none })
      → Closed t t' f x n

fileclose_held :
    (t : Ftable) (held : ℕ → ℕ) (f : ℕ)
    → 0 < held f
    → Counted t held f
    → (x : Release) × (t' : Ftable) × (fileclose f t ≡ done (x, t')) × Closed t t' f x (held f)
unfolding fileclose release_of
fileclose_held t held f h c = elim (Bool-cases (slt 0 (sub32 (t f).ref 1))) [
  | inl more ↦ (
    _,
    _,
    rw (not_less, more),
    still_open (ground (arith, c.count, c.small)) refl
        (ap (λ n. update t f (record (t f) { ref = n })) fewer),
  )
  | inr last ↦ (
    release_of (t f),
    update t f (record (t f) { ref = 0; kind = fd_none }),
    rw (not_less, last),
    let_go (ground (arith, c.count, c.small)) (λ e. rw e refl) (λ e. rw e refl) (λ e. rw e refl)
        refl,
  )
]
  where
    not_less : slt (t f).ref 1 ≡ false
    not_less = ground (arith, c.count, c.small)

    fewer : sub32 (t f).ref 1 ≡ held f - 1
    fewer = omega (arith, c.count, c.small)

step-Counted :
    {t t' : Ftable} {held held' : ℕ → ℕ}
    → Step t held t' held'
    → ((f : ℕ) → Counted t held f)
    → (f : ℕ) → Counted t' held' f
step-Counted (opened t t' held f e) c g = elim (filealloc_cases t) [
  | inl (h, full) ↦ absurd (cc)
  | inr (f', h, free, e') ↦
      let index : f' ≡ f = cc in
      let table : t' ≡ update t f' (record (t f') { ref = 1 }) = cc in
      rw (table, ← index)
        (record { count = ground (arith, (c g).count); small = ground (arith, (c g).small) })
]
step-Counted (duped t t' held f h small e) c g =
    let table : t' ≡ update t f (record (t f) { ref = u32 ((t f).ref + 1) }) =
      cc (filedup_held t held f h (c f)) in
    rw table (record {
      count = ground (arith, (c g).count, (c f).count);
      small = ground (arith, (c g).small);
    })
step-Counted (closed t t' held f x h e) c g =
    let (x', u, e', how) = fileclose_held t held f h (c f) in
    let table : t' ≡ u = cc in rw table (after how)
  where
    after :
        {u : Ftable} {x' : Release}
        → Closed t u f x' (held f)
        → Counted u (update held f (held f - 1)) g
    after (still_open more ex eu) =
        rw eu (record { count = ground (arith, (c g).count); small = ground (arith, (c g).small) })
    after (let_go one ep ei en eu) =
        rw eu (record { count = ground (arith, (c g).count); small = ground (arith, (c g).small) })
step-Counted (set_up t held f file e) c g = record {
  count = ground (arith, (c g).count);
  small = (c g).small;
}

pub Reach-Counted : {t : Ftable} {held : ℕ → ℕ} → Reach t held → (f : ℕ) → Counted t held f
Reach-Counted (booted t zero_refs) f = record { count = zero_refs f; small = omega arith }
Reach-Counted (later r step) f = step-Counted step (Reach-Counted r) f

-- However files were opened, duplicated and closed before: `filealloc` fails only if all 100
-- files are held, and otherwise gives a file that nobody holds.
pub filealloc_lem :
    {t : Ftable} {held : ℕ → ℕ}
    → Reach t held
    → ((filealloc t ≡ (none, t)) × ((f : ℕ) → f < nfile → held f ≢ 0))
      ⊎ ((f : ℕ) × (f < nfile)
          × (held f ≡ 0)
          × (filealloc t ≡ (some f, update t f (record (t f) { ref = 1 }))))
filealloc_lem {t} r = elim (filealloc_cases t) [
  | inl (e, full) ↦ inl (e, λ f h. ground (arith, full f h, (Reach-Counted r f).count))
  | inr (f, h, free, e) ↦ inr (f, h, ground (arith, (Reach-Counted r f).count), e)
]

-- A holder's `fileclose` does not panic. If it was the last reference, the slot is free again, and
-- of a pipe the file's end is closed, of an inode the inode is put, and of a file of no kind nothing
-- is let go; otherwise only the count is one less.
pub fileclose_lem :
    {t : Ftable} {held : ℕ → ℕ}
    → Reach t held
    → (f : ℕ) → 0 < held f
    → (x : Release) × (t' : Ftable) × (fileclose f t ≡ done (x, t')) × Closed t t' f x (held f)
fileclose_lem {t} {held} r f h = fileclose_held t held f h (Reach-Counted r f)

-- A holder's `filedup` does not panic, and adds one to the count while fewer than 2^31 - 1
-- references are held.
pub filedup_lem :
    {t : Ftable} {held : ℕ → ℕ}
    → Reach t held
    → (f : ℕ) → 0 < held f
    → held f + 1 < 2 ^ 31
    → filedup f t ≡ done (update t f (record (t f) { ref = held f + 1 }))
filedup_lem {t} {held} r f h small =
    filedup_held t held f h (Reach-Counted r f)
    ∙ ap (λ n. done (update t f (record (t f) { ref = n }))) one_more
  where
    one_more : u32 ((t f).ref + 1) ≡ held f + 1
    one_more = omega (arith, (Reach-Counted r f).count)
