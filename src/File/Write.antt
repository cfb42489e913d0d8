-- ===== src/File/Write.antt =====
-- file.c: `filewrite` on an inode, over what it relies on of fs.c and log.c.
use test_ascii.Common.{
  ℕ, zero, suc, ◌+◌, ◌-◌, ◌*◌, ◌%◌, ◌^◌, ◌≡◌, ◌<◌, ◌≤◌, ◌⊎◌, inl, inr, refl, ap, ap₂, subst, sym,
  ◌∙◌, arith, Bool, true, false, not, Outcome, done, panic, ◌>>=◌, Bool-cases, ==_refl, slt, u32,
  ltb, leb, ◌&&◌, fun_ext, if◌then◌else◌, minus_one,
}
use native.Mathlib.Decide.{dec_le}
use test_ascii.File.{
  File, FileType, fd_none, fd_pipe, fd_inode, Callees, max_write, move_offset, write_chunk,
  after_chunk, piece, write_from, write_result, filewrite,
}

-- A call panics only for the reason `Bad`, and what it returns is as `P` says.
abbrev pub Meets : {A : Type 0} → Type 0 → (A → Type 0) → Outcome A → Type 0
Meets Bad P panic = Bad
Meets Bad P (done a) = P a

pub Meets->>= :
    {A B : Type 0} (Bad : Type 0) (P : A → Type 0) (Q : B → Type 0) (o : Outcome A)
    (f : A → Outcome B)
    → Meets Bad P o
    → ((a : A) → P a → Meets Bad Q (f a))
    → Meets Bad Q (o >>= f)
Meets->>= Bad P Q panic f h k = h
Meets->>= Bad P Q (done a) f h k = k a h

-- The size of a file of `z` bytes after a write that ends at `e`.
abbrev pub grown : ℕ → ℕ → ℕ
grown z e = if ltb z e then e else z

-- The bytes `c`, with `m` bytes of `buf` from place `i` written over them from `off` on.
abbrev pub patched : (ℕ → ℕ) → (ℕ → ℕ) → ℕ → ℕ → ℕ → ℕ → ℕ
patched buf c i off m o = if leb off o && ltb o (off + m) then buf (i + (o - off)) else c o

-- MAXFILE * BSIZE
abbrev pub max_size : ℕ
max_size = 140 * 512

-- What `filewrite` relies on for the inode `ip` and the bytes `buf` to write: while the inode is
-- unlocked or locked by the caller, it is a file of some size and bytes, which the log's calls and
-- the lock do not change; `writei` from inside the file writes all it is asked to if the end is
-- within the greatest size, and otherwise returns -1 and changes nothing. A call may panic, for the
-- reason `Bad`.
pub record FileCalls (v : Callees) (ip : ℕ) (buf : ℕ → ℕ) : Type 1 where
  pub Bad : Type 0
  pub Idle : ℕ → (ℕ → ℕ) → Callees.Sys v → Type 0
  pub Locked : ℕ → (ℕ → ℕ) → Callees.Sys v → Type 0
  pub begin_op :
      (z : ℕ) (c : ℕ → ℕ) (s : Callees.Sys v)
      → Idle z c s
      → Meets Bad (Idle z c) (Callees.begin_op v s)
  pub end_op :
      (z : ℕ) (c : ℕ → ℕ) (s : Callees.Sys v)
      → Idle z c s
      → Meets Bad (Idle z c) (Callees.end_op v s)
  pub ilock :
      (z : ℕ) (c : ℕ → ℕ) (s : Callees.Sys v)
      → Idle z c s
      → Meets Bad (Locked z c) (Callees.ilock v ip s)
  pub iunlock :
      (z : ℕ) (c : ℕ → ℕ) (s : Callees.Sys v)
      → Locked z c s
      → Meets Bad (Idle z c) (Callees.iunlock v ip s)
  pub writei_inside :
      (z : ℕ) (c : ℕ → ℕ) (i off m : ℕ) (s : Callees.Sys v)
      → Locked z c s
      → off ≤ z
      → off + m ≤ max_size
      → Meets Bad
          (λ (r, s'). (r ≡ m) × Locked (grown z (off + m)) (patched buf c i off m) s')
          (Callees.writei v ip i off m s)
  pub writei_beyond :
      (z : ℕ) (c : ℕ → ℕ) (i off m : ℕ) (s : Callees.Sys v)
      → Locked z c s
      → off ≤ z
      → off ≤ max_size
      → m ≤ max_write
      → max_size < off + m
      → Meets Bad (λ (r, s'). (r ≡ minus_one) × Locked z c s') (Callees.writei v ip i off m s)

module _ (v : Callees) (f : File) (buf c : ℕ → ℕ) (calls : FileCalls v f.ip buf) (z n : ℕ)
    (inside : f.off ≤ z) (fits : z ≤ max_size) (small : n < 2 ^ 31) where
  open v use {Sys}
  open calls use {Bad, Idle, Locked}

  -- The file with its offset moved by `i`, over a file that has grown as far as that.
  abbrev at_place : ℕ → File
  at_place i = record f { off = f.off + i }

  -- The bytes of the file once `i` of the bytes are written.
  abbrev after : ℕ → ℕ → ℕ
  after i = patched buf c 0 f.off i

  abbrev Moved : ℕ → File → Sys → Type 0
  Moved i f' s' = (f' ≡ at_place i) × Idle (grown z (f.off + i)) (after i) s'

  -- What a pass of `m` bytes at place `i` comes to.
  abbrev Chunk : ℕ → ℕ → ℕ × File × Sys → Type 0
  Chunk i m (r, f', s') =
      ((r ≡ m) × (f.off + i + m ≤ max_size) × Moved (i + m) f' s')
      ⊎ ((r ≡ minus_one) × (max_size < f.off + i + m) × Moved i f' s')

  move_offset-whole :
      (i m r : ℕ)
      → r ≡ m
      → 0 < m
      → m ≤ max_write
      → f.off + i + m ≤ max_size
      → move_offset v r (at_place i) ≡ at_place (i + m)
  unfolding move_offset
  move_offset-whole i m r e pos le room =
      ap (λ r. if slt 0 r then record f { off = u32 (f.off + i + r) } else at_place i) e
      ∙ ap (λ b. if b then record f { off = u32 (f.off + i + m) } else at_place i) moves
      ∙ ap (λ o. record f { off = o }) exact
    where
      moves : slt 0 m ≡ true
      moves = ground arith

      exact : u32 (f.off + i + m) ≡ f.off + (i + m)
      exact = omega arith

  move_offset-refused : (i r : ℕ) → r ≡ minus_one → move_offset v r (at_place i) ≡ at_place i
  unfolding move_offset
  move_offset-refused i r e =
      ap (λ r. if slt 0 r then record f { off = u32 (f.off + i + r) } else at_place i) e

  -- The calls after `writei`.
  as_file : {z z' : ℕ} {c c' : ℕ → ℕ} → z ≡ z' → c ≡ c' → (s : Sys) → Idle z c s → Idle z' c' s
  as_file {z' = z'} {c = c} e e' s h = subst (λ c. Idle z' c s) e' (subst (λ z. Idle z c s) e h)

  unlock_and_end :
      (i m r : ℕ) (s : Sys) (z' : ℕ) (c' : ℕ → ℕ)
      → Locked z' c' s
      → ((f' : File) (s' : Sys)
          → f' ≡ move_offset v r (at_place i)
          → Idle z' c' s'
          → Chunk i m (r, f', s'))
      → Meets Bad (Chunk i m) (
          Callees.iunlock v f.ip s >>= λ s₄.
          Callees.end_op v s₄ >>= λ s₅. done (r, move_offset v r (at_place i), s₅))
  unlock_and_end i m r s z' c' locked ends =
      Meets->>= Bad (Idle z' c') (Chunk i m) (Callees.iunlock v f.ip s) _
        (calls.iunlock z' c' s locked)
        λ s₄ h.
          Meets->>= Bad (Idle z' c') (Chunk i m) (Callees.end_op v s₄) _ (calls.end_op z' c' s₄ h)
            λ s₅ h'. ends _ s₅ refl h'

  grown_twice : (i m : ℕ) → grown (grown z (f.off + i)) (f.off + i + m) ≡ grown z (f.off + (i + m))
  grown_twice i m = ground arith

  after_twice : (i m : ℕ) → patched buf (after i) i (f.off + i) m ≡ after (i + m)
  after_twice i m = fun_ext (λ o. at o)
    where
      shift : (o : ℕ) → f.off + i ≤ o → i + (o - (f.off + i)) ≡ 0 + (o - f.off)
      shift o h = omega (arith, h)

      at : (o : ℕ) → patched buf (after i) i (f.off + i) m o ≡ after (i + m) o
      at o = elim (dec_le (f.off + i) o) [
        | yes late ↦ elim (dec_le (f.off + i + m) o) [
          | yes past ↦ ground (arith, late, past)
          | no within ↦ ground (arith, late, within, ap buf (shift o late))
        ]
        | no early ↦ ground (arith, early)
      ]

  write_chunk-Chunk :
      (i m : ℕ) (s : Sys)
      → f.off + i ≤ max_size
      → 0 < m
      → m ≤ max_write
      → Idle (grown z (f.off + i)) (after i) s
      → Meets Bad (Chunk i m) (write_chunk v i m (at_place i) s)
  unfolding write_chunk
  write_chunk-Chunk i m s room pos le idle =
      let z' = grown z (f.off + i) in
      let c' = after i in
      let at : f.off + i ≤ z' = ground arith in
      Meets->>= Bad (Idle z' c') (Chunk i m) (Callees.begin_op v s) _ (calls.begin_op z' c' s idle)
        λ s₁ h₁.
          Meets->>= Bad (Locked z' c') (Chunk i m) (Callees.ilock v f.ip s₁) _
            (calls.ilock z' c' s₁ h₁)
            λ s₂ h₂. elim (dec_le (f.off + i + m) max_size) [
              | yes whole ↦
                  Meets->>= Bad _ (Chunk i m) (Callees.writei v f.ip i (f.off + i) m s₂) _
                    (calls.writei_inside z' c' i (f.off + i) m s₂ h₂ at whole)
                    λ (r, s₃) (e, h₃).
                      unlock_and_end i m r s₃ (grown z' (f.off + i + m))
                        (patched buf c' i (f.off + i) m) h₃
                        λ f' s' ef idle'. inl (
                          e,
                          whole,
                          (
                            ef ∙ move_offset-whole i m r e pos le whole,
                            as_file (grown_twice i m) (after_twice i m) s' idle',
                          ),
                        )
              | no long ↦
                  Meets->>= Bad _ (Chunk i m) (Callees.writei v f.ip i (f.off + i) m s₂) _
                    (calls.writei_beyond z' c' i (f.off + i) m s₂ h₂ at room le
                      (omega (arith, long)))
                    λ (r, s₃) (e, h₃). unlock_and_end i m r s₃ z' c' h₃ λ f' s' ef idle'.
                      inr (e, omega (arith, long), (ef ∙ move_offset-refused i r e, idle'))
            ]

  -- Where the loop ends: at `n`, or in front of the first piece that would end past the greatest
  -- size.
  pub record Stopped (i : ℕ) : Type 0 where
    pub whole : f.off + n ≤ max_size → i ≡ n
    pub short :
        max_size < f.off + n
        → (i < n)
          × (i % max_write ≡ 0)
          × (f.off + i ≤ max_size)
          × (max_size < f.off + i + max_write)

  abbrev LoopEnd : ℕ × File × Sys → Type 0
  LoopEnd (i, f', s') = Stopped i × Moved i f' s'

  Stopped-end : (i : ℕ) → n ≡ i → f.off + i ≤ max_size → Stopped i
  Stopped-end i e room = record {
    whole = λ _. sym e;
    short = λ long. absurd (omega (arith, e, long, room));
  }

  next_place :
      (i : ℕ)
      → slt i n ≡ true
      → i ≤ n
      → (i % max_write ≡ 0) ⊎ (i ≡ n)
      → ((i + piece v i n) % max_write ≡ 0) ⊎ (i + piece v i n ≡ n)
  next_place i more le (inr e) = absurd (ground (arith, more, e))
  next_place i more le (inl e) = elim (dec_le (n - i) max_write) [
    | yes last ↦ inr (ground (arith, more, le, last))
    | no not_last ↦
        inl
          (ap (λ m. (i + m) % max_write) (whole_piece (omega (arith, not_last))) ∙ omega (arith, e))
  ]
    where
      whole_piece : max_write < n - i → piece v i n ≡ max_write
      whole_piece h = ground (arith, h)

  -- After a whole piece the loop goes on, and after a refused one it stops.
  after_whole :
      (rest : ℕ → File → Sys → Outcome (ℕ × File × Sys)) (i m r : ℕ) (f' : File) (s' : Sys)
      → r ≡ m
      → m < 2 ^ 31
      → i + m < 2 ^ 32
      → f' ≡ at_place (i + m)
      → after_chunk v rest i m (r, f', s') ≡ rest (i + m) (at_place (i + m)) s'
  unfolding after_chunk
  after_whole rest i m r f' s' e below sum ef =
      ap₂ (λ r f'. after_chunk v rest i m (r, f', s')) e ef ∙ rw (positive, ==_refl m, exact) refl
    where
      positive : slt m 0 ≡ false
      positive = ground arith

      exact : u32 (i + m) ≡ i + m
      exact = omega arith

  after_refused :
      (rest : ℕ → File → Sys → Outcome (ℕ × File × Sys)) (i m r : ℕ) (f' : File) (s' : Sys)
      → r ≡ minus_one
      → after_chunk v rest i m (r, f', s') ≡ done (i, f', s')
  unfolding after_chunk
  after_refused rest i m r f' s' e = ap (λ r. after_chunk v rest i m (r, f', s')) e

  Stopped-refused :
      (i m : ℕ)
      → slt i n ≡ true
      → (i % max_write ≡ 0) ⊎ (i ≡ n)
      → f.off + i ≤ max_size
      → max_size < f.off + i + m
      → m ≤ max_write
      → m ≤ n - i
      → i ≤ n
      → Stopped i
  Stopped-refused i m more (inr e) room long le bound below = absurd (ground (arith, more, e))
  Stopped-refused i m more (inl e) room long le bound below = record {
    whole = λ h. absurd (omega (arith, h, long, bound, below));
    short = λ _. (ground (arith, more), e, room, omega (arith, long, le));
  }

  after-LoopEnd :
      (rest : ℕ → File → Sys → Outcome (ℕ × File × Sys)) (i m : ℕ) (x : ℕ × File × Sys)
      → m ≤ max_write
      → i + m < 2 ^ 32
      → Chunk i m x
      → (max_size < f.off + i + m → Stopped i)
      → ((s' : Sys)
          → f.off + (i + m) ≤ max_size
          → Idle (grown z (f.off + (i + m))) (after (i + m)) s'
          → Meets Bad LoopEnd (rest (i + m) (at_place (i + m)) s'))
      → Meets Bad LoopEnd (after_chunk v rest i m x)
  after-LoopEnd rest i m (r, f', s') le sum (inl (e, fit, (ef, idle))) stop go =
      subst (Meets Bad LoopEnd) (sym (after_whole rest i m r f' s' e (omega (arith, le)) sum ef))
        (go s' (omega (arith, fit)) idle)
  after-LoopEnd rest i m (r, f', s') le sum (inr (e, long, moved)) stop go =
      subst (Meets Bad LoopEnd) (sym (after_refused rest i m r f' s' e)) (stop long, moved)

  write_from-LoopEnd :
      (k i : ℕ) (s : Sys)
      → n ≤ i + k
      → i ≤ n
      → (i % max_write ≡ 0) ⊎ (i ≡ n)
      → f.off + i ≤ max_size
      → Idle (grown z (f.off + i)) (after i) s
      → Meets Bad LoopEnd (write_from v k i n (at_place i) s)
  unfolding write_from after_chunk
  write_from-LoopEnd zero i s enough le whole room idle =
      (Stopped-end i (omega (arith, enough, le)) room, (refl, idle))
  write_from-LoopEnd (suc k) i s enough le whole room idle = elim (Bool-cases (slt i n)) [
    | inr at_end ↦ rw at_end (Stopped-end i (ground (arith, at_end)) room, (refl, idle))
    | inl more ↦
        let m = piece v i n in
        let pos : 0 < m = ground arith in
        let le_max : m ≤ max_write = ground arith in
        let bound : m ≤ n - i = ground arith in
        rw more (
          Meets->>= Bad (Chunk i m) LoopEnd (write_chunk v i m (at_place i) s) _
            (write_chunk-Chunk i m s room pos le_max idle)
            λ x c.
              after-LoopEnd (λ i' f' s'. write_from v k i' n f' s') i m x le_max
                (omega (arith, bound)) c
                (λ long. Stopped-refused i m more whole room long le_max bound le)
                λ s' fit idle'.
                  write_from-LoopEnd k (i + m) s' (omega (arith, enough, pos))
                    (omega (arith, bound, le)) (next_place i more le whole) fit idle')
  ]

  -- What `filewrite` of `n` bytes comes to.
  abbrev pub Written : ℕ × File × Sys → Type 0
  Written (r, f', s') =
      (f.off + n ≤ max_size
        → (r ≡ n) × (f' ≡ record f { off = f.off + n }) × Idle (grown z (f.off + n)) (after n) s')
      × (max_size < f.off + n
          → (r ≡ minus_one)
            × ((i : ℕ) × (i < n)
                × (i % max_write ≡ 0)
                × (f.off + i ≤ max_size)
                × (max_size < f.off + i + max_write)
                × (f' ≡ record f { off = f.off + i })
                × Idle (grown z (f.off + i)) (after i) s'))

  LoopEnd-Written : (x : ℕ × File × Sys) → LoopEnd x → Meets Bad Written (write_result v n x)
  unfolding write_result
  LoopEnd-Written (i, f', s') (stopped, (ef, idle)) = (
    λ room.
        let e = stopped.whole room in
        (
          ground (arith, e),
          ef ∙ ap at_place e,
          subst (λ i. Idle (grown z (f.off + i)) (after i) s') e idle,
        ),
    λ long.
        let (less, aligned, room, next) = stopped.short long in
        (ground (arith, less), (i, less, aligned, room, next, ef, idle)),
  )

  -- `filewrite` of `n` bytes to a writable file on an inode of `z` bytes, from an offset inside it,
  -- with the calls as `FileCalls` says: it panics only if a call does. If the bytes end within the
  -- greatest size, it returns `n`, the offset has moved by `n`, and the inode has grown to its new
  -- end. Otherwise it returns -1, and has written the pieces of 1536 bytes in front of the first
  -- one that would end past the greatest size: by so many bytes the offset has moved and the inode
  -- has grown.
  pub filewrite_lem :
      (s : Sys)
      → f.writable ≡ true
      → f.kind ≡ fd_inode
      → Idle z c s
      → Meets Bad Written (filewrite v n f s)
  unfolding filewrite
  filewrite_lem s w inode idle = subst (Meets Bad Written) (sym (ap₂ branches w inode)) (
      Meets->>= Bad LoopEnd Written (write_from v n 0 n f s) (write_result v n)
        (subst (λ f'. Meets Bad LoopEnd (write_from v n 0 n f' s)) start
          (write_from-LoopEnd n 0 s (omega arith) (omega arith) (inl refl)
            (omega (arith, inside, fits)) (as_file same same_bytes s idle)))
        LoopEnd-Written)
    where
      branches : Bool → FileType → Outcome (ℕ × File × Sys)
      branches writable kind = if not writable then done (minus_one, f, s) else elim kind [
        | fd_pipe ↦ (Callees.pipewrite v f.pipe n s >>= λ (r, s'). done (r, f, s'))
        | fd_inode ↦ (write_from v n 0 n f s >>= write_result v n)
        | fd_none ↦ panic
      ]

      start : at_place 0 ≡ f
      start = ap (λ o. record f { off = o }) (omega arith)

      same_bytes : c ≡ after 0
      same_bytes = fun_ext (λ o. ground arith)

      same : z ≡ grown z (f.off + 0)
      same = ground (arith, inside)
