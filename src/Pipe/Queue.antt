-- ===== src/Pipe/Queue.antt =====
-- pipe.c: the bytes that a pipe holds, as a list.
use test_ascii.Common.{
  ℕ, zero, suc, ◌+◌, ◌%◌, ◌^◌, ◌≡◌, ◌≢◌, ◌↔◌, refl, ◌∙◌, ap, ap₂, ◌<◌, ◌≤◌, arith, true, List, [],
  ◌∷◌, ◌++◌, u32, sub32, ◌==◌, length,
}
use test_ascii.Common.Arrays.{update}
use test_ascii.Pipe.{Pipe, pipe_size, is_full, put, advance}

-- `n` bytes from counter value `r` on.
unfoldable pub window : (ℕ → ℕ) → ℕ → ℕ → List ℕ
window buf r zero = []
window buf r (suc n) = buf (r % pipe_size) ∷ window buf (u32 (r + 1)) n

-- How many bytes are in the pipe, and which, oldest first.
abbrev pub used : Pipe → ℕ
used p = sub32 p.nwrite p.nread

unfoldable pub contents : Pipe → List ℕ
unfolding window
contents p = window p.buf p.nread (used p)

-- The counters are words, at most 512 apart.
pub record IsPipe (p : Pipe) : Type 0 where
  pub nread_word : p.nread < 2 ^ 32
  pub nwrite_word : p.nwrite < 2 ^ 32
  pub fits : used p ≤ pipe_size

length-window : (buf : ℕ → ℕ) (r n : ℕ) → length (window buf r n) ≡ n
unfolding window
length-window buf r zero = refl
length-window buf r (suc n) = ap suc (length-window buf (u32 (r + 1)) n)

pub length-contents : (p : Pipe) → length (contents p) ≡ used p
unfolding contents
length-contents p = length-window p.buf p.nread (used p)

-- A window is kept by a write outside it.
window-update :
    (buf : ℕ → ℕ) (r n j c : ℕ)
    → ((i : ℕ) → i < n → j ≢ u32 (r + i) % pipe_size)
    → window (update buf j c) r n ≡ window buf r n
unfolding window
window-update buf r zero j c h = refl
window-update buf r (suc n) j c h =
    ap₂ ◌∷◌ (here (h 0 (omega arith)))
      (window-update buf (u32 (r + 1)) n j c (λ i k. outside i (h (suc i) (omega arith))))
  where
    here : j ≢ u32 (r + 0) % pipe_size → update buf j c (r % pipe_size) ≡ buf (r % pipe_size)
    here ne = ground arith

    outside : (i : ℕ) → j ≢ u32 (r + suc i) % pipe_size → j ≢ u32 (u32 (r + 1) + i) % pipe_size
    outside i ne = omega arith

-- Its last byte.
window_last :
    (buf : ℕ → ℕ) (r n : ℕ)
    → window buf r (suc n) ≡ window buf r n ++ (buf (u32 (r + n) % pipe_size) ∷ [])
unfolding window
window_last buf r zero = ap (λ k. buf k ∷ []) (omega arith)
window_last buf r (suc n) =
    ap (λ bytes. buf (r % pipe_size) ∷ bytes)
      (window_last buf (u32 (r + 1)) n
        ∙ ap (λ k. window buf (u32 (r + 1)) n ++ (buf k ∷ [])) (omega arith))

-- A byte put into a pipe that has room comes last in it.
pub contents-put :
    (p : Pipe) (c : ℕ) → IsPipe p → used p < pipe_size → contents (put p c) ≡ contents p ++ (c ∷ [])
unfolding contents put
contents-put p c ok room =
    ap (window (put p c).buf p.nread) (used_put)
    ∙ window_last (put p c).buf p.nread (used p)
    ∙ ap₂ (λ bytes last. bytes ++ (last ∷ []))
        (window-update p.buf p.nread (used p) (p.nwrite % pipe_size) c
          (λ i h e. omega (arith, ok.nread_word, ok.nwrite_word)))
        (ground (arith, ok.nread_word, ok.nwrite_word))
  where
    used_put : used (put p c) ≡ suc (used p)
    used_put = omega (arith, ok.nread_word, ok.nwrite_word, ok.fits)

pub put-IsPipe : (p : Pipe) (c : ℕ) → IsPipe p → used p < pipe_size → IsPipe (put p c)
unfolding put
put-IsPipe p c ok room = record {
  nread_word = ok.nread_word;
  nwrite_word = omega arith;
  fits = omega (arith, ok.nread_word, ok.nwrite_word);
}

-- The code's test for a full pipe.
pub is_full_iff : (p : Pipe) → IsPipe p → (is_full p ≡ true) ↔ (used p ≡ pipe_size)
is_full_iff p ok = ground (arith, ok.nread_word, ok.nwrite_word, ok.fits)

-- A pipe is empty where the code says so, and else its oldest byte is the one the code reads.
pub is_empty_iff : (p : Pipe) → IsPipe p → ((p.nread == p.nwrite) ≡ true) ↔ (used p ≡ 0)
is_empty_iff p ok = ground (arith, ok.nread_word, ok.nwrite_word, ok.fits)

pub contents-advance :
    (p : Pipe)
    → IsPipe p
    → used p ≢ 0
    → contents p ≡ p.buf (p.nread % pipe_size) ∷ contents (advance p)
unfolding contents window advance
contents-advance p ok some_left = ap (window p.buf p.nread) used_advance
  where
    used_advance : used p ≡ suc (used (advance p))
    used_advance = omega (arith, ok.nread_word, ok.nwrite_word, ok.fits)

pub advance-IsPipe : (p : Pipe) → IsPipe p → used p ≢ 0 → IsPipe (advance p)
unfolding advance
advance-IsPipe p ok some_left = record {
  nread_word = omega arith;
  nwrite_word = ok.nwrite_word;
  fits = omega (arith, ok.nread_word, ok.nwrite_word, ok.fits);
}
