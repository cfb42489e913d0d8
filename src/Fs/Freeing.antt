-- ===== src/Fs/Freeing.antt =====
-- fs.c: the loops of `itrunc`, which free blocks that are listed.
use test_ascii.Common.{
  ℕ, zero, suc, ◌+◌, ◌≡◌, ◌≢◌, ◌<◌, ◌≤◌, refl, sym, ◌∙◌, ap, subst, arith, true, false, ltb, leb,
  ◌&&◌, ◌==◌, if◌then◌else◌, if_lem, Outcome, done, panic, ◌>>=◌, fun_ext,
}
use native.Mathlib.Decide.{ℕ_discrete}
use test_ascii.Fs.{Superblock, Disk}
use test_ascii.Fs.Logs.{Logs, Logs-refl, Logs-trans}
use test_ascii.Fs.Map.{AreBytes, in_use, IsOffMap}
use test_ascii.Fs.Blocks.{bfree}
use test_ascii.Fs.Alloc.{Bfree, bfree_lem}
use test_ascii.Fs.Inode.{Inode, set_addr, free_block, free_direct, free_words}

-- A call that does not panic, and what it returns.
abbrev pub Succeeds {ℓ} : {A : Type ℓ} → (A → Type 0) → Outcome A → Type 0
Succeeds P panic = ⊥
Succeeds P (done a) = P a

pub Succeeds->>= {ℓ κ} :
    {A : Type ℓ} {B : Type κ} (P : A → Type 0) (Q : B → Type 0) (o : Outcome A) (f : A → Outcome B)
    → Succeeds P o
    → ((a : A) → P a → Succeeds Q (f a))
    → Succeeds Q (o >>= f)
Succeeds->>= P Q panic f h k = absurd h
Succeeds->>= P Q (done a) f h k = k a h

pub Succeeds-map {ℓ} :
    {A : Type ℓ} {P Q : A → Type 0}
    → ((a : A) → P a → Q a)
    → (o : Outcome A) → Succeeds P o
    → Succeeds Q o
Succeeds-map f panic h = absurd h
Succeeds-map f (done a) h = f a h

module _ (sb : Superblock) where
  -- The listed blocks `a j` to `a (j + n - 1)`, 0 for none, are marked, each listed once.
  pub record AreListed (a : ℕ → ℕ) (j n : ℕ) (d : Disk) : Type 0 where
    pub bytes : AreBytes d
    pub used : (i : ℕ) → j ≤ i → i < j + n → a i ≢ 0 → (a i < sb.size) × (in_use sb d (a i) ≡ true)
    pub distinct : (i k : ℕ) → j ≤ i → i < k → k < j + n → a i ≢ 0 → a i ≢ a k

  -- Just they are free then.
  pub record Frees (a : ℕ → ℕ) (j n : ℕ) (d d' : Disk) : Type 0 where
    pub freed : (i : ℕ) → j ≤ i → i < j + n → a i ≢ 0 → in_use sb d' (a i) ≡ false
    pub kept :
        (c : ℕ) → ((i : ℕ) → j ≤ i → i < j + n → a i ≢ 0 → a i ≢ c) → in_use sb d' c ≡ in_use sb d c
    pub same : (x i : ℕ) → IsOffMap sb x → d'.blocks x i ≡ d.blocks x i
    pub bytes : AreBytes d'
    pub logs : Logs d d'

  Frees-none : (a : ℕ → ℕ) (j : ℕ) (d : Disk) → AreBytes d → Frees a j 0 d d
  Frees-none a j d bytes = record {
    freed = λ i lo hi ne. absurd (omega arith);
    kept = λ c h. refl;
    same = λ x i off. refl;
    bytes = bytes;
    logs = Logs-refl d;
  }

  free_block-Frees :
      (a : ℕ → ℕ) (j n : ℕ) (d : Disk)
      → AreListed a j (suc n) d
      → Succeeds (Frees a j 1 d) (free_block sb (a j) d)
  unfolding free_block
  free_block-Frees a j n d l =
      if_lem (Succeeds (Frees a j 1 d)) (a j == 0)
        (λ z. record {
          freed = λ i lo hi ne. absurd (ne (ap a (at_j i lo hi) ∙ ground (arith, z)));
          kept = λ c h. refl;
          same = λ x i off. refl;
          bytes = l.bytes;
          logs = Logs-refl d;
        })
        (λ z.
          by_bfree (ground (arith, z)) (bfree sb (a j) d)
            (l.used j (omega arith) (omega arith) (ground (arith, z)))
            (bfree_lem sb d (a j) l.bytes))
    where
      at_j : (i : ℕ) → j ≤ i → i < j + 1 → i ≡ j
      at_j i lo hi = omega arith

      by_bfree :
          a j ≢ 0
          → (o : Outcome Disk) → (a j < sb.size) × (in_use sb d (a j) ≡ true)
          → Bfree sb d (a j) o
          → Succeeds (Frees a j 1 d) o
      by_bfree ne panic (lt, u) free = ground (arith, u, free)
      by_bfree nz (done d') (lt, u) f = record {
        freed =
            λ i lo hi ne. ap (λ k. in_use sb d' (a k)) (at_j i lo hi) ∙ f.now (a j) ∙ ground arith;
        kept = λ c h. f.now c ∙ ground (arith, h j (omega arith) (omega arith) nz);
        same = λ x i off. f.kept x i (off (a j) lt);
        bytes = f.bytes;
        logs = f.logs;
      }

  AreListed-next :
      (a : ℕ → ℕ) (j n : ℕ) (d d' : Disk)
      → AreListed a j (suc n) d
      → Frees a j 1 d d'
      → AreListed a (j + 1) n d'
  AreListed-next a j n d d' l f = record {
    bytes = f.bytes;
    used = λ i lo hi ne.
        let (lt, u) = l.used i (omega arith) (omega arith) ne in
        (
          lt,
          f.kept (a i) (λ k lo' hi' ne'. l.distinct k i lo' (omega arith) (omega arith) ne') ∙ u,
        );
    distinct = λ i k lo lt hi ne. l.distinct i k (omega arith) lt (omega arith) ne;
  }

  Frees-next :
      (a : ℕ → ℕ) (j n : ℕ) (d d' d'' : Disk)
      → AreListed a j (suc n) d
      → Frees a j 1 d d'
      → Frees a (j + 1) n d' d''
      → Frees a j (suc n) d d''
  Frees-next a j n d d' d'' l f g = record {
    freed = λ i lo hi ne. elim (ℕ_discrete i j) [
      | yes e ↦
          g.kept (a i)
            (λ k lo' hi' ne' same. l.distinct i k lo (omega arith) (omega arith) ne (sym same))
          ∙ f.freed i (omega arith) (omega arith) ne
      | no other ↦ g.freed i (omega arith) (omega arith) ne
    ];
    kept = λ c h.
        g.kept c (λ i lo hi ne. h i (omega arith) (omega arith) ne)
        ∙ f.kept c (λ i lo hi ne. h i lo (omega arith) ne);
    same = λ x i off. g.same x i off ∙ f.same x i off;
    bytes = g.bytes;
    logs = Logs-trans f.logs g.logs;
  }

  pub free_words-Frees :
      (n j : ℕ) (a : ℕ → ℕ) (d : Disk)
      → AreListed a j n d
      → Succeeds (Frees a j n d) (free_words sb n j a d)
  unfolding free_words
  free_words-Frees zero j a d l = Frees-none a j d l.bytes
  free_words-Frees (suc n) j a d l =
      Succeeds->>= (Frees a j 1 d) (Frees a j (suc n) d) (free_block sb (a j) d)
        (free_words sb n (j + 1) a) (free_block-Frees a j n d l)
        (λ d' f.
          Succeeds-map (λ d'' g. Frees-next a j n d d' d'' l f g) (free_words sb n (j + 1) a d')
            (free_words-Frees n (j + 1) a d' (AreListed-next a j n d d' l f)))

  -- The loop over the numbers in the inode, which clears them.
  abbrev pub cleared : ℕ → ℕ → Inode → Inode
  cleared k n ip = record ip { addrs = λ i. if leb k i && ltb i (k + n) then 0 else ip.addrs i }

  pub free_direct-Frees :
      (n k : ℕ) (a : ℕ → ℕ) (ip : Inode) (d : Disk)
      → ((i : ℕ) → k ≤ i → ip.addrs i ≡ a i)
      → AreListed a k n d
      → Succeeds (λ (ip', d'). Frees a k n d d' × (ip' ≡ cleared k n ip)) (free_direct sb n k ip d)
  unfolding free_direct
  free_direct-Frees zero k a ip d e l =
      (Frees-none a k d l.bytes, ap (λ f. record ip { addrs = f }) (fun_ext (λ i. ground arith)))
  free_direct-Frees (suc n) k a ip d e l =
      Succeeds->>= (Frees a k 1 d)
        (λ (ip', d'). Frees a k (suc n) d d' × (ip' ≡ cleared k (suc n) ip))
        (free_block sb (ip.addrs k) d) (free_direct sb n (k + 1) (set_addr k 0 ip))
        (subst (λ b. Succeeds (Frees a k 1 d) (free_block sb b d)) (sym (e k (omega arith)))
          (free_block-Frees a k n d l))
        (λ d' f.
          Succeeds-map
            (λ (ip'', d'') (g, same). (
              Frees-next a k n d d' d'' l f g,
              same ∙ ap (λ f. record ip { addrs = f }) (fun_ext (λ i. clear_next i)),
            ))
            (free_direct sb n (k + 1) (set_addr k 0 ip) d')
            (free_direct-Frees n (k + 1) a (set_addr k 0 ip) d'
              (λ i lo. ground (arith, e i (omega arith))) (AreListed-next a k n d d' l f)))
    where
      clear_next :
          (i : ℕ)
          → (if leb (k + 1) i && ltb i (k + 1 + n) then 0 else (if k == i then 0 else ip.addrs i))
            ≡ (if leb k i && ltb i (k + suc n) then 0 else ip.addrs i)
      clear_next i = ground arith
