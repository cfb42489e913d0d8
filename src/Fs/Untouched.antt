-- ===== src/Fs/Untouched.antt =====
-- fs.c: `writei` leaves the count and the valid flag of the inode in memory.
use test_ascii.Common.{
  ℕ, zero, suc, ◌+◌, ◌-◌, ◌/◌, ◌%◌, ◌≡◌, refl, ◌∙◌, min, ltb, ◌==◌, if_lem, u32, ◌&&◌, ◌||◌, ◌*◌,
  Outcome, done, panic, ◌>>=◌, Ensures, Ensures->>=, false,
}
use test_ascii.Fs.{Superblock, Disk, bsize, maxfile, ndirect, nindirect}
use test_ascii.Fs.Blocks.{balloc}
use test_ascii.Fs.Inode.{Inode, addr_or_new, word_or_new, bmap}
use test_ascii.Fs.Io.{Devsw, write_loop, grow, writei, t_dev}

-- The inodes have the same references, and both or none are loaded.
abbrev pub SameUse : Inode → Inode → Type 0
SameUse ip ip' = (ip'.ref ≡ ip.ref) × (ip'.valid ≡ ip.valid)

SameUse-trans : (ip ip₁ ip₂ : Inode) → SameUse ip ip₁ → SameUse ip₁ ip₂ → SameUse ip ip₂
SameUse-trans ip ip₁ ip₂ (r, v) (r', v') = (r' ∙ r, v' ∙ v)

bind_kept :
    {A B : Type 0} {P : A → Type 0} (o : Outcome A) (f : A → Outcome B) (Q : B → Type 0)
    → Ensures P o
    → ((a : A) → P a → Ensures Q (f a))
    → Ensures Q (o >>= f)
bind_kept panic f Q h k = tt
bind_kept (done a) f Q h k = k a h

weaken :
    {A : Type 0} {P : A → Type 0} (o : Outcome A) (Q : A → Type 0)
    → Ensures P o
    → ((a : A) → P a → Q a)
    → Ensures Q o
weaken panic Q h k = tt
weaken (done a) Q h k = k a h

module _ (sb : Superblock) where
  addr_or_new-SameUse :
      (ip : Inode) (k : ℕ) (d : Disk)
      → Ensures (λ (r : Inode × Disk). SameUse ip r.0) (addr_or_new sb ip k d)
  unfolding addr_or_new
  addr_or_new-SameUse ip k d =
      if_lem (Ensures (λ (r : Inode × Disk). SameUse ip r.0)) (ip.addrs k == 0)
        (λ _. Ensures->>= (λ (r : Inode × Disk). SameUse ip r.0) (balloc sb d) _ λ r. (refl, refl))
        (λ _. (refl, refl))

  bmap-SameUse :
      (ip : Inode) (bn : ℕ) (d : Disk)
      → Ensures (λ (r : ℕ × (Inode × Disk)). SameUse ip r.1.0) (bmap sb ip bn d)
  unfolding bmap
  bmap-SameUse ip bn d =
      let P : ℕ × (Inode × Disk) → Type 0 = λ r. SameUse ip r.1.0 in
      if_lem (Ensures P) (ltb bn ndirect)
        (λ _.
          bind_kept (addr_or_new sb ip bn d) _ P (addr_or_new-SameUse ip bn d)
            λ (ip', d') same. same)
        (λ _.
          if_lem (Ensures P) (ltb (bn - ndirect) nindirect)
            (λ _.
              bind_kept (addr_or_new sb ip ndirect d) _ P (addr_or_new-SameUse ip ndirect d)
                λ (ip', d') same.
                  Ensures->>= P (word_or_new sb (ip'.addrs ndirect) (bn - ndirect) d') _ λ r. same)
            (λ _. tt))

  write_loop-SameUse :
      (fuel tot n off : ℕ) (src : ℕ → ℕ) (ip : Inode) (d : Disk)
      → Ensures
          (λ (r : ℕ × (Inode × Disk)). SameUse ip r.1.0)
          (write_loop sb fuel tot n off src ip d)
  unfolding write_loop
  write_loop-SameUse zero tot n off src ip d = (refl, refl)
  write_loop-SameUse (suc fuel) tot n off src ip d =
      let P : ℕ × (Inode × Disk) → Type 0 = λ r. SameUse ip r.1.0 in
      if_lem (Ensures P) (ltb tot n)
        (λ _.
          bind_kept (bmap sb ip (off / bsize) d) _ P (bmap-SameUse ip (off / bsize) d)
            λ (addr, (ip', d')) same.
              let m = min (n - tot) (bsize - off % bsize) in
              weaken (write_loop sb fuel (tot + m) n (off + m) src ip' _) P
                (write_loop-SameUse fuel (tot + m) n (off + m) src ip' _)
                λ r same'. SameUse-trans ip ip' r.1.0 same same')
        (λ _. (refl, refl))

  grow-SameUse : (n off : ℕ) (ip : Inode) (d : Disk) → SameUse ip (grow sb n off ip d).0
  unfolding grow
  grow-SameUse n off ip d =
      if_lem (λ (r : Inode × Disk). SameUse ip r.0) (ltb 0 n && ltb ip.size off) (λ _. (refl, refl))
        (λ _. (refl, refl))

  -- `writei` to a file.
  pub writei-SameUse :
      (devsw : Devsw) (ip : Inode) (src : ℕ → ℕ) (off n : ℕ) (d : Disk)
      → (ip.type == t_dev) ≡ false
      → Ensures
          (λ (r : ℕ × ((ℕ → ℕ) × (Inode × Disk))). SameUse ip r.1.1.0)
          (writei sb devsw ip src off n d)
  unfolding writei
  writei-SameUse devsw ip src off n d regular =
      let P : ℕ × ((ℕ → ℕ) × (Inode × Disk)) → Type 0 = λ r. SameUse ip r.1.1.0 in
      if_lem (Ensures P) (ip.type == t_dev) (λ dev. absurd (cc))
        (λ _.
          if_lem (Ensures P) (ltb ip.size off || ltb (u32 (off + n)) off) (λ _. (refl, refl))
            (λ _.
              if_lem (Ensures P) (ltb (maxfile * bsize) (u32 (off + n))) (λ _. (refl, refl))
                (λ _.
                  bind_kept (write_loop sb n 0 n off src ip d) _ P
                    (write_loop-SameUse n 0 n off src ip d)
                    λ (off', (ip', d')) same.
                      SameUse-trans ip ip' (grow sb n off' ip' d').0 same
                        (grow-SameUse n off' ip' d'))))
