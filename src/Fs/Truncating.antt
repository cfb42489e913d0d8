-- ===== src/Fs/Truncating.antt =====
-- fs.c: `itrunc` on the blocks of a file.
use test_ascii.Common.{
  ℕ, ◌≡◌, ◌≢◌, ◌<◌, refl, sym, ◌∙◌, ap, subst, arith, true, ◌==◌, if_lem, Outcome, done, panic,
  ◌>>=◌,
}
use test_ascii.Fs.{Superblock, Disk, bblock, ndirect, nindirect}
use test_ascii.Fs.Logs.{Logs-trans}
use test_ascii.Fs.Map.{in_use, IsOffMap}
use test_ascii.Fs.Blocks.{bfree}
use test_ascii.Fs.Alloc.{Bfree, bfree_lem}
use test_ascii.Fs.Inode.{
  Inode, iblock, set_addr, free_direct, free_words, free_indirect, itrunc, iupdate,
}
use test_ascii.Fs.Slots.{slot, IsFile, IsElsewhere}
use test_ascii.Fs.Touch.{slot-Touched, in_use-Touched, IsFile-Touched, elsewhere-Touched}
use test_ascii.Fs.Update.{iupdate-Touched}
use test_ascii.Fs.Freeing.{
  Succeeds, Succeeds->>=, Frees, cleared, free_words-Frees, free_direct-Frees,
}
use test_ascii.Fs.Emptying.{
  AreListed-direct, AreListed-words, Emptied, Emptied-all, Emptied-none, last_still, words,
}

module _ (sb : Superblock) where
  module _ (ip : Inode) (d : Disk) (file : IsFile sb ip d) where
    free_indirect-Emptied :
        (d₁ : Disk)
        → Frees sb ip.addrs 0 12 d d₁
        → Succeeds (λ (ip', d'). Emptied sb ip d ip' d') (free_indirect sb (cleared sb 0 12 ip) d₁)
    unfolding free_indirect
    free_indirect-Emptied d₁ f =
        if_lem (Succeeds (λ ((ip', d') : Inode × Disk). Emptied sb ip d ip' d')) (ip.addrs 12 == 0)
          (λ z. Emptied-none sb ip d file d₁ (ground (arith, z)) f)
          (λ z.
            let ne : ip.addrs 12 ≢ 0 = ground (arith, z) in
            Succeeds->>= (Frees sb (words sb ip d file d₁ ne f) 0 128 d₁)
              (λ (ip', d'). Emptied sb ip d ip' d')
              (free_words sb nindirect 0 (words sb ip d file d₁ ne f) d₁) _
              (free_words-Frees sb 128 0 (words sb ip d file d₁ ne f) d₁
                (AreListed-words sb ip d file d₁ ne f))
              (λ d₂ g.
                by_bfree d₁ d₂ ne f g (bfree sb (ip.addrs 12) d₂)
                  (bfree_lem sb d₂ (ip.addrs 12) g.bytes)))
      where
        by_bfree :
            (d₁ d₂ : Disk) (ne : ip.addrs 12 ≢ 0) (f : Frees sb ip.addrs 0 12 d d₁)
            (g : Frees sb (words sb ip d file d₁ ne f) 0 128 d₁ d₂) (o : Outcome Disk)
            → Bfree sb d₂ (ip.addrs 12) o
            → Succeeds
                (λ (ip', d'). Emptied sb ip d ip' d')
                (o >>= λ d''. done (set_addr 12 0 (cleared sb 0 12 ip), d''))
        by_bfree d₁ d₂ ne f g panic free =
            ground (arith, free, last_still sb ip d file d₁ ne f d₂ g)
        by_bfree d₁ d₂ ne f g (done d₃) h = Emptied-all sb ip d file d₁ ne f d₂ d₃ g h

    IsFile-Emptied : (ip' : Inode) (d' : Disk) → Emptied sb ip d ip' d' → IsFile sb ip' d'
    IsFile-Emptied ip' d' p = record {
      bytes = p.bytes;
      map = λ c h.
          let (lt, u) = file.map c h in
          (lt, p.kept (bblock sb c) lt (λ k l nz e. (file.used k l nz).2 c h (sym e)) ∙ u);
      small = file.small;
      zero_used =
          (file.zero_used.0, p.kept 0 file.zero_used.0 (λ k l nz e. nz e) ∙ file.zero_used.1);
      used = λ k h ne. absurd (ne (p.none_left k));
      distinct = λ j k hj hk ne e. absurd (ne (p.none_left j));
      iused =
          subst
            (λ n.
              (iblock sb n < sb.size)
              × (in_use sb d' (iblock sb n) ≡ true)
              × IsOffMap sb (iblock sb n))
            (sym p.same_inum)
            (let (lt, u, off) = file.iused in
              (lt, p.kept (iblock sb ip.inum) lt (λ k l nz. file.iapart k l) ∙ u, off));
      iblock_nonzero = subst (λ n. iblock sb n ≢ 0) (sym p.same_inum) file.iblock_nonzero;
      iapart =
          λ k h e. file.iblock_nonzero (ap (iblock sb) (sym p.same_inum) ∙ sym e ∙ p.none_left k);
    }

    -- `iupdate` leaves this so.
    pub Emptied-iupdate :
        (ip₂ ip' : Inode) (d₂ : Disk)
        → Emptied sb ip d ip₂ d₂
        → ip'.inum ≡ ip₂.inum
        → ip'.ref ≡ ip₂.ref
        → ((k : ℕ) → ip'.addrs k ≡ ip₂.addrs k)
        → Emptied sb ip d ip' (iupdate sb ip' d₂) × IsFile sb ip' (iupdate sb ip' d₂)
    Emptied-iupdate ip₂ ip' d₂ e same_inum same_ref same_addrs =
        let p = iupdate-Touched sb ip₂ ip' d₂ (IsFile-Emptied ip₂ d₂ e) same_inum same_addrs in
        (
          record {
            none_left = λ k. slot-Touched sb p k ∙ e.none_left k;
            same_inum = same_inum ∙ e.same_inum;
            same_ref = same_ref ∙ e.same_ref;
            freed =
                λ k l ne. in_use-Touched sb p (slot ip d k) (file.used k l ne).0 ∙ e.freed k l ne;
            kept = λ c h none. in_use-Touched sb p c h ∙ e.kept c h none;
            same = λ x i off out.
                elsewhere-Touched sb p x i (subst (λ n. IsElsewhere sb n x i) (sym e.same_inum) out)
                  (λ _ k l. p.file.iapart k l)
                ∙ e.same x i off out;
            bytes = p.bytes;
            logs = Logs-trans e.logs p.logs;
          },
          IsFile-Touched sb p,
        )

  -- `itrunc` of a file does not panic. After it the file has no block and size 0, its blocks are
  -- free, every other block is marked as before and has the bytes it had, other inodes in the
  -- inode's block included, and what changes is logged.
  pub itrunc_lem :
      (ip : Inode) (d : Disk)
      → IsFile sb ip d
      → Succeeds
          (λ (ip', d'). Emptied sb ip d ip' d' × IsFile sb ip' d' × (ip'.size ≡ 0))
          (itrunc sb ip d)
  unfolding itrunc
  itrunc_lem ip d file =
      Succeeds->>= (λ (ip₁, d₁). Frees sb ip.addrs 0 12 d d₁ × (ip₁ ≡ cleared sb 0 12 ip))
        (λ (ip', d'). Emptied sb ip d ip' d' × IsFile sb ip' d' × (ip'.size ≡ 0))
        (free_direct sb ndirect 0 ip d) _
        (free_direct-Frees sb 12 0 ip.addrs ip d (λ i lo. refl) (AreListed-direct sb ip d file))
        (λ (ip₁, d₁) (f, e).
          Succeeds->>= (λ (ip₂, d₂). Emptied sb ip d ip₂ d₂)
            (λ (ip', d'). Emptied sb ip d ip' d' × IsFile sb ip' d' × (ip'.size ≡ 0))
            (free_indirect sb ip₁ d₁) _
            (subst (λ i. Succeeds (λ (ip', d'). Emptied sb ip d ip' d') (free_indirect sb i d₁))
              (sym e) (free_indirect-Emptied ip d file d₁ f))
            (λ (ip₂, d₂) p.
              let (q, r) =
                Emptied-iupdate ip d file ip₂ (record ip₂ { size = 0 }) d₂ p refl refl
                  (λ k. refl) in
              (q, r, refl)))
