-- ===== src/Fs/Putting.antt =====
-- fs.c: `iput`.
use test_ascii.Common.{
  ℕ, ◌-◌, ◌^◌, ◌≡◌, ◌≢◌, ◌<◌, refl, sym, ◌∙◌, ap, subst, arith, Bool, true, false, ◌==◌, ◌&&◌,
  if_lem, sub32, Outcome, done, panic, ◌>>=◌,
}
use test_ascii.Common.Arrays.{update-same, update-other}
use test_ascii.Fs.{Superblock, Disk}
use test_ascii.Fs.Inode.{Inode, itrunc, iupdate}
use test_ascii.Fs.Slots.{IsFile, slot}
use test_ascii.Fs.Freeing.{Succeeds}
use test_ascii.Fs.Emptying.{Emptied}
use test_ascii.Fs.Truncating.{Emptied-iupdate, itrunc_lem}
use test_ascii.Fs.Icache.{Icache, set_inode, set_locked, free_inode, iput_drop, iput}

-- The last reference to an inode without links.
abbrev pub is_last : Inode → Bool
is_last ip = (ip.valid && ip.nlink == 0) && ip.ref == 1

module _ (sb : Superblock) where
  -- What the call has done with the inode's file: it has truncated it and freed the inode, or nothing.
  abbrev pub Disposed : Inode → Disk → Inode → Disk → Bool → Type 0
  Disposed ip d ip' d' true =
      Emptied sb ip d (record ip' { ref = ip.ref }) d'
      × (ip'.type ≡ 0)
      × (ip'.valid ≡ false)
      × ((ip₀ : Inode) × (e : Disk) × (ip₀.type ≡ 0)
          × (ip₀.inum ≡ ip.inum)
          × (d' ≡ iupdate sb ip₀ e))
  Disposed ip d ip' d' false = (ip' ≡ record ip { ref = ip'.ref }) × (d' ≡ d)

  pub record Put (s s' : Icache) (i : ℕ) : Type 0 where
    pub dropped : (s'.inodes i).ref ≡ (s.inodes i).ref - 1
    pub unlocked : s'.locked i ≡ false
    pub others : (j : ℕ) → i ≢ j → (s'.inodes j ≡ s.inodes j) × (s'.locked j ≡ s.locked j)
    pub disposed : Disposed (s.inodes i) s.disk (s'.inodes i) s'.disk (is_last (s.inodes i))

  -- The end of the call, of an inode that is still one, or one that has been freed.
  Put-drop :
      (s s₁ : Icache) (i : ℕ)
      → 0 < (s.inodes i).ref
      → (s.inodes i).ref < 2 ^ 31
      → (s₁.inodes i).ref ≡ (s.inodes i).ref
      → ((j : ℕ) → i ≢ j → (s₁.inodes j ≡ s.inodes j) × (s₁.locked j ≡ s.locked j))
      → Disposed
          (s.inodes i)
          s.disk
          (record (s₁.inodes i) { ref = sub32 (s₁.inodes i).ref 1 })
          s₁.disk
          (is_last (s.inodes i))
      → Put s (iput_drop i s₁) i
  unfolding iput_drop
  Put-drop s s₁ i used small same_ref others disposed =
      let v = record (s₁.inodes i) { ref = sub32 (s₁.inodes i).ref 1 } in
      let at_i = update-same s₁.inodes i v in
      record {
        dropped = ap (λ x. x.ref) at_i ∙ omega (arith, same_ref, used, small);
        unlocked = update-same s₁.locked i false;
        others = λ j ne. (
          update-other s₁.inodes i v j ne ∙ (others j ne).0,
          update-other s₁.locked i false j ne ∙ (others j ne).1,
        );
        disposed =
            subst (λ x. Disposed (s.inodes i) s.disk x s₁.disk (is_last (s.inodes i))) (sym at_i)
              disposed;
      }

  Put-kept :
      (s : Icache) (i : ℕ)
      → 0 < (s.inodes i).ref
      → (s.inodes i).ref < 2 ^ 31
      → is_last (s.inodes i) ≡ false
      → Put s (iput_drop i (set_locked i true s)) i
  Put-kept s i used small not_last =
      Put-drop s (set_locked i true s) i used small refl
        (λ j ne. (refl, update-other s.locked i true j ne))
        (subst
          (Disposed (s.inodes i) s.disk (record (s.inodes i) { ref = sub32 (s.inodes i).ref 1 })
            s.disk)
          (sym not_last) (refl, refl))

  Emptied-ref :
      (ip : Inode) (d : Disk) (ip' ip'' : Inode) (d' : Disk)
      → Emptied sb ip d ip' d'
      → ip''.inum ≡ ip'.inum
      → ip''.ref ≡ ip'.ref
      → ip''.addrs ≡ ip'.addrs
      → Emptied sb ip d ip'' d'
  unfolding slot
  Emptied-ref ip d ip' ip'' d' e same_inum same_ref same_addrs = record {
    none_left =
        λ k. ap (λ (f : ℕ → ℕ). slot (record ip' { addrs = f }) d' k) same_addrs ∙ e.none_left k;
    same_inum = same_inum ∙ e.same_inum;
    same_ref = same_ref ∙ e.same_ref;
    freed = e.freed;
    kept = e.kept;
    same = e.same;
    bytes = e.bytes;
    logs = e.logs;
  }

  Put-freed :
      (s : Icache) (i : ℕ) (ip : Inode) (d : Disk)
      → 0 < (s.inodes i).ref
      → (s.inodes i).ref < 2 ^ 31
      → IsFile sb (s.inodes i) s.disk
      → is_last (s.inodes i) ≡ true
      → Emptied sb (s.inodes i) s.disk ip d
      → (let ip' = record ip { type = 0 } in
          Put s
            (iput_drop i (
              set_inode i
                (record ip' { valid = false })
                (record (set_locked i true s) { disk = iupdate sb ip' d })))
            i)
  Put-freed s i ip d used small file last emptied =
      let ip' = record ip { type = 0 } in
      let v = record ip' { valid = false } in
      let d' = iupdate sb ip' d in
      let (emptied', file') =
        Emptied-iupdate sb (s.inodes i) s.disk file ip ip' d emptied refl refl (λ k. refl) in
      Put-drop s (set_inode i v (record (set_locked i true s) { disk = d' })) i used small
        (ap (λ x. x.ref) (update-same s.inodes i v) ∙ emptied.same_ref)
        (λ j ne. (update-other s.inodes i v j ne, update-other s.locked i true j ne))
        (subst
          (λ x.
            Disposed (s.inodes i) s.disk (record x { ref = sub32 x.ref 1 }) d'
              (is_last (s.inodes i)))
          (sym (update-same s.inodes i v))
          (subst (Disposed (s.inodes i) s.disk (record v { ref = sub32 v.ref 1 }) d') (sym last) (
            Emptied-ref (s.inodes i) s.disk ip' (record v { ref = (s.inodes i).ref }) d' emptied'
                refl (sym emptied.same_ref) refl,
            refl,
            refl,
            (ip', d, refl, emptied.same_inum, refl),
          )))

  Put-truncated :
      (s : Icache) (i : ℕ)
      → 0 < (s.inodes i).ref
      → (s.inodes i).ref < 2 ^ 31
      → IsFile sb (s.inodes i) s.disk
      → is_last (s.inodes i) ≡ true
      → (o : Outcome (Inode × Disk))
      → Succeeds
          (λ (ip', d'). Emptied sb (s.inodes i) s.disk ip' d' × IsFile sb ip' d' × (ip'.size ≡ 0))
          o
      → Succeeds
          (λ s'. Put s s' i)
          ((o >>= λ (ip, d).
              let ip' = record ip { type = 0 } in
              done (
                set_inode i
                  (record ip' { valid = false })
                  (record (set_locked i true s) { disk = iupdate sb ip' d })))
            >>= λ s'. done (iput_drop i s'))
  Put-truncated s i used small file last panic h = absurd h
  Put-truncated s i used small file last (done (ip, d)) (emptied, _, _) =
      Put-freed s i ip d used small file last emptied

  -- `iput` of a reference to an inode, whose file is one if it is to be freed, does not panic. It
  -- drops one reference, leaves the inode unlocked, and changes no other. If it was the last
  -- reference to an inode without links, the file is truncated and the inode freed, in memory and
  -- on the disk; otherwise the inode and the disk are as they were.
  pub iput_lem :
      (i : ℕ) (s : Icache)
      → 0 < (s.inodes i).ref
      → (s.inodes i).ref < 2 ^ 31
      → (is_last (s.inodes i) ≡ true → IsFile sb (s.inodes i) s.disk)
      → Succeeds (λ s'. Put s s' i) (iput sb i s)
  unfolding iput free_inode
  iput_lem i s used small file =
      let ip = s.inodes i in
      if_lem (Succeeds (λ s'. Put s s' i)) (ip.valid && ip.nlink == 0)
        (λ no_links.
          if_lem (Succeeds (λ s'. Put s s' i)) (ip.ref == 1)
            (λ one.
              let last : is_last ip ≡ true = ap (λ b. b && ip.ref == 1) no_links ∙ one in
              Put-truncated s i used small (file last) last (itrunc sb ip s.disk)
                (itrunc_lem sb ip s.disk (file last)))
            (λ more. Put-kept s i used small (ap (λ b. b && ip.ref == 1) no_links ∙ more)))
        (λ links. Put-kept s i used small (ap (λ b. b && ip.ref == 1) links))
