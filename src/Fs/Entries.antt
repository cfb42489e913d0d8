-- ===== src/Fs/Entries.antt =====
-- fs.c: `iget` on the table of inodes.
use test_ascii.Common.{
  ℕ, zero, suc, ◌+◌, ◌^◌, ◌≡◌, ◌≢◌, ◌<◌, ◌≤◌, ◌⊎◌, inl, inr, refl, sym, ◌∙◌, ap, subst, arith, Bool,
  true, false, Option, none, some, ◌==◌, if_lem, u32, Outcome, done, panic,
}
use native.Mathlib.Decide.{ℕ_discrete}
use test_ascii.Common.Arrays.{update, update-same, update-other}
use test_ascii.Fs.Inode.{Inode}
use test_ascii.Fs.Icache.{
  Icache, Entry, cached, absent, or_empty, is_inode, find_inode, iget_found, iget, ninode,
}

-- At most one entry in use for each inode; no count reaches the sign bit.
pub record IsTable (inodes : ℕ → Inode) : Type 0 where
  pub once :
      (i j : ℕ)
      → i < ninode
      → j < ninode
      → 0 < (inodes i).ref
      → 0 < (inodes j).ref
      → (inodes i).dev ≡ (inodes j).dev
      → (inodes i).inum ≡ (inodes j).inum
      → i ≡ j
  pub small : (i : ℕ) → i < ninode → (inodes i).ref + 1 < 2 ^ 31

module _ (dev inum : ℕ) (inodes : ℕ → Inode) where
  -- The empty entry that it remembers.
  Empties : ℕ → ℕ → Option ℕ → Option ℕ → Type 0
  Empties n i empty none = (empty ≡ none) × ((j : ℕ) → i ≤ j → j < i + n → (inodes j).ref ≢ 0)
  Empties n i empty (some k) = (empty ≡ some k) ⊎ ((i ≤ k) × (k < i + n) × ((inodes k).ref ≡ 0))

  -- What the scan of `n` entries from `i` on finds.
  Searched : ℕ → ℕ → Option ℕ → Entry → Type 0
  Searched n i empty (cached k) = (i ≤ k) × (k < i + n) × (is_inode dev inum (inodes k) ≡ true)
  Searched n i empty (absent o) =
      ((j : ℕ) → i ≤ j → j < i + n → is_inode dev inum (inodes j) ≡ false) × Empties n i empty o

  -- Nothing at `i`, then the rest.
  Empties-suc :
      (n i : ℕ) (empty : Option ℕ) (b : Bool) (o : Option ℕ)
      → ((inodes i).ref == 0) ≡ b
      → Empties n (i + 1) (or_empty empty b i) o
      → Empties (suc n) i empty o
  unfolding Empties
  Empties-suc n i (some e) b none at_i h = absurd (ground (arith, h.0))
  Empties-suc n i none true none at_i h = absurd (ground (arith, h.0))
  Empties-suc n i none false none at_i (e, used) = (
    refl,
    λ j lo hi. elim (ℕ_discrete i j) [
      | yes same ↦ subst (λ j. (inodes j).ref ≢ 0) same (λ z. ground (arith, z, at_i))
      | no ne ↦ used j (omega arith) (omega arith)
    ],
  )
  Empties-suc n i (some e) b (some k) at_i (inl same) = inl same
  Empties-suc n i (some e) b (some k) at_i (inr (lo, hi, z)) = inr (omega arith, omega arith, z)
  Empties-suc n i none true (some k) at_i (inl same) =
      let e : i ≡ k = ground (arith, same) in
      inr (
        omega (arith, e),
        omega (arith, e),
        ap (λ j. (inodes j).ref) (sym e) ∙ ground (arith, at_i),
      )
  Empties-suc n i none true (some k) at_i (inr (lo, hi, z)) = inr (omega arith, omega arith, z)
  Empties-suc n i none false (some k) at_i (inl same) = absurd (ground (arith, same))
  Empties-suc n i none false (some k) at_i (inr (lo, hi, z)) = inr (omega arith, omega arith, z)

  Searched-suc :
      (n i : ℕ) (empty : Option ℕ) (o : Entry)
      → is_inode dev inum (inodes i) ≡ false
      → Searched n (i + 1) (or_empty empty ((inodes i).ref == 0) i) o
      → Searched (suc n) i empty o
  unfolding Searched
  Searched-suc n i empty (cached k) miss (lo, hi, hit) = (omega arith, omega arith, hit)
  Searched-suc n i empty (absent o) miss (none_hit, rest) = (
    (λ j lo hi. elim (ℕ_discrete i j) [
      | yes e ↦ subst (λ j. is_inode dev inum (inodes j) ≡ false) e miss
      | no ne ↦ none_hit j (omega arith) (omega arith)
    ]),
    Empties-suc n i empty ((inodes i).ref == 0) o refl rest,
  )

  find_inode-Searched :
      (n i : ℕ) (empty : Option ℕ) → Searched n i empty (find_inode dev inum inodes n i empty)
  unfolding find_inode Searched Empties
  find_inode-Searched zero i none =
      ((λ j lo hi. absurd (omega arith)), (refl, λ j lo hi. absurd (omega arith)))
  find_inode-Searched zero i (some k) = ((λ j lo hi. absurd (omega arith)), inl refl)
  find_inode-Searched (suc n) i empty =
      if_lem (Searched (suc n) i empty) (is_inode dev inum (inodes i))
        (λ hit. (omega arith, omega arith, hit))
        (λ miss.
          Searched-suc n i empty
            (find_inode dev inum inodes n (i + 1) (or_empty empty ((inodes i).ref == 0) i)) miss
            (find_inode-Searched n (i + 1) (or_empty empty ((inodes i).ref == 0) i)))

-- A new or changed entry, for an inode that no other entry in use is for.
IsTable-update :
    (inodes : ℕ → Inode) (i : ℕ) (v : Inode)
    → IsTable inodes
    → v.ref + 1 < 2 ^ 31
    → ((j : ℕ)
        → j < ninode
        → i ≢ j
        → 0 < (inodes j).ref
        → (inodes j).dev ≡ v.dev
        → (inodes j).inum ≢ v.inum)
    → IsTable (update inodes i v)
IsTable-update inodes i v t small apart = record {
  once = λ a b ha hb ua ub ed ei. elim (ℕ_discrete i a) [
    | yes ia ↦ elim (ℕ_discrete i b) [
      | yes ib ↦ sym ia ∙ ib
      | no ib ↦ absurd (
          apart b hb ib (subst (λ x. 0 < x.ref) (other b ib) ub)
            (sym (ap (λ x. x.dev) (other b ib)) ∙ sym ed ∙ ap (λ x. x.dev) (here a ia))
            (sym (ap (λ x. x.inum) (other b ib)) ∙ sym ei ∙ ap (λ x. x.inum) (here a ia)))
    ]
    | no ia ↦ elim (ℕ_discrete i b) [
      | yes ib ↦ absurd (
          apart a ha ia (subst (λ x. 0 < x.ref) (other a ia) ua)
            (sym (ap (λ x. x.dev) (other a ia)) ∙ ed ∙ ap (λ x. x.dev) (here b ib))
            (sym (ap (λ x. x.inum) (other a ia)) ∙ ei ∙ ap (λ x. x.inum) (here b ib)))
      | no ib ↦
          t.once a b ha hb (subst (λ x. 0 < x.ref) (other a ia) ua)
            (subst (λ x. 0 < x.ref) (other b ib) ub)
            (sym (ap (λ x. x.dev) (other a ia)) ∙ ed ∙ ap (λ x. x.dev) (other b ib))
            (sym (ap (λ x. x.inum) (other a ia)) ∙ ei ∙ ap (λ x. x.inum) (other b ib))
    ]
  ];
  small = λ a h. elim (ℕ_discrete i a) [
    | yes ia ↦ subst (λ x. x.ref + 1 < 2 ^ 31) (sym (here a ia)) small
    | no ia ↦ subst (λ x. x.ref + 1 < 2 ^ 31) (sym (other a ia)) (t.small a h)
  ];
}
  where
    here : (a : ℕ) → i ≡ a → update inodes i v a ≡ v
    here a e = subst (λ a. update inodes i v a ≡ v) e (update-same inodes i v)

    other : (a : ℕ) → i ≢ a → update inodes i v a ≡ inodes a
    other a ne = update-other inodes i v a ne

-- What `iget` has done: entry `i` has the inode and one more reference.
pub record Got (dev inum : ℕ) (s s' : Icache) (i : ℕ) : Type 0 where
  pub inside : i < ninode
  pub is_dev : (s'.inodes i).dev ≡ dev
  pub is_inum : (s'.inodes i).inum ≡ inum
  pub counted : (s'.inodes i).ref ≡ (s.inodes i).ref + 1
  pub loaded :
      0 < (s.inodes i).ref → (s'.inodes i ≡ record (s.inodes i) { ref = (s.inodes i).ref + 1 })
  pub fresh : (s.inodes i).ref ≡ 0 → (s'.inodes i).valid ≡ false
  pub others : (j : ℕ) → i ≢ j → s'.inodes j ≡ s.inodes j
  pub same_disk : s'.disk ≡ s.disk
  pub table : (s.inodes i).ref + 2 < 2 ^ 31 → IsTable s'.inodes

abbrev pub Iget : ℕ → ℕ → Icache → Outcome (ℕ × Icache) → Type 0
Iget dev inum s panic =
    (j : ℕ) → j < ninode → ((s.inodes j).ref ≢ 0) × (is_inode dev inum (s.inodes j) ≡ false)
Iget dev inum s (done (i, s')) = Got dev inum s s' i

Iget-found :
    (dev inum : ℕ) (s : Icache) (e : Entry)
    → IsTable s.inodes
    → Searched dev inum s.inodes ninode 0 none e
    → Iget dev inum s (iget_found dev inum e s)
unfolding iget_found Searched Empties
Iget-found dev inum s (absent none) table (none_hit, (e, used)) =
    λ j h. (used j (omega arith) (omega arith), none_hit j (omega arith) (omega arith))
Iget-found dev inum s (absent (some i)) table (none_hit, inl e) = absurd (ground (arith, e))
Iget-found dev inum s (absent (some i)) table (none_hit, inr (lo, hi, z)) =
    let v = record (s.inodes i) { dev = dev; inum = inum; ref = 1; valid = false } in
    let at_i = update-same s.inodes i v in
    record {
      inside = omega arith;
      is_dev = ap (λ x. x.dev) at_i;
      is_inum = ap (λ x. x.inum) at_i;
      counted = ap (λ x. x.ref) at_i ∙ omega (arith, z);
      loaded = λ used. absurd (omega (arith, z, used));
      fresh = λ _. ap (λ x. x.valid) at_i;
      others = λ j ne. update-other s.inodes i v j ne;
      same_disk = refl;
      table = λ _. IsTable-update s.inodes i v table (omega arith) (λ j h ne used e f.
          ground (arith, none_hit j (omega arith) (omega arith), used, e, f, table.small j h));
    }
Iget-found dev inum s (cached i) table (lo, hi, hit) =
    let v = record (s.inodes i) { ref = u32 ((s.inodes i).ref + 1) } in
    let at_i = update-same s.inodes i v in
    let no_wrap : u32 ((s.inodes i).ref + 1) ≡ (s.inodes i).ref + 1 =
      omega (arith, table.small i (omega arith)) in
    let used : 0 < (s.inodes i).ref = ground (arith, hit) in
    let (e, f) : ((s.inodes i).dev ≡ dev) × ((s.inodes i).inum ≡ inum) = ground (arith, hit) in
    record {
      inside = omega arith;
      is_dev = ap (λ x. x.dev) at_i ∙ e;
      is_inum = ap (λ x. x.inum) at_i ∙ f;
      counted = ap (λ x. x.ref) at_i ∙ no_wrap;
      loaded = λ _. at_i ∙ ap (λ n. record (s.inodes i) { ref = n }) no_wrap;
      fresh = λ z. absurd (omega (arith, z, used));
      others = λ j ne. update-other s.inodes i v j ne;
      same_disk = refl;
      table = λ small.
          IsTable-update s.inodes i v table (omega (arith, small, no_wrap)) (λ j h ne used' e' f'.
            ne (table.once i j (omega arith) h used used' (sym e') (sym f')));
    }

-- With at most one entry in use for each inode: `iget` panics only if all entries are in use, none
-- for the inode. Otherwise its entry is for the inode and has one more reference, is as it was if
-- it was in use and not read from the disk if it was not; the others are as before, and each inode
-- has at most one entry still, unless the count gets near its greatest value.
pub iget_lem : (dev inum : ℕ) (s : Icache) → IsTable s.inodes → Iget dev inum s (iget dev inum s)
unfolding iget
iget_lem dev inum s table =
    Iget-found dev inum s (find_inode dev inum s.inodes ninode 0 none) table
      (find_inode-Searched dev inum s.inodes ninode 0 none)
