-- ===== src/Fs/ScanDir.antt =====
-- fs.c: the loop over the entries of a directory.
use test_ascii.Common.{
  ℕ, zero, suc, ◌+◌, ◌-◌, ◌*◌, ◌%◌, ◌≡◌, ◌≢◌, ◌<◌, ◌≤◌, sym, ◌∙◌, ap, ap₂, subst, arith, Bool, true,
  false, not, Option, none, some, ltb, ltb→lt, ltb→le, ◌&&◌, ◌==◌, if◌then◌else◌, if_lem, Outcome,
  done, panic, ◌>>=◌, fun_ext,
}
use test_ascii.Strings.{strncmp}
use native.Mathlib.Decide.{ℕ_discrete, dec_lt}
use test_ascii.Fs.{Superblock, Disk}
use test_ascii.Fs.Inode.{Inode}
use test_ascii.Fs.Slots.{contents, IsFile, Kept, Kept-refl, Kept-trans}
use test_ascii.Fs.Addrs.{Full, Full-Kept}
use test_ascii.Fs.Io.{Devsw, readi, t_dev}
use test_ascii.Fs.ReadLoop.{contents-Kept}
use test_ascii.Fs.Reading.{ReadSpec, readi_refines, file_read, file_read-false}
use test_ascii.Fs.Dirs.{dirsiz, dirent_size, two_names, namecmp, is_entry, scan_dir}

-- The entry at an offset of a directory.
abbrev pub dirent_at : Inode → Disk → ℕ → ℕ → ℕ
dirent_at dp d off j = contents dp d (off + j)

-- A test of an entry that reads its bytes only.
abbrev pub IsLocal : ((ℕ → ℕ) → Bool) → Type 0
IsLocal test = (e e' : ℕ → ℕ) → ((j : ℕ) → j < 16 → e j ≡ e' j) → test e ≡ test e'

pub is_entry-IsLocal : (name : ℕ → ℕ) → IsLocal (is_entry name)
unfolding is_entry namecmp
is_entry-IsLocal name e e' same =
    ap₂ (λ n t. not (n == 0) && strncmp 0 dirsiz dirsiz t == 0)
      (ap₂ (λ a b. a + 256 * b) (same 0 (omega arith)) (same 1 (omega arith)))
      (fun_ext (λ a. byte a))
  where
    byte : (a : ℕ) → two_names name (λ i. e (i + 2)) a ≡ two_names name (λ i. e' (i + 2)) a
    byte a = elim (dec_lt a 28) [
      | yes lt ↦ elim (dec_lt a 14) [
        | yes first ↦ ground arith
        | no second ↦ ground (arith, same (a - 14 + 2) (omega arith))
      ]
      | no ge ↦ ground arith
    ]

some_inj : (f g : ℕ → ℕ) → some f ≡ some g → f ≡ g
some_inj f g e = ap (λ o. or_zero o) e
  where
    or_zero : Option (ℕ → ℕ) → ℕ → ℕ
    or_zero none = λ _. 0
    or_zero (some h) = h

module _ (sb : Superblock) (devsw : Devsw) where
  -- What a scan from `off` on finds in the directory.
  pub record Found (test : (ℕ → ℕ) → Bool) (dp : Inode) (d : Disk) (off at : ℕ) (o : Option (ℕ → ℕ))
      : Type 0 where
    pub from : off ≤ at
    pub within : at ≤ dp.size
    pub aligned : at % 16 ≡ 0
    pub before : (k : ℕ) → off ≤ k → k < at → k % 16 ≡ 0 → test (dirent_at dp d k) ≡ false
    pub here :
        (e : ℕ → ℕ)
        → o ≡ some e
        → (at < dp.size)
          × (test (dirent_at dp d at) ≡ true)
          × ((j : ℕ) → j < 16 → e j ≡ dirent_at dp d at j)
    pub none_left : o ≡ none → at ≡ dp.size

  unfoldable pub Scanned :
      ((ℕ → ℕ) → Bool) → Inode → Disk → ℕ → Outcome ((ℕ × Option (ℕ → ℕ)) × (Inode × Disk)) → Type 0
  Scanned test dp d off panic = Full sb dp d
  Scanned test dp d off (done ((at, o), (dp', d'))) =
      IsFile sb dp' d' × Kept sb dp d dp' d' × Found test dp d off at o

  Scanned-next :
      (test : (ℕ → ℕ) → Bool) (dp : Inode) (d : Disk) (off : ℕ) (dp' : Inode) (d' : Disk)
      (o : Outcome ((ℕ × Option (ℕ → ℕ)) × (Inode × Disk)))
      → IsLocal test
      → Kept sb dp d dp' d'
      → dp.size ≤ 71680
      → dp.size % 16 ≡ 0
      → off < dp.size
      → off % 16 ≡ 0
      → test (dirent_at dp d off) ≡ false
      → Scanned test dp' d' (off + 16) o
      → Scanned test dp d off o
  unfolding Scanned
  Scanned-next test dp d off dp' d' panic local kept small even lt aligned miss full =
      Full-Kept sb kept full
  Scanned-next test dp d off dp' d' (done ((at, o), (dp'', d''))) local kept small even lt aligned
        miss (file, kept', f) =
      (
        file,
        Kept-trans sb kept kept',
        record {
          from = omega (arith, f.from);
          within = omega (arith, f.within, kept.same_size);
          aligned = f.aligned;
          before = λ k lo hi a. elim (ℕ_discrete off k) [
            | yes e ↦ subst (λ k. test (dirent_at dp d k) ≡ false) e miss
            | no ne ↦
                same k (omega (arith, hi, f.within, a, even, kept.same_size))
                ∙ f.before k (omega arith) hi a
          ];
          here = λ e eq.
              let (inside, hit, bytes) = f.here e eq in
              (
                omega (arith, inside, kept.same_size),
                same at (omega (arith, inside, f.aligned, even, kept.same_size)) ∙ hit,
                λ j h.
                    bytes j h
                    ∙ contents-Kept sb (at + j) kept
                        (omega (arith, inside, f.aligned, even, kept.same_size, h, small)),
              );
          none_left = λ eq. f.none_left eq ∙ kept.same_size;
        },
      )
    where
      same : (k : ℕ) → k + 16 ≤ dp.size → test (dirent_at dp d k) ≡ test (dirent_at dp' d' k)
      same k h =
          local (dirent_at dp d k) (dirent_at dp' d' k)
            (λ j l. sym (contents-Kept sb (k + j) kept (omega arith)))

  -- The directory's end.
  Found-end :
      (test : (ℕ → ℕ) → Bool) (dp : Inode) (d : Disk) (off : ℕ)
      → off ≡ dp.size
      → off % 16 ≡ 0
      → Found test dp d off off none
  Found-end test dp d off e aligned = record {
    from = omega arith;
    within = omega (arith, e);
    aligned = aligned;
    before = λ k lo hi a. absurd (omega (arith, lo, hi));
    here = λ b eq. absurd (ground (arith, eq));
    none_left = λ _. e;
  }

  -- A read within the directory.
  entry_read :
      (dp : Inode) (d : Disk) (de : ℕ → ℕ) (off : ℕ) (r : ℕ) (de' : ℕ → ℕ)
      → dp.size % 16 ≡ 0
      → off % 16 ≡ 0
      → off < dp.size
      → dp.size ≤ 71680
      → (r, de') ≡ file_read sb dp.size (contents dp d) de off 16
      → (r ≡ 16) × ((j : ℕ) → j < 16 → de' j ≡ dirent_at dp d off j)
  entry_read dp d de off r de' even aligned lt small e =
      let got =
        e
        ∙ file_read-false sb dp.size (contents dp d) de off 16 16 (ground (arith, lt, small))
            (omega (arith, even, aligned, lt)) in
      (
        ap (λ (p : ℕ × (ℕ → ℕ)). p.0) got,
        λ j h. ap (λ (p : ℕ × (ℕ → ℕ)). p.1 j) got ∙ ground (arith, h),
      )

  Scanned-read :
      (test : (ℕ → ℕ) → Bool) (fuel off : ℕ) (de : ℕ → ℕ) (dp : Inode) (d : Disk)
      (o : Outcome (ℕ × ((ℕ → ℕ) × (Inode × Disk))))
      → IsLocal test
      → dp.size ≤ 71680
      → dp.size % 16 ≡ 0
      → off < dp.size
      → off % 16 ≡ 0
      → ReadSpec sb dp d de off 16 o
      → ((de' : ℕ → ℕ) (dp' : Inode) (d' : Disk)
          → IsFile sb dp' d'
          → Kept sb dp d dp' d'
          → Scanned test dp' d' (off + 16) (scan_dir sb devsw test fuel (off + 16) de' dp' d'))
      → Scanned test dp d off (
          o >>= λ (r, (de', (dp', d'))).
          if not (r == dirent_size)
          then panic
          else (if test de'
              then done ((off, some de'), (dp', d'))
              else scan_dir sb devsw test fuel (off + dirent_size) de' dp' d'))
  unfolding Scanned
  Scanned-read test fuel off de dp d panic local small even lt aligned full rest = full
  Scanned-read test fuel off de dp d (done (r, (de', (dp', d')))) local small even lt aligned
        (file, kept, e) rest =
      let (whole, bytes) = entry_read dp d de off r de' even aligned lt small e in
      let same : test de' ≡ test (dirent_at dp d off) = local de' (dirent_at dp d off) bytes in
      if_lem (Scanned test dp d off) (not (r == 16))
        (λ short. absurd (ground (arith, short, whole)))
        (λ _.
          if_lem (Scanned test dp d off) (test de')
            (λ hit. (
              file,
              kept,
              record {
                from = omega arith;
                within = omega (arith, lt);
                aligned = aligned;
                before = λ k lo hi a. absurd (omega (arith, lo, hi));
                here = λ b eq. (
                  lt,
                  sym same ∙ hit,
                  λ j h.
                      ground (arith, eq, ap (λ (f : ℕ → ℕ). f j) (some_inj de' b eq)) ∙ bytes j h,
                );
                none_left = λ eq. absurd (ground (arith, eq));
              },
            ))
            (λ miss.
              Scanned-next test dp d off dp' d' (scan_dir sb devsw test fuel (off + 16) de' dp' d')
                local kept small even lt aligned (sym same ∙ miss) (rest de' dp' d' file kept)))

  pub scan_dir-Scanned :
      (test : (ℕ → ℕ) → Bool) (fuel off : ℕ) (de : ℕ → ℕ) (dp : Inode) (d : Disk)
      → IsLocal test
      → IsFile sb dp d
      → dp.type ≢ t_dev
      → dp.size ≤ 71680
      → dp.size % 16 ≡ 0
      → off ≤ dp.size
      → off % 16 ≡ 0
      → dp.size ≤ off + fuel
      → Scanned test dp d off (scan_dir sb devsw test fuel off de dp d)
  unfolding scan_dir Scanned
  scan_dir-Scanned test zero off de dp d local file regular small even le aligned enough =
      (file, Kept-refl sb dp d, Found-end test dp d off (omega arith) aligned)
  scan_dir-Scanned test (suc fuel) off de dp d local file regular small even le aligned enough =
      if_lem (Scanned test dp d off) (ltb off dp.size)
        (λ lt.
          Scanned-read test fuel off de dp d (readi sb devsw dp de off 16 d) local small even
            (ltb→lt off dp.size lt) aligned
            (readi_refines sb devsw dp de off 16 d file regular small (omega (arith, le, small))
              (omega arith))
            (λ de' dp' d' file' kept.
              scan_dir-Scanned test fuel (off + 16) de' dp' d' local file'
                (λ e. regular (sym kept.frame.same_type ∙ e)) (omega (arith, kept.same_size, small))
                (ap (λ n. n % 16) kept.same_size ∙ even)
                (omega (arith, kept.same_size, ltb→lt off dp.size lt, aligned, even))
                (omega (arith, aligned)) (omega (arith, kept.same_size, enough))))
        (λ ge. (
          file,
          Kept-refl sb dp d,
          Found-end test dp d off (omega (arith, le, ltb→le off dp.size ge)) aligned,
        ))
