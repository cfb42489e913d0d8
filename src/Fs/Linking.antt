-- ===== src/Fs/Linking.antt =====
-- fs.c: an entry that `dirlink` writes, found by `dirlookup`.
use test_ascii.Common.{
  ℕ, ◌+◌, ◌-◌, ◌*◌, ◌%◌, ◌^◌, ◌≡◌, ◌≢◌, ◌<◌, ◌≤◌, refl, sym, ◌∙◌, ap, ap₂, subst, arith, true,
  false, not, Option, some, ltb, leb, ◌&&◌, ◌==◌, if◌then◌else◌, if_lem, Outcome, done, panic,
  ◌>>=◌, minus_one,
}
use test_ascii.Strings.{strncmp}
use test_ascii.Strings.Compare.{AgreeAsStrings, strncmp_iff}
use test_ascii.Strings.Pad.{strncpy_lem, strncpy-bytes}
use test_ascii.Fs.{Superblock, Disk, bsize, maxfile}
use test_ascii.Fs.Inode.{Inode}
use test_ascii.Fs.Slots.{contents, IsFile, Frame-trans}
use test_ascii.Fs.ReadLoop.{contents-Kept}
use test_ascii.Common.Arrays.{update-same}
use test_ascii.Fs.Io.{Devsw, writei, t_dir}
use test_ascii.Fs.Icache.{Icache, set_inode}
use test_ascii.Fs.Dirs.{
  dirent_size, dirent_inum, two_names, namecmp, is_entry, scan_dir, new_name, new_dirent,
  dir_append,
}
use test_ascii.Fs.ScanDir.{dirent_at, IsLocal, is_entry-IsLocal, Scanned, scan_dir-Scanned}
use test_ascii.Fs.Looking.{Looked}
use test_ascii.Fs.Slots.{Kept}
use test_ascii.Fs.WriteLoop.{Filled}
use test_ascii.Fs.Writing.{WriteSpec, is_refused, file_written, file_bytes, writei_refines}

module _ (name : ℕ → ℕ) (inum : ℕ) (bytes : (i : ℕ) → name i < 256) where
  names-bytes : (t : ℕ → ℕ) → ((i : ℕ) → t i < 256) → (a : ℕ) → two_names name t a < 256
  names-bytes t h a = ground (arith, bytes a, h (a - 14))

  new_name-bytes : (i : ℕ) → new_name name i < 256
  unfolding new_name
  new_name-bytes i =
      strncpy-bytes 14 14 0 (two_names name (λ _. 0)) (names-bytes (λ _. 0) (λ _. omega arith))
        (14 + i)

  new_dirent-bytes : (j : ℕ) → new_dirent name inum j < 256
  unfolding new_dirent
  new_dirent-bytes j = ground (arith, new_name-bytes (j - 2))

  first : (t : ℕ → ℕ) (i : ℕ) → i < 14 → two_names name t (0 + i) ≡ name i
  first t i h = ground (arith, ap name (zero_plus i))
    where
      zero_plus : (i : ℕ) → 0 + i ≡ i
      zero_plus i = omega arith

  second : (t : ℕ → ℕ) (i : ℕ) → i < 14 → two_names name t (14 + i) ≡ t i
  second t i h = ground (arith, ap t (drop i))
    where
      drop : (i : ℕ) → 14 + i - 14 ≡ i
      drop i = omega arith

  new_name-char : (i : ℕ) → i < 14 → ((j : ℕ) → j < i → name j ≢ 0) → new_name name i ≡ name i
  unfolding new_name
  new_name-char i lt no_nul =
      strncpy_lem 14 14 0 i (two_names name (λ _. 0)) (omega arith) lt
        (λ j h z. no_nul j h (sym (first (λ _. 0) j (omega arith)) ∙ z))
      ∙ first (λ _. 0) i lt

  new_dirent-char : (i : ℕ) → new_dirent name inum (i + 2) ≡ new_name name i
  unfolding new_dirent
  new_dirent-char i = ground (arith, ap (new_name name) (back i))
    where
      back : (i : ℕ) → i + 2 - 2 ≡ i
      back i = omega arith

  -- The copy of the name agrees with it.
  new_dirent-AgreeAsStrings :
      AgreeAsStrings (two_names name (λ i. new_dirent name inum (i + 2))) 0 14 14
  new_dirent-AgreeAsStrings i lt no_nul =
      let X : ℕ → ℕ = λ i. new_dirent name inum (i + 2) in
      first X i lt
      ∙ sym (new_name-char i lt (λ j h z. no_nul j h (first X j (omega arith) ∙ z)))
      ∙ sym (new_dirent-char i)
      ∙ sym (second X i lt)

  new_dirent-inum : inum < 2 ^ 16 → dirent_inum (new_dirent name inum) ≡ inum
  unfolding new_dirent
  new_dirent-inum small = omega (arith, small)

  new_dirent-is_entry : inum ≢ 0 → inum < 2 ^ 16 → is_entry name (new_dirent name inum) ≡ true
  unfolding is_entry namecmp
  new_dirent-is_entry ne small =
      let X : ℕ → ℕ = λ i. new_dirent name inum (i + 2) in
      let same : strncmp 0 14 14 (two_names name X) ≡ 0 =
        (strncmp_iff (two_names name X) (names-bytes X (λ i. new_dirent-bytes (i + 2))) 0 14 14).1
          new_dirent-AgreeAsStrings in
      ap₂ (λ a b. not (a == 0) && b == 0) (new_dirent-inum small) same ∙ ground (arith, ne)

is_free-IsLocal : IsLocal (λ e. dirent_inum e == 0)
is_free-IsLocal e e' same =
    ap (λ n. n == 0) (ap₂ (λ a b. a + 256 * b) (same 0 (omega arith)) (same 1 (omega arith)))

module _ (sb : Superblock) (devsw : Devsw) (name : ℕ → ℕ) (inum : ℕ) where
  -- The name is not in the directory.
  abbrev pub IsNew : Inode → Disk → Type 0
  IsNew dp d = (k : ℕ) → k < dp.size → k % 16 ≡ 0 → is_entry name (dirent_at dp d k) ≡ false

  -- The bytes of the directory once the entry is written at `off`.
  pub record Written (dp : Inode) (d : Disk) (dp' : Inode) (d' : Disk) (off : ℕ) : Type 0 where
    pub inside : off ≤ dp.size
    pub aligned : off % 16 ≡ 0
    pub size : dp'.size ≡ (if ltb dp.size (off + 16) then off + 16 else dp.size)
    pub bytes :
        (o : ℕ)
        → o < 71680
        → contents dp' d' o ≡ (
            if leb off o && ltb o (off + 16)
            then new_dirent name inum (o - off)
            else contents dp d o)

  Looked-Written :
      (dp : Inode) (d : Disk) (dp' : Inode) (d' : Disk) (off : ℕ)
      → dp.size + 16 ≤ 71680
      → inum ≢ 0
      → inum < 2 ^ 16
      → ((i : ℕ) → name i < 256)
      → IsNew dp d
      → Written dp d dp' d' off
      → Looked sb devsw name dp' d' off (some inum)
  Looked-Written dp d dp' d' off room ne small bytes is_new w = record {
    before = λ k lt a.
        is_entry-IsLocal name (dirent_at dp' d' k) (dirent_at dp d k) (λ j h. old k j lt a h)
        ∙ is_new k (omega (arith, lt, w.inside)) a;
    absent = λ e. absurd (ground (arith, e));
    present = λ n e. (
      ground (arith, w.size, w.inside),
      is_entry-IsLocal name (dirent_at dp' d' off) (new_dirent name inum) new
          ∙ new_dirent-is_entry name inum bytes ne small,
      ground (arith, e)
          ∙ sym (new_dirent-inum name inum bytes small)
          ∙ sym (ap₂ (λ a b. a + 256 * b) (new 0 (omega arith)) (new 1 (omega arith))),
    );
  }
    where
      old :
          (k j : ℕ)
          → k < off
          → k % 16 ≡ 0
          → j < 16
          → contents dp' d' (k + j) ≡ contents dp d (k + j)
      old k j lt a h =
          w.bytes (k + j) (omega (arith, lt, h, w.inside, room))
          ∙ ground (arith, lt, a, h, w.aligned)

      new : (j : ℕ) → j < 16 → contents dp' d' (off + j) ≡ new_dirent name inum j
      new j h =
          w.bytes (off + j) (omega (arith, h, w.inside, room))
          ∙ ground (arith, h, ap (new_dirent name inum) (back j))
        where
          back : (j : ℕ) → off + j - off ≡ j
          back j = omega arith

  -- What adding an entry comes to.
  abbrev pub Appended : ℕ → Icache → Outcome (ℕ × Icache) → Type 0
  Appended dp s panic = Filled sb (s.inodes dp) s.disk
  Appended dp s (done (r, s')) =
      (r ≡ 0)
      × IsFile sb (s'.inodes dp) s'.disk
      × ((off : ℕ) × Looked sb devsw name (s'.inodes dp) s'.disk off (some inum))

  -- A write of an entry is not refused.
  entry_written :
      (size off : ℕ) (old : ℕ → ℕ) (r size' : ℕ) (new : ℕ → ℕ)
      → size + 16 ≤ 71680
      → off ≤ size
      → (r, (size', new)) ≡ file_written sb size old (new_dirent name inum) off 16
      → (r ≡ 16)
        × (size' ≡ (if ltb size (off + 16) then off + 16 else size))
        × ((o : ℕ)
            → new o
              ≡ (if leb off o && ltb o (off + 16) then new_dirent name inum (o - off) else old o))
  entry_written size off old r size' new room inside e =
      let accepted : is_refused sb size off 16 ≡ false = ground (arith, room, inside) in
      let got =
        e
        ∙ ap
            (λ b. if b then (minus_one, (size, old)) else (
              16,
              (
                (if ltb size (off + 16) then off + 16 else size),
                λ o.
                    if leb off o && ltb o (off + 16) then new_dirent name inum (o - off) else old o,
              ),
            ))
            accepted in
      (
        ap (λ (p : ℕ × (ℕ × (ℕ → ℕ))). p.0) got,
        ap (λ (p : ℕ × (ℕ × (ℕ → ℕ))). p.1.0) got,
        λ o. ap (λ (p : ℕ × (ℕ × (ℕ → ℕ))). p.1.1 o) got,
      )

  file_bytes-inside :
      (ip : Inode) (d : Disk) (o : ℕ) → o < 71680 → file_bytes sb ip d o ≡ contents ip d o
  file_bytes-inside ip d o h = ground (arith, h)

  Appended-write :
      (dp : ℕ) (s : Icache) (off : ℕ) (ip : Inode) (d : Disk)
      (o : Outcome (ℕ × ((ℕ → ℕ) × (Inode × Disk))))
      → (s.inodes dp).size + 16 ≤ 71680
      → inum ≢ 0
      → inum < 2 ^ 16
      → ((i : ℕ) → name i < 256)
      → IsNew (s.inodes dp) s.disk
      → Kept sb (s.inodes dp) s.disk ip d
      → off ≤ (s.inodes dp).size
      → off % 16 ≡ 0
      → WriteSpec sb ip d (new_dirent name inum) off 16 o
      → Appended dp s (
          o >>= λ (r, (_, (ip', d'))).
          if not (r == dirent_size)
          then panic
          else done (0, set_inode dp ip' (record s { disk = d' })))
  Appended-write dp s off ip d panic room ne small bytes is_new kept inside aligned
        (ip', d', file, frame, full) =
      (ip', d', file, Frame-trans sb kept.frame frame, full)
  Appended-write dp s off ip d (done (r, (src, (ip', d')))) room ne small bytes is_new kept inside
        aligned (file, frame, e) =
      let (whole, size, value) =
        entry_written ip.size off (file_bytes sb ip d) r ip'.size (file_bytes sb ip' d')
          (omega (arith, room, kept.same_size)) (omega (arith, inside, kept.same_size)) e in
      if_lem (Appended dp s) (not (r == dirent_size))
        (λ short. absurd (ground (arith, short, whole)))
        (λ _. (
          refl,
          subst (λ x. IsFile sb x d') (sym (update-same s.inodes dp ip')) file,
          (
            off,
            subst (λ x. Looked sb devsw name x d' off (some inum))
                (sym (update-same s.inodes dp ip'))
                (Looked-Written (s.inodes dp) s.disk ip' d' off room ne small bytes is_new (record {
                  inside = inside;
                  aligned = aligned;
                  size = size ∙ ap (λ n. if ltb n (off + 16) then off + 16 else n) kept.same_size;
                  bytes = λ o h.
                      sym (file_bytes-inside ip' d' o h)
                      ∙ value o
                      ∙ ap
                          (λ c.
                            if leb off o && ltb o (off + 16)
                            then new_dirent name inum (o - off)
                            else c)
                          (file_bytes-inside ip d o h ∙ contents-Kept sb o kept h);
                })),
          ),
        ))

  -- `dirlink`, once the name is known to be new, in a directory of whole entries with room for one
  -- more: it panics only if the disk runs full. Otherwise it returns 0, the directory is still a
  -- file, and the search of `dirlookup` has an entry of the name to find, the first one, with the
  -- inode's number.
  pub dir_append_lem :
      (dp : ℕ) (de : ℕ → ℕ) (s : Icache)
      → IsFile sb (s.inodes dp) s.disk
      → (s.inodes dp).type ≡ t_dir
      → (s.inodes dp).size % dirent_size ≡ 0
      → (s.inodes dp).size + dirent_size ≤ maxfile * bsize
      → inum ≢ 0
      → inum < 2 ^ 16
      → ((i : ℕ) → name i < 256)
      → IsNew (s.inodes dp) s.disk
      → Appended dp s (dir_append sb devsw dp name inum de s)
  unfolding dir_append Scanned
  dir_append_lem dp de s file dir even room ne small bytes is_new =
      let ip = s.inodes dp in
      by_scan (scan_dir sb devsw (λ e. dirent_inum e == 0) ip.size 0 de ip s.disk) (
        scan_dir-Scanned sb devsw (λ e. dirent_inum e == 0) ip.size 0 de ip s.disk is_free-IsLocal
          file (λ e. absurd (omega (arith, e, dir))) (omega (arith, room)) even (omega arith) refl
          (omega arith))
    where
      by_scan :
          (o : Outcome ((ℕ × Option (ℕ → ℕ)) × (Inode × Disk)))
          → Scanned sb devsw (λ e. dirent_inum e == 0) (s.inodes dp) s.disk 0 o
          → Appended dp s (
              o >>= λ ((off, _), (ip, d)).
              writei sb devsw ip (new_dirent name inum) off dirent_size d >>= λ (r, (_, (ip', d'))).
              if not (r == dirent_size)
              then panic
              else done (0, set_inode dp ip' (record s { disk = d' })))
      by_scan panic (ip', d', file', kept, full) = (ip', d', file', kept.frame, full)
      by_scan (done ((off, o), (ip, d))) (file', kept, f) =
          Appended-write dp s off ip d (writei sb devsw ip (new_dirent name inum) off 16 d) room ne
            small bytes is_new kept f.within f.aligned
            (writei_refines sb devsw ip (new_dirent name inum) off 16 d file'
              (λ e. absurd (omega (arith, sym e ∙ kept.frame.same_type ∙ dir)))
              (omega (arith, f.within, room)) (omega arith) (new_dirent-bytes name inum bytes))
