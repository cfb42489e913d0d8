-- ===== src/Fs/WriteLoop.antt =====
-- fs.c: the loop of `writei`.
use test_ascii.Common.{
  ℕ, zero, suc, ◌+◌, ◌-◌, ◌*◌, ◌/◌, ◌%◌, ◌≡◌, ◌<◌, ◌≤◌, refl, ◌∙◌, ap, subst, arith, true, ltb, leb,
  ◌&&◌, ltb→lt, ltb→le, if◌then◌else◌, if_lem, min, Outcome, done, panic, ◌>>=◌,
}
use test_ascii.Fs.{Superblock, Disk, bsize}
use test_ascii.Fs.Map.{in_use}
use test_ascii.Fs.Inode.{Inode, bmap}
use test_ascii.Fs.Slots.{contents, IsFile, Frame, Frame-refl, Frame-trans}
use test_ascii.Fs.Bmap.{Mapped, bmap_lem}
use test_ascii.Fs.Touch.{IsFile-Touched, Frame-Touched}
use test_ascii.Fs.Io.{fill, write_loop}
use test_ascii.Fs.ReadLoop.{contents-Kept}
use test_ascii.Fs.Chunk.{fill-Touched, contents-fill}

whole : (off : ℕ) → off / 512 * 512 + off % 512 ≡ off
whole off = omega arith

module _ (sb : Superblock) where
  -- The disk ran full while the file's bytes were written.
  abbrev pub Filled : Inode → Disk → Type 0
  Filled ip d =
      (ip' : Inode) × (d' : Disk) × IsFile sb ip' d'
      × Frame sb ip d ip' d'
      × ((c : ℕ) → c < sb.size → in_use sb d' c ≡ true)

  -- What the loop comes to, for the bytes at `tot` to `n` of the memory, to be written from `off` on.
  unfoldable pub Writes : Inode → Disk → ℕ → ℕ → ℕ → (ℕ → ℕ) → Outcome (ℕ × (Inode × Disk)) → Type 0
  Writes ip d off tot n src panic = Filled ip d
  Writes ip d off tot n src (done (off', (ip', d'))) =
      (off' ≡ off + (n - tot))
      × IsFile sb ip' d'
      × Frame sb ip d ip' d'
      × (ip'.size ≡ ip.size)
      × ((o : ℕ)
          → o < 71680
          → contents ip' d' o ≡ (
              if leb off o && ltb o (off + (n - tot))
              then src (tot + (o - off))
              else contents ip d o))

  Writes-pass :
      {ip : Inode} {d : Disk} {ip' : Inode} {d' : Disk} (off tot n m : ℕ) (src : ℕ → ℕ)
      (o : Outcome (ℕ × (Inode × Disk)))
      → Frame sb ip d ip' d'
      → ip'.size ≡ ip.size
      → tot + m ≤ n
      → ((i : ℕ)
          → i < 71680
          → contents ip' d' i
            ≡ (if leb off i && ltb i (off + m) then src (tot + (i - off)) else contents ip d i))
      → Writes ip' d' (off + m) (tot + m) n src o
      → Writes ip d off tot n src o
  unfolding Writes
  Writes-pass off tot n m src panic frame size le got (ip'', d'', file, frame', full) =
      (ip'', d'', file, Frame-trans sb frame frame', full)
  Writes-pass {ip = ip} {d = d} {ip' = ip'} {d' = d'} off tot n m src (done (off', (ip'', d'')))
        frame size le got (end, file, frame', size', value) =
      (
        end ∙ omega arith,
        file,
        Frame-trans sb frame frame',
        size' ∙ size,
        λ i h. value i h ∙ both i (got i h) (same_place i),
      )
    where
      same_place : (i : ℕ) → off + m ≤ i → src (tot + m + (i - (off + m))) ≡ src (tot + (i - off))
      same_place i h = ap src (place i h)
        where
          place : (i : ℕ) → off + m ≤ i → tot + m + (i - (off + m)) ≡ tot + (i - off)
          place i h = omega arith

      both :
          (i : ℕ)
          → contents ip' d' i
            ≡ (if leb off i && ltb i (off + m) then src (tot + (i - off)) else contents ip d i)
          → (off + m ≤ i → src (tot + m + (i - (off + m))) ≡ src (tot + (i - off)))
          → (if leb (off + m) i && ltb i (off + m + (n - (tot + m)))
              then src (tot + m + (i - (off + m)))
              else contents ip' d' i)
            ≡ (if leb off i && ltb i (off + (n - tot))
                then src (tot + (i - off))
                else contents ip d i)
      both i got same = ground (arith, got, same)

  Writes-Mapped :
      (fuel tot n off : ℕ) (src : ℕ → ℕ) (ip : Inode) (d : Disk) (o : Outcome (ℕ × (Inode × Disk)))
      → Mapped sb ip d (off / 512) o
      → tot < n
      → off + (n - tot) ≤ 71680
      → ((i : ℕ) → src i < 256)
      → ((tot' off' : ℕ) (ip' : Inode) (d' : Disk)
          → IsFile sb ip' d'
          → tot < tot'
          → off' + (n - tot') ≤ 71680
          → Writes ip' d' off' tot' n src (write_loop sb fuel tot' n off' src ip' d'))
      → Writes ip d off tot n src (
          o >>= λ (addr, (ip', d')).
          let m = min (n - tot) (bsize - off % bsize) in
          write_loop sb fuel (tot + m) n (off + m) src ip' (fill addr (off % bsize) src tot m d'))
  unfolding Writes
  Writes-Mapped fuel tot n off src ip d panic (ip', d', file, kept, full) lt small bytes rest =
      (ip', d', file, kept.frame, full)
  Writes-Mapped fuel tot n off src ip d (done (addr, (ip', d'))) (file', kept, here, ne) lt small
        bytes rest =
      let m = min (n - tot) (bsize - off % bsize) in
      let d'' = fill addr (off % bsize) src tot m d' in
      let p =
        fill-Touched sb ip' d' (off / 512) addr (off % 512) tot m src file' (omega arith) here ne
          bytes in
      Writes-pass off tot n m src (write_loop sb fuel (tot + m) n (off + m) src ip' d'')
        (Frame-trans sb kept.frame (Frame-Touched sb p refl)) kept.same_size (omega arith)
        (λ i h.
          subst
            (λ a.
              contents ip' d'' i
              ≡ (if leb a i && ltb i (a + m) then src (tot + (i - a)) else contents ip' d' i))
            (whole off)
            (contents-fill sb ip' d' (off / 512) addr (off % 512) tot m src file' (omega arith) here
              ne (omega arith) bytes i h)
          ∙ ap (λ c. if leb off i && ltb i (off + m) then src (tot + (i - off)) else c)
              (contents-Kept sb i kept h))
        (rest (tot + m) (off + m) ip' d'' (IsFile-Touched sb p) (omega arith) (omega arith))

  pub write_loop-Writes :
      (fuel tot n off : ℕ) (src : ℕ → ℕ) (ip : Inode) (d : Disk)
      → IsFile sb ip d
      → n ≤ tot + fuel
      → off + (n - tot) ≤ 71680
      → ((i : ℕ) → src i < 256)
      → Writes ip d off tot n src (write_loop sb fuel tot n off src ip d)
  unfolding write_loop Writes
  write_loop-Writes zero tot n off src ip d file enough small bytes =
      (omega arith, file, Frame-refl sb ip d, refl, λ o h. ground arith)
  write_loop-Writes (suc fuel) tot n off src ip d file enough small bytes =
      if_lem (Writes ip d off tot n src) (ltb tot n)
        (λ lt.
          Writes-Mapped fuel tot n off src ip d (bmap sb ip (off / bsize) d)
            (bmap_lem sb ip d (off / bsize) file (omega (arith, ltb→lt tot n lt, small)))
            (ltb→lt tot n lt) small bytes
            (λ tot' off' ip' d' file' more small'.
              write_loop-Writes fuel tot' n off' src ip' d' file' (omega arith) small' bytes))
        (λ ge.
          (omega (arith, ltb→le tot n ge), file, Frame-refl sb ip d, refl, λ o h. ground arith))
