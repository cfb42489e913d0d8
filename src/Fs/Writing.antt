-- ===== src/Fs/Writing.antt =====
-- fs.c: `writei` as a write of the file's bytes.
use test_ascii.Common.{
  ℕ, ◌+◌, ◌-◌, ◌*◌, ◌^◌, ◌≡◌, ◌≢◌, ◌<◌, refl, sym, ◌∙◌, ap, ap₂, arith, Bool, true, false, ltb, leb,
  ◌&&◌, ◌||◌, ◌==◌, if◌then◌else◌, if_lem, Outcome, done, panic, ◌>>=◌, u32, minus_one, fun_ext,
}
use native.Mathlib.Decide.{dec_lt}
use test_ascii.Fs.{Superblock, Disk, bsize, maxfile}
use test_ascii.Fs.Inode.{Inode}
use test_ascii.Fs.Slots.{contents, IsFile, Frame, Frame-refl, Frame-trans}
use test_ascii.Fs.Touch.{IsFile-Touched, Frame-Touched}
use test_ascii.Fs.Io.{write_loop, grow, writei, Devsw, t_dev}
use test_ascii.Fs.Reading.{out_of_range}
use test_ascii.Fs.Update.{iupdate-Touched, contents-iupdate}
use test_ascii.Fs.WriteLoop.{Filled, Writes, write_loop-Writes}

module _ (sb : Superblock) where
  -- A write that `writei` refuses.
  abbrev pub is_refused : ℕ → ℕ → ℕ → Bool
  is_refused size off n =
      ltb size off || (leb (2 ^ 32) (off + n) || ltb (maxfile * bsize) (off + n))

  -- A write to a file of `size` bytes, as `writei` promises it: count, size, and bytes.
  abbrev pub file_written : ℕ → (ℕ → ℕ) → (ℕ → ℕ) → ℕ → ℕ → ℕ × (ℕ × (ℕ → ℕ))
  file_written size bytes src off n =
      if is_refused size off n then (minus_one, (size, bytes)) else (
        n,
        (
          (if ltb size (off + n) then off + n else size),
          λ o. if leb off o && ltb o (off + n) then src (o - off) else bytes o,
        ),
      )

  -- The bytes within the greatest size.
  abbrev pub file_bytes : Inode → Disk → ℕ → ℕ
  file_bytes ip d o = if ltb o (maxfile * bsize) then contents ip d o else 0

  abbrev pub WriteSpec :
      Inode → Disk → (ℕ → ℕ) → ℕ → ℕ → Outcome (ℕ × ((ℕ → ℕ) × (Inode × Disk))) → Type 0
  WriteSpec ip d src off n panic = Filled sb ip d
  WriteSpec ip d src off n (done (r, (src', (ip', d')))) =
      IsFile sb ip' d'
      × Frame sb ip d ip' d'
      × ((r, (ip'.size, file_bytes ip' d')) ≡ file_written ip.size (file_bytes ip d) src off n)

  -- What the growth of the size comes to.
  Grown : ℕ → ℕ → Inode → Disk → Inode × Disk → Type 0
  Grown n off ip d (ip', d') =
      IsFile sb ip' d'
      × Frame sb ip d ip' d'
      × (ip'.size ≡ (if ltb 0 n && ltb ip.size off then off else ip.size))
      × ((o : ℕ) → o < 71680 → contents ip' d' o ≡ contents ip d o)

  grow-Grown :
      (n off : ℕ) (ip : Inode) (d : Disk) → IsFile sb ip d → Grown n off ip d (grow sb n off ip d)
  unfolding grow Grown
  grow-Grown n off ip d file =
      if_lem (Grown n off ip d) (ltb 0 n && ltb ip.size off)
        (λ h.
          let ip' = record ip { size = off } in
          let p = iupdate-Touched sb ip ip' d file refl (λ k. refl) in
          (
            IsFile-Touched sb p,
            Frame-Touched sb p refl,
            ground (arith, h),
            λ o small. contents-iupdate sb ip ip' d p o small,
          ))
        (λ h. (file, Frame-refl sb ip d, ground (arith, h), λ o small. refl))

  WriteSpec-Grown :
      (ip : Inode) (d : Disk) (src : ℕ → ℕ) (off n off' : ℕ) (ip₁ : Inode) (d₁ : Disk)
      (p : Inode × Disk)
      → is_refused ip.size off n ≡ false
      → Writes sb ip d off 0 n src (done (off', (ip₁, d₁)))
      → Grown n off' ip₁ d₁ p
      → WriteSpec ip d src off n (done (n, (src, p)))
  unfolding Writes Grown
  WriteSpec-Grown ip d src off n off' ip₁ d₁ (ip', d') fits (end, file₁, frame₁, size₁, value)
        (file, frame, size, same) =
      (
        file,
        Frame-trans sb frame₁ frame,
        ap₂ (λ z f. (n, (z, f))) new_size (fun_ext new_byte)
            ∙ sym (
                ap
                  (λ b. if b then (minus_one, (ip.size, file_bytes ip d)) else (
                    n,
                    (
                      (if ltb ip.size (off + n) then off + n else ip.size),
                      λ o.
                          if leb off o && ltb o (off + n) then src (o - off) else file_bytes ip d o,
                    ),
                  ))
                  fits),
      )
    where
      new_size : ip'.size ≡ (if ltb ip.size (off + n) then off + n else ip.size)
      new_size = ground (arith, size, size₁, end, fits)

      new_byte :
          (o : ℕ)
          → file_bytes ip' d' o
            ≡ (if leb off o && ltb o (off + n) then src (o - off) else file_bytes ip d o)
      new_byte o = elim (dec_lt o 71680) [
        | yes small ↦ ground (arith, same o small ∙ value o small)
        | no big ↦ ground (arith, fits)
      ]

  WriteSpec-loop :
      (ip : Inode) (d : Disk) (src : ℕ → ℕ) (off n : ℕ) (o : Outcome (ℕ × (Inode × Disk)))
      → is_refused ip.size off n ≡ false
      → Writes sb ip d off 0 n src o
      → WriteSpec ip d src off n (o >>= λ (off', (ip', d')). done (n, (src, grow sb n off' ip' d')))
  unfolding Writes
  WriteSpec-loop ip d src off n panic fits full = full
  WriteSpec-loop ip d src off n (done (off', (ip₁, d₁))) fits w =
      WriteSpec-Grown ip d src off n off' ip₁ d₁ (grow sb n off' ip₁ d₁) fits w
        (grow-Grown n off' ip₁ d₁ w.1)

  WriteSpec-refused :
      (ip : Inode) (d : Disk) (src : ℕ → ℕ) (off n : ℕ)
      → IsFile sb ip d
      → is_refused ip.size off n ≡ true
      → WriteSpec ip d src off n (done (minus_one, (src, (ip, d))))
  WriteSpec-refused ip d src off n file bad = (
    file,
    Frame-refl sb ip d,
    sym (
        ap
          (λ b. if b then (minus_one, (ip.size, file_bytes ip d)) else (
            n,
            (
              (if ltb ip.size (off + n) then off + n else ip.size),
              λ o. if leb off o && ltb o (off + n) then src (o - off) else file_bytes ip d o,
            ),
          ))
          bad),
  )

  -- `writei` to a file that is no device: it panics only if the disk runs full. Otherwise count,
  -- size and bytes are those of a write of the file's bytes (-1 and no change if the range starts
  -- after the end, wraps around, or goes past the greatest size); the blocks of other files, and of
  -- its block the other inodes, are as before, and what changes is logged.
  pub writei_refines :
      (devsw : Devsw) (ip : Inode) (src : ℕ → ℕ) (off n : ℕ) (d : Disk)
      → IsFile sb ip d
      → ip.type ≢ t_dev
      → off < 2 ^ 32
      → n < 2 ^ 32
      → ((i : ℕ) → src i < 256)
      → WriteSpec ip d src off n (writei sb devsw ip src off n d)
  unfolding writei
  writei_refines devsw ip src off n d file regular lo ln bytes =
      if_lem (WriteSpec ip d src off n) (ip.type == t_dev)
        (λ dev. absurd (ground (arith, regular, dev)))
        (λ _.
          if_lem (WriteSpec ip d src off n) (ltb ip.size off || ltb (u32 (off + n)) off)
            (λ out.
              WriteSpec-refused ip d src off n file
                (ground (arith, out, out_of_range sb ip.size off n lo ln)))
            (λ inside.
              if_lem (WriteSpec ip d src off n) (ltb (maxfile * bsize) (u32 (off + n)))
                (λ long.
                  WriteSpec-refused ip d src off n file
                    (ground (arith, inside, long, out_of_range sb ip.size off n lo ln)))
                (λ fits.
                  WriteSpec-loop ip d src off n (write_loop sb n 0 n off src ip d)
                    (ground (arith, fits, inside, out_of_range sb ip.size off n lo ln))
                    (write_loop-Writes sb n 0 n off src ip d file (omega arith)
                      (ground (arith, fits, inside, out_of_range sb ip.size off n lo ln)) bytes))))
