-- ===== src/Fs/Reading.antt =====
-- fs.c: `readi` as a read of the file's bytes.
use test_ascii.Common.{
  ℕ, ◌+◌, ◌-◌, ◌*◌, ◌^◌, ◌≡◌, ◌≢◌, ◌<◌, ◌≤◌, sym, ◌∙◌, ap, arith, false, ltb, leb, ◌&&◌, ◌||◌, ◌==◌,
  if◌then◌else◌, if_lem, min, Outcome, done, panic, ◌>>=◌, u32, minus_one, fun_ext,
}
use test_ascii.Fs.{Superblock, Disk, bsize, maxfile}
use test_ascii.Fs.Inode.{Inode}
use test_ascii.Fs.Slots.{contents, IsFile, Kept, Kept-refl}
use test_ascii.Fs.Addrs.{Full}
use test_ascii.Fs.Io.{read_loop, read_bytes, readi, Devsw, t_dev}
use test_ascii.Fs.ReadLoop.{Reads, read_loop-Reads}

module _ (sb : Superblock) where
  -- A read of a file of `size` bytes, as `readi` promises it: the count, and the memory.
  abbrev pub file_read : ℕ → (ℕ → ℕ) → (ℕ → ℕ) → ℕ → ℕ → ℕ × (ℕ → ℕ)
  file_read size bytes dst off n =
      if ltb size off || leb (2 ^ 32) (off + n)
      then (minus_one, dst)
      else (let count = min n (size - off) in
          (count, λ j. if ltb j count then bytes (off + j) else dst j))

  abbrev pub ReadSpec :
      Inode → Disk → (ℕ → ℕ) → ℕ → ℕ → Outcome (ℕ × ((ℕ → ℕ) × (Inode × Disk))) → Type 0
  ReadSpec ip d dst off n panic = Full sb ip d
  ReadSpec ip d dst off n (done (r, (dst', (ip', d')))) =
      IsFile sb ip' d'
      × Kept sb ip d ip' d'
      × ((r, dst') ≡ file_read ip.size (contents ip d) dst off n)

  from_zero :
      (f : ℕ → ℕ) (off j count x : ℕ)
      → (if leb 0 j && ltb j count then f (off + (j - 0)) else x)
        ≡ (if ltb j count then f (off + j) else x)
  from_zero f off j count x = ground arith

  ReadSpec-bytes :
      (ip : Inode) (d : Disk) (dst : ℕ → ℕ) (off n count : ℕ)
      (o : Outcome ((ℕ → ℕ) × (Inode × Disk)))
      → file_read ip.size (contents ip d) dst off n
        ≡ (count, λ j. if ltb j count then contents ip d (off + j) else dst j)
      → Reads sb ip d off 0 count dst o
      → ReadSpec ip d dst off n (o >>= λ (dst', (ip', d')). done (count, (dst', (ip', d'))))
  unfolding Reads
  ReadSpec-bytes ip d dst off n count panic e full = full
  ReadSpec-bytes ip d dst off n count (done (dst', (ip', d'))) e (file, kept, value) = (
    file,
    kept,
    ap (λ f. (count, f)) (fun_ext (λ j. value j ∙ from_zero (contents ip d) off j count (dst j)))
        ∙ sym e,
  )

  pub out_of_range :
      (size off n : ℕ)
      → off < 2 ^ 32
      → n < 2 ^ 32
      → (ltb size off || leb (2 ^ 32) (off + n)) ≡ (ltb size off || ltb (u32 (off + n)) off)
  out_of_range size off n lo ln = ground arith

  pub file_read-false :
      (size : ℕ) (bytes dst : ℕ → ℕ) (off n count : ℕ)
      → (ltb size off || leb (2 ^ 32) (off + n)) ≡ false
      → min n (size - off) ≡ count
      → file_read size bytes dst off n
        ≡ (count, λ j. if ltb j count then bytes (off + j) else dst j)
  file_read-false size bytes dst off n count inside e =
      ap
        (λ b. if b then (minus_one, dst) else (
          min n (size - off),
          λ j. if ltb j (min n (size - off)) then bytes (off + j) else dst j,
        ))
        inside
      ∙ ap (λ c. (c, λ j. if ltb j c then bytes (off + j) else dst j)) e

  -- `readi` of a file that is no device: it panics only if the disk runs full. Otherwise count and
  -- memory are those of a read of the file's bytes (-1 if the range starts after the end or its end
  -- wraps around, cut at the file's end otherwise), and the file has the same bytes after it.
  pub readi_refines :
      (devsw : Devsw) (ip : Inode) (dst : ℕ → ℕ) (off n : ℕ) (d : Disk)
      → IsFile sb ip d
      → ip.type ≢ t_dev
      → ip.size ≤ maxfile * bsize
      → off < 2 ^ 32
      → n < 2 ^ 32
      → ReadSpec ip d dst off n (readi sb devsw ip dst off n d)
  unfolding readi read_bytes
  readi_refines devsw ip dst off n d file regular small lo ln =
      if_lem (ReadSpec ip d dst off n) (ip.type == t_dev)
        (λ dev. absurd (ground (arith, regular, dev)))
        (λ _.
          if_lem (ReadSpec ip d dst off n) (ltb ip.size off || ltb (u32 (off + n)) off)
            (λ out. (
              file,
              Kept-refl sb ip d,
              sym (
                  ap
                    (λ b. if b then (minus_one, dst) else (
                      min n (ip.size - off),
                      λ j. if ltb j (min n (ip.size - off)) then contents ip d (off + j) else dst j,
                    ))
                    (out_of_range ip.size off n lo ln ∙ out)),
            ))
            (λ inside.
              let count = if ltb ip.size (u32 (off + n)) then ip.size - off else n in
              ReadSpec-bytes ip d dst off n count (read_loop sb count 0 count off dst ip d)
                (file_read-false ip.size (contents ip d) dst off n count
                  (out_of_range ip.size off n lo ln ∙ inside) (ground (arith, inside)))
                (read_loop-Reads sb count 0 count off dst ip d file (omega arith)
                  (ground (arith, inside)))))
