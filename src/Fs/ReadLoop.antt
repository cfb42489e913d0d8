-- ===== src/Fs/ReadLoop.antt =====
-- fs.c: the loop of `readi`.
use test_ascii.Common.{
  ℕ, zero, suc, ◌+◌, ◌-◌, ◌/◌, ◌%◌, ◌≡◌, ◌≢◌, ◌<◌, ◌≤◌, sym, ◌∙◌, ap, ap₂, arith, ltb, leb, ◌&&◌,
  ltb→lt, if◌then◌else◌, if_lem, min, Outcome, done, panic, ◌>>=◌,
}
use native.Mathlib.Decide.{dec_lt}
use test_ascii.Fs.{Superblock, Disk, bsize}
use test_ascii.Fs.Inode.{Inode, bmap}
use test_ascii.Fs.Slots.{slot, block_byte, contents, IsFile, Kept, Kept-refl, Kept-trans}
use test_ascii.Fs.Addrs.{Full, Full-Kept}
use test_ascii.Fs.Bmap.{Mapped, bmap_lem}
use test_ascii.Fs.Io.{copy, read_loop}

pub block_byte-here : (e : Disk) (x i : ℕ) → x ≢ 0 → block_byte e x i ≡ e.blocks x i
unfolding block_byte
block_byte-here e x i z = ground arith

module _ (sb : Superblock) where
  pub contents-Kept :
      {ip ip' : Inode} {d d' : Disk} (o : ℕ)
      → Kept sb ip d ip' d'
      → o < 71680
      → contents ip' d' o ≡ contents ip d o
  unfolding contents
  contents-Kept o p h = p.same_data (o / 512) (o % 512) (omega arith)

  -- What the loop comes to, for the bytes of the file from `off` on, at `tot` to `n` of the memory.
  unfoldable pub Reads :
      Inode → Disk → ℕ → ℕ → ℕ → (ℕ → ℕ) → Outcome ((ℕ → ℕ) × (Inode × Disk)) → Type 0
  Reads ip d off tot n dst panic = Full sb ip d
  Reads ip d off tot n dst (done (dst', (ip', d'))) =
      IsFile sb ip' d'
      × Kept sb ip d ip' d'
      × ((j : ℕ)
          → dst' j ≡ (if leb tot j && ltb j n then contents ip d (off + (j - tot)) else dst j))

  -- A byte of the block that `bmap` gave.
  pub byte-Mapped :
      (ip : Inode) (d : Disk) (off t addr : ℕ) (ip' : Inode) (d' : Disk)
      → off % 512 + t < 512
      → off < 71680
      → Mapped sb ip d (off / 512) (done (addr, (ip', d')))
      → d'.blocks addr (off % 512 + t) ≡ contents ip d (off + t)
  unfolding contents
  byte-Mapped ip d off t addr ip' d' inside small (file, kept, here, ne) =
      sym (block_byte-here d' addr (off % 512 + t) ne)
      ∙ ap (λ b. block_byte d' b (off % 512 + t)) (sym here)
      ∙ kept.same_data (off / 512) (off % 512 + t) (omega arith)
      ∙ ap₂ (λ k i. block_byte d (slot ip d k) i) (same_block) (same_place)
    where
      same_block : off / 512 ≡ (off + t) / 512
      same_block = omega arith

      same_place : off % 512 + t ≡ (off + t) % 512
      same_place = omega arith

  -- One pass, then the others.
  Reads-pass :
      {ip : Inode} {d : Disk} {ip' : Inode} {d' : Disk} (off tot n m : ℕ) (dst bytes : ℕ → ℕ)
      (o : Outcome ((ℕ → ℕ) × (Inode × Disk)))
      → Kept sb ip d ip' d'
      → tot + m ≤ n
      → off + (n - tot) ≤ 71680
      → ((t : ℕ) → t < m → bytes (off % 512 + t) ≡ contents ip d (off + t))
      → Reads ip' d' (off + m) (tot + m) n (copy dst tot bytes (off % 512) m) o
      → Reads ip d off tot n dst o
  unfolding Reads copy
  Reads-pass off tot n m dst bytes panic kept le small got rest = Full-Kept sb kept rest
  Reads-pass {ip = ip} {d = d} {ip' = ip'} {d' = d'} off tot n m dst bytes
        (done (dst', (ip'', d''))) kept le small got (file, kept', value) =
      (
        file,
        Kept-trans sb kept kept',
        λ j. elim (dec_lt j tot) [
          | yes before ↦ ground (arith, value j)
          | no after ↦ elim (dec_lt j (tot + m)) [
            | yes now ↦
                value j
                ∙ in_pass (contents ip' d' (off + m + (j - (tot + m)))) j (omega arith) now
                ∙ got (j - tot) (omega arith)
                ∙ ground arith
            | no later ↦ elim (dec_lt j n) [
              | yes within ↦
                  value j
                  ∙ ground arith
                  ∙ contents-Kept (off + m + (j - (tot + m))) kept (omega arith)
                  ∙ ap (contents ip d) (same_place j (omega arith))
                  ∙ ground arith
              | no beyond ↦ ground (arith, value j)
            ]
          ]
        ],
      )
    where
      same_place : (j : ℕ) → tot + m ≤ j → off + m + (j - (tot + m)) ≡ off + (j - tot)
      same_place j le = omega arith

      in_pass :
          (old j : ℕ)
          → tot ≤ j
          → j < tot + m
          → (if leb (tot + m) j && ltb j n
              then old
              else (if leb tot j && ltb j (tot + m) then bytes (off % 512 + (j - tot)) else dst j))
            ≡ bytes (off % 512 + (j - tot))
      in_pass old j after now = ground arith

  Reads-Mapped :
      (fuel tot n off : ℕ) (dst : ℕ → ℕ) (ip : Inode) (d : Disk) (o : Outcome (ℕ × (Inode × Disk)))
      → Mapped sb ip d (off / 512) o
      → tot < n
      → off + (n - tot) ≤ 71680
      → ((tot' off' : ℕ) (dst' : ℕ → ℕ) (ip' : Inode) (d' : Disk)
          → IsFile sb ip' d'
          → tot < tot'
          → off' + (n - tot') ≤ 71680
          → Reads ip' d' off' tot' n dst' (read_loop sb fuel tot' n off' dst' ip' d'))
      → Reads ip d off tot n dst (
          o >>= λ (addr, (ip', d')).
          let m = min (n - tot) (bsize - off % bsize) in
          read_loop sb fuel
            (tot + m)
            n
            (off + m)
            (copy dst tot (d'.blocks addr) (off % bsize) m)
            ip'
            d')
  unfolding Reads
  Reads-Mapped fuel tot n off dst ip d panic mapped lt small rest = mapped
  Reads-Mapped fuel tot n off dst ip d (done (addr, (ip', d'))) (file', kept, here, ne) lt small
        rest =
      let m = min (n - tot) (bsize - off % bsize) in
      Reads-pass off tot n m dst (d'.blocks addr)
        (read_loop sb fuel (tot + m) n (off + m) (copy dst tot (d'.blocks addr) (off % bsize) m) ip'
          d')
        kept (omega arith) small
        (λ t h.
          byte-Mapped ip d off t addr ip' d' (omega arith) (omega arith) (file', kept, here, ne))
        (rest (tot + m) (off + m) (copy dst tot (d'.blocks addr) (off % bsize) m) ip' d' file'
          (omega arith) (omega arith))

  pub read_loop-Reads :
      (fuel tot n off : ℕ) (dst : ℕ → ℕ) (ip : Inode) (d : Disk)
      → IsFile sb ip d
      → n ≤ tot + fuel
      → off + (n - tot) ≤ 71680
      → Reads ip d off tot n dst (read_loop sb fuel tot n off dst ip d)
  unfolding read_loop Reads
  read_loop-Reads zero tot n off dst ip d file enough small =
      (file, Kept-refl sb ip d, λ j. ground arith)
  read_loop-Reads (suc fuel) tot n off dst ip d file enough small =
      if_lem (Reads ip d off tot n dst) (ltb tot n)
        (λ lt.
          Reads-Mapped fuel tot n off dst ip d (bmap sb ip (off / bsize) d)
            (bmap_lem sb ip d (off / bsize) file (omega (arith, ltb→lt tot n lt, small)))
            (ltb→lt tot n lt) small
            (λ tot' off' dst' ip' d' file' enough' small'.
              read_loop-Reads fuel tot' n off' dst' ip' d' file' (omega arith) small'))
        (λ ge. (file, Kept-refl sb ip d, λ j. ground arith))
