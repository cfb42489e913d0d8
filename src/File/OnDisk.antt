-- ===== src/File/OnDisk.antt =====
-- file.c on fs.c: the calls of `filewrite` as the file system makes them.
use test_ascii.Common.{
  ℕ, ◌+◌, ◌^◌, ◌≡◌, ◌≢◌, ◌<◌, ◌≤◌, sym, ap, ap₂, subst, ◌∙◌, arith, Bool, true, false, Outcome,
  done, panic, ◌>>=◌, some, slt, if◌then◌else◌, minus_one, Ensures,
}
use test_ascii.Common.Arrays.{update, update-same}
use test_ascii.Fs.{Superblock, Disk}
use test_ascii.Fs.Inode.{Inode}
use test_ascii.Fs.Map.{in_use}
use test_ascii.Fs.Slots.{IsFile}
use test_ascii.Fs.Io.{Devsw, writei, t_dev}
use test_ascii.Fs.Icache.{Icache, set_inode, ilock, ilock_read, iunlock}
use test_ascii.Fs.Writing.{WriteSpec, is_refused, file_bytes, writei_refines}
use test_ascii.Fs.Untouched.{writei-SameUse}
use test_ascii.File.{File, Callees, max_write}
use test_ascii.File.Write.{FileCalls, Meets, grown, max_size, patched}

-- The count, the size and the bytes that a write comes to, refused or not.
abbrev outcome : Bool → ℕ → (ℕ → ℕ) → (ℕ → ℕ) → ℕ → ℕ → ℕ → ℕ × (ℕ × (ℕ → ℕ))
outcome refused z c buf at off n =
    if refused then (minus_one, (z, c)) else (n, (grown z (off + n), patched buf c at off n))

module _ (sb : Superblock) (devsw : Devsw) (buf : ℕ → ℕ) where
  -- The file system as `filewrite` calls it, with the bytes of `buf` to write. The log's calls do
  -- not touch inodes or blocks here, and an inode's file has no pipe.
  abbrev pub disk_calls : Callees
  disk_calls = record {
    Sys = Icache;
    pipewrite = λ p n s. panic;
    begin_op = λ s. done s;
    end_op = λ s. done s;
    ilock = λ i s. ilock sb (some i) s;
    iunlock = λ i s. iunlock (some i) s;
    writei = λ i at off n s.
        writei sb devsw (s.inodes i) (λ j. buf (at + j)) off n s.disk >>= λ (r, (_, (ip, d))).
        done (r, set_inode i ip (record s { disk = d }));
  }

  -- Inode `i` is loaded and referred to, and is a file of `z` bytes, `c`, that is no device.
  pub record OnDisk (i z : ℕ) (c : ℕ → ℕ) (s : Icache) : Type 0 where
    pub file : IsFile sb (s.inodes i) s.disk
    pub regular : (s.inodes i).type ≢ t_dev
    pub loaded : (s.inodes i).valid ≡ true
    pub referred : (0 < (s.inodes i).ref) × ((s.inodes i).ref < 2 ^ 31)
    pub size : (s.inodes i).size ≡ z
    pub bytes : file_bytes sb (s.inodes i) s.disk ≡ c

  -- All blocks are in use in some state of the disk.
  abbrev pub DiskFull : Type 0
  DiskFull = (d : Disk) × ((c : ℕ) → c < sb.size → in_use sb d c ≡ true)

  is_referred : (i z : ℕ) (c : ℕ → ℕ) (s : Icache) → OnDisk i z c s → slt (s.inodes i).ref 1 ≡ false
  is_referred i z c s o = ground (arith, o.referred)

  ilock-OnDisk :
      (i z : ℕ) (c : ℕ → ℕ) (s : Icache)
      → OnDisk i z c s
      → Meets DiskFull (λ s'. OnDisk i z c s' × (s'.locked i ≡ true)) (ilock sb (some i) s)
  unfolding ilock ilock_read
  ilock-OnDisk i z c s o =
      rw (is_referred i z c s o, o.loaded)
        (
          record {
            file = o.file;
            regular = o.regular;
            loaded = o.loaded;
            referred = o.referred;
            size = o.size;
            bytes = o.bytes;
          },
          update-same s.locked i true,
        )

  iunlock-OnDisk :
      (i z : ℕ) (c : ℕ → ℕ) (s : Icache)
      → OnDisk i z c s × (s.locked i ≡ true)
      → Meets DiskFull (OnDisk i z c) (iunlock (some i) s)
  unfolding iunlock
  iunlock-OnDisk i z c s (o, locked) =
      rw (is_referred i z c s o, locked)
        (record {
          file = o.file;
          regular = o.regular;
          loaded = o.loaded;
          referred = o.referred;
          size = o.size;
          bytes = o.bytes;
        })

  module _ (bytes : (j : ℕ) → buf j < 256) where
    -- What a write leaves: `r` and a size that are as they should be.
    writei-OnDisk :
        (i z : ℕ) (c : ℕ → ℕ) (at off n r z' : ℕ) (c' : ℕ → ℕ) (s : Icache)
        (x : Outcome (ℕ × ((ℕ → ℕ) × (Inode × Disk))))
        → OnDisk i z c s × (s.locked i ≡ true)
        → WriteSpec sb (s.inodes i) s.disk (λ j. buf (at + j)) off n x
        → Ensures
            (λ (y : ℕ × ((ℕ → ℕ) × (Inode × Disk))).
              (y.1.1.0.ref ≡ (s.inodes i).ref) × (y.1.1.0.valid ≡ (s.inodes i).valid))
            x
        → outcome (is_refused sb z off n) z c buf at off n ≡ (r, (z', c'))
        → Meets DiskFull
            (λ (r', s'). (r' ≡ r) × (OnDisk i z' c' s' × (s'.locked i ≡ true)))
            (x >>= λ (r, (_, (ip, d))). done (r, set_inode i ip (record s { disk = d })))
    writei-OnDisk i z c at off n r z' c' s panic o (ip, d, file, frame, full) kept same = (d, full)
    writei-OnDisk i z c at off n r z' c' s (done (r', (src, (ip, d)))) (o, locked) (file, frame, e)
          (same_ref, same_valid) wanted =
        let got : (r', (ip.size, file_bytes sb ip d)) ≡ (r, (z', c')) =
          e
          ∙ ap₂ (λ z c. outcome (is_refused sb z off n) z c buf at off n) o.size o.bytes
          ∙ wanted in
        let count = ap (λ (p : ℕ × (ℕ × (ℕ → ℕ))). p.0) got in
        let size = ap (λ (p : ℕ × (ℕ × (ℕ → ℕ))). p.1.0) got in
        let bytes' = ap (λ (p : ℕ × (ℕ × (ℕ → ℕ))). p.1.1) got in
        (
          count,
          (
            record {
              file = subst (λ x. IsFile sb x d) (sym at_i) file;
              regular =
                  λ t. o.regular (sym frame.same_type ∙ sym (ap (λ (x : Inode). x.type) at_i) ∙ t);
              loaded = ap (λ (x : Inode). x.valid) at_i ∙ same_valid ∙ o.loaded;
              referred =
                  subst (λ m. (0 < m) × (m < 2 ^ 31))
                    (sym (ap (λ (x : Inode). x.ref) at_i ∙ same_ref)) o.referred;
              size = ap (λ (x : Inode). x.size) at_i ∙ size;
              bytes = ap (λ (x : Inode). file_bytes sb x d) at_i ∙ bytes';
            },
            locked,
          ),
        )
      where
        at_i : update s.inodes i ip i ≡ ip
        at_i = update-same s.inodes i ip

    writei_inside-OnDisk :
        (i z : ℕ) (c : ℕ → ℕ) (at off m : ℕ) (s : Icache)
        → OnDisk i z c s × (s.locked i ≡ true)
        → off ≤ z
        → off + m ≤ max_size
        → Meets DiskFull
            (λ (r, s').
              (r ≡ m)
              × (OnDisk i (grown z (off + m)) (patched buf c at off m) s' × (s'.locked i ≡ true)))
            (Callees.writei disk_calls i at off m s)
    writei_inside-OnDisk i z c at off m s (o, locked) inside room =
        writei-OnDisk i z c at off m m (grown z (off + m)) (patched buf c at off m) s
          (writei sb devsw (s.inodes i) (λ j. buf (at + j)) off m s.disk) (o, locked)
          (writei_refines sb devsw (s.inodes i) (λ j. buf (at + j)) off m s.disk o.file o.regular
            (omega (arith, room)) (omega (arith, room)) (λ j. bytes (at + j)))
          (writei-SameUse sb devsw (s.inodes i) (λ j. buf (at + j)) off m s.disk
            (ground (arith, o.regular)))
          (ap (λ b. outcome b z c buf at off m) accepted)
      where
        accepted : is_refused sb z off m ≡ false
        accepted = ground (arith, inside, room)

    writei_beyond-OnDisk :
        (i z : ℕ) (c : ℕ → ℕ) (at off m : ℕ) (s : Icache)
        → OnDisk i z c s × (s.locked i ≡ true)
        → off ≤ max_size
        → m ≤ max_write
        → max_size < off + m
        → Meets DiskFull
            (λ (r, s'). (r ≡ minus_one) × (OnDisk i z c s' × (s'.locked i ≡ true)))
            (Callees.writei disk_calls i at off m s)
    writei_beyond-OnDisk i z c at off m s (o, locked) room le long =
        writei-OnDisk i z c at off m minus_one z c s
          (writei sb devsw (s.inodes i) (λ j. buf (at + j)) off m s.disk) (o, locked)
          (writei_refines sb devsw (s.inodes i) (λ j. buf (at + j)) off m s.disk o.file o.regular
            (omega (arith, room)) (omega (arith, le)) (λ j. bytes (at + j)))
          (writei-SameUse sb devsw (s.inodes i) (λ j. buf (at + j)) off m s.disk
            (ground (arith, o.regular)))
          (ap (λ b. outcome b z c buf at off m) refused)
      where
        refused : is_refused sb z off m ≡ true
        refused = ground (arith, long)

    -- What `filewrite` relies on holds of the file system.
    abbrev on_disk : (i : ℕ) → FileCalls disk_calls i buf
    on_disk i = record {
      Bad = DiskFull;
      Idle = λ z c s. OnDisk i z c s;
      Locked = λ z c s. OnDisk i z c s × (s.locked i ≡ true);
      begin_op = λ z c s o. o;
      end_op = λ z c s o. o;
      ilock = ilock-OnDisk i;
      iunlock = iunlock-OnDisk i;
      writei_inside = writei_inside-OnDisk i;
      writei_beyond = λ z c at off m s o inside room le long.
          writei_beyond-OnDisk i z c at off m s o room le long;
    }
