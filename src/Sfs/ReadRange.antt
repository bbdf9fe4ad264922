-- ===== src/Sfs/ReadRange.antt =====
-- kern/fs/sfs/sfs_inode.c: `sfs_io_nolock` where it reads, in one piece.
use ucoreonrv.Prelude.{
  ℕ, ◌+◌, ◌-◌, ◌*◌, ◌/◌, ◌%◌, ◌<◌, ◌≤◌, ◌≡◌, ◌≢◌, refl, ap, ◌∙◌, sym, subst, Bool, true, false, not,
  ◌&&◌, ◌||◌, ◌==◌, if◌then◌else◌, ltb, leb, arith,
}
use ucoreonrv.Prelude.Int.{ℤ, pos}
use ucoreonrv.Prelude.Errors.{Ends, Ends-mono}
use ucoreonrv.Files.Open.{is_zero}
use ucoreonrv.Sfs.State.{pure, blksize, max_file_size, SfsFs, SfsDiskInode, SfsInode}
use ucoreonrv.Sfs.Io.{is_dir, on_block, buf_op, io_blocks, io_range, sfs_io_nolock}
use ucoreonrv.Sfs.Runs.{Ends-then, Ends-assert, Ends-if}
use ucoreonrv.Sfs.Accounts.{Sound}
use ucoreonrv.Sfs.Allocation.{Sound-same}
use ucoreonrv.Sfs.Mapped.{entry, Mapped}
use ucoreonrv.Sfs.Reading.{Passes, passed-Mapped, Filled}
use ucoreonrv.Sfs.ReadCalls.{Reads, Reads-join, io_blocks-Reads}
use ucoreonrv.Sfs.FileBytes.{from, entry_passed, Part, OnBlock, on_block-OnBlock, piece}

-- The whole blocks of a range of the file lie one behind another on the disk.
abbrev pub InRow : SfsFs → SfsDiskInode → (offset endpos : ℕ) → Type 0
InRow s d offset endpos =
    (i j : ℕ)
    → offset ≤ i * blksize
    → (i + j + 1) * blksize ≤ endpos
    → entry s d (i + j) ≡ entry s d i + j

module _ (s : SfsFs) (sin : SfsInode) (ok : Sound s) (m : Mapped s sin.din) (buf offset endpos : ℕ)
    (lt : offset < endpos) (l : endpos ≤ sin.din.blocks * blksize)
    (row : InRow s sin.din offset endpos) where
  aligned :
      offset % blksize ≡ 0
      → Ends (Reads s sin buf offset (endpos - offset) 0) (
          io_blocks false sin buf
            (offset / blksize)
            (endpos / blksize - offset / blksize)
            endpos
            0
            s)
  aligned z =
      let b = offset / blksize in
      let n = endpos / blksize - offset / blksize in
      subst (λ k. Ends (Reads s sin buf offset k 0) (io_blocks false sin buf b n endpos 0 s))
        (let q : (endpos / blksize - offset / blksize) * blksize + endpos % blksize
              ≡ endpos - offset =
            omega (arith, lt, z) in
          q)
        (subst
          (λ x.
            Ends (Reads s sin buf x (n * blksize + endpos % blksize) 0)
              (io_blocks false sin buf b n endpos 0 s))
          (let q : offset / blksize * blksize ≡ offset = omega (arith, z) in q)
          (io_blocks-Reads s sin ok m buf b n endpos 0 (omega (arith, lt)) l
            (λ j k. row b j (omega (arith, z)) (omega (arith, k)))))

  -- What comes after the part of the first block.
  after_head :
      (ret : ℤ) (t : SfsFs)
      → offset % blksize ≢ 0
      → offset / blksize < endpos / blksize
      → Part s sin.din buf offset (blksize - offset % blksize) (ret, t)
      → is_zero ret ≡ true
      → Ends (Reads s sin buf offset (endpos - offset) 0) (
          io_blocks false sin
            (buf + (blksize - offset % blksize))
            (offset / blksize + 1)
            (endpos / blksize - offset / blksize - 1)
            endpos
            (blksize - offset % blksize)
            t)
  after_head ret t ne k h z =
      let size = blksize - offset % blksize in
      let b = offset / blksize + 1 in
      let n = endpos / blksize - offset / blksize - 1 in
      let rest = n * blksize + endpos % blksize in
      Ends-mono (Reads t sin (buf + size) (b * blksize) rest size)
        (Reads s sin buf offset (endpos - offset) 0)
        (io_blocks false sin (buf + size) b n endpos size t)
        (io_blocks-Reads t sin (Sound-same s t ok h.0.0 h.0.1 h.0.2)
          (passed-Mapped s t sin.din m h.0) (buf + size) b n endpos size (omega (arith, k)) l
          (λ j g.
            entry_passed s t sin.din (b + j) h.0
            ∙ row b j (omega arith) (omega (arith, g, k))
            ∙ ap (λ r. r + j) (sym (entry_passed s t sin.din b h.0))))
        (λ r g.
          subst (λ k. Reads s sin buf offset k 0 r)
            (let q : blksize
                    - offset % blksize
                    + ((endpos / blksize - offset / blksize - 1) * blksize + endpos % blksize)
                  ≡ endpos - offset =
                omega (arith, k, ne) in
              q)
            (Reads-join s t sin buf offset size rest 0 size ret r h z (omega arith) (
              subst (λ y. Reads t sin (buf + size) y rest size r)
                (let q : (offset / blksize + 1) * blksize ≡ offset + (blksize - offset % blksize) =
                    omega arith in
                  q)
                g)))

  io_range-Reads :
      Ends (Reads s sin buf offset (endpos - offset) 0) (io_range false sin buf offset endpos s)
  unfolding io_range
  io_range-Reads =
      let blkno = offset / blksize in
      let nblks = endpos / blksize - blkno in
      let blkoff = offset % blksize in
      let size = if nblks == 0 then endpos - offset else blksize - blkoff in
      let R = Reads s sin buf offset (endpos - offset) 0 in
      Ends-if R (blkoff == 0) _ _ s (λ z. aligned (ground (arith, z)))
        (λ z.
          Ends-then (OnBlock s sin buf offset size) R
            (on_block sin blkno (λ ino. buf_op false buf size ino blkoff)) _ s
            (on_block-OnBlock s sin ok m buf offset size blkno
              (λ ino. buf_op false buf size ino blkoff) (omega (arith, lt, l))
              (λ t q.
                subst
                  (λ x.
                    Ends (Part s sin.din buf x size)
                      (buf_op false buf size (entry s sin.din blkno) blkoff t))
                  (let r : offset / blksize * blksize + offset % blksize ≡ offset = omega arith in
                    r)
                  (piece s sin ok m buf blkno blkoff size (omega (arith, lt, l)) (omega arith)
                    (ground (arith, lt)) t q)))
            (λ (ret, sin') t (f, h).
              subst
                (λ sin'. Ends R (
                  (if not (is_zero ret)
                      then pure (ret, 0, sin')
                      else if nblks == 0
                      then pure (ret, size, sin')
                      else io_blocks false sin' (buf + size) (blkno + 1) (nblks - 1) endpos size)
                    t))
                (sym f)
                (Ends-if R (not (is_zero ret)) _ _ t
                  (λ z'. (refl, h.0, λ g. absurd (ground (arith, g, z'))))
                  (λ z'.
                    Ends-if R (nblks == 0) _ _ t (λ w. within ret t w h)
                      (λ w.
                        more ret t (λ e. absurd (ground (arith, z, e))) (ground (arith, z')) w
                          h)))))
    where
      amount_of : Bool → ℕ
      amount_of b = if b then endpos - offset else blksize - offset % blksize

      within :
          (ret : ℤ) (t : SfsFs)
          → (endpos / blksize - offset / blksize == 0) ≡ true
          → Part s sin.din buf offset
              (amount_of (endpos / blksize - offset / blksize == 0))
              (ret, t)
          → Ends
              (Reads s sin buf offset (endpos - offset) 0)
              (pure (ret, amount_of (endpos / blksize - offset / blksize == 0), sin) t)
      within ret t w =
          subst
            (λ b.
              Part s sin.din buf offset (amount_of b) (ret, t)
              → Ends (Reads s sin buf offset (endpos - offset) 0) (pure (ret, amount_of b, sin) t))
            (sym w) (λ h. (refl, h.0, (λ g. (omega arith, h.1 g))))

      more :
          (ret : ℤ) (t : SfsFs)
          → offset % blksize ≢ 0
          → is_zero ret ≡ true
          → (endpos / blksize - offset / blksize == 0) ≡ false
          → Part s sin.din buf offset
              (amount_of (endpos / blksize - offset / blksize == 0))
              (ret, t)
          → Ends (Reads s sin buf offset (endpos - offset) 0) (
              io_blocks false sin
                (buf + amount_of (endpos / blksize - offset / blksize == 0))
                (offset / blksize + 1)
                (endpos / blksize - offset / blksize - 1)
                endpos
                (amount_of (endpos / blksize - offset / blksize == 0))
                t)
      more ret t ne z w =
          subst
            (λ b.
              Part s sin.din buf offset (amount_of b) (ret, t)
              → Ends (Reads s sin buf offset (endpos - offset) 0) (
                  io_blocks false sin (buf + amount_of b) (offset / blksize + 1)
                    (endpos / blksize - offset / blksize - 1) endpos (amount_of b) t))
            (sym w) (λ h. after_head ret t ne (ground (arith, w)) h z)

-- The end of what is read: no more than is asked for and than the file has.
abbrev pub read_end : SfsInode → (offset alen : ℕ) → ℕ
read_end sin offset alen = if ltb sin.din.size (offset + alen) then sin.din.size else offset + alen

abbrev pub ReadAll : SfsFs → SfsInode → (buf offset alen : ℕ) → (ℤ × ℕ × SfsInode) × SfsFs → Type 0
ReadAll s sin buf offset alen ((ret, k, sin'), t) =
    Passes s t
    × (is_zero ret ≡ true
        → (k ≡ read_end sin offset alen - offset)
          × (sin'.din.size ≡ sin.din.size)
          × Filled buf k (from s sin.din offset) s t)

-- On a sound disk, for a file that is no directory, whose map is in order, whose size is at most
-- SFS_MAX_FILE_SIZE and has its blocks: if the whole blocks of what is to be read lie one behind
-- another on the disk, `sfs_io_nolock` reads without a failed assertion. It changes no block and
-- no account; and if the code is 0 it has read just the bytes of the file from the offset on, as
-- many as were asked for or up to the end of the file, and changed no other byte of memory.
pub sfs_io-ReadAll :
    (s : SfsFs) (sin : SfsInode) (buf offset alen : ℕ)
    → Sound s
    → Mapped s sin.din
    → is_dir sin.din.type ≡ false
    → sin.din.size ≤ max_file_size
    → sin.din.size ≤ sin.din.blocks * blksize
    → InRow s sin.din offset (read_end sin offset alen)
    → Ends (ReadAll s sin buf offset alen) (sfs_io_nolock sin buf (pos offset) alen false s)
unfolding sfs_io_nolock
sfs_io-ReadAll s sin buf offset alen ok m file small fits row =
    let R = ReadAll s sin buf offset alen in
    let stop = read_end sin offset alen in
    let whole_end = if ltb max_file_size (offset + alen) then max_file_size else offset + alen in
    let idle : Passes s s = (refl, refl, refl, λ q j. refl) in
    Ends-assert R (not (is_dir sin.din.type)) _ s (ground (arith, file)) (
      Ends-if R (leb max_file_size offset) _ _ s (λ _. (idle, λ z. absurd (ground (arith, z))))
        (λ _.
          Ends-if R (alen == 0 || not false && leb sin.din.size offset) _ _ s
            (λ z. (idle, (λ _. (ground (arith, z), refl, (λ a. ground arith)))))
            (λ z.
              Ends-then (Reads s sin buf offset (stop - offset) 0) R
                (io_range false sin buf offset
                  (if not false && ltb sin.din.size whole_end then sin.din.size else whole_end))
                _ s
                (subst
                  (λ e.
                    Ends (Reads s sin buf offset (stop - offset) 0)
                      (io_range false sin buf offset e s))
                  (let q : read_end sin offset alen ≡ (
                        if not false
                          && ltb sin.din.size (
                              if ltb max_file_size (offset + alen)
                              then max_file_size
                              else offset + alen)
                        then sin.din.size
                        else (if ltb max_file_size (offset + alen)
                            then max_file_size
                            else offset + alen)) =
                      ground (arith, small) in
                    q)
                  (io_range-Reads s sin ok m buf offset stop (ground (arith, z))
                    (ground (arith, fits)) row))
                (λ (ret, k, sin') t (e, p, h). (
                  p,
                  (λ f.
                      let n : k ≡ read_end sin offset alen - offset = (h f).0 ∙ ground arith in
                      let g = (h f).1 in
                      (
                        n,
                        ground (arith, ap (λ x. x.din.size) e, n, z),
                        subst (λ k. Filled buf k (from s sin.din offset) s t) (sym n) g,
                      )),
                )))))
