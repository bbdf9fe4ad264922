-- ===== src/Sfs/ReadCalls.antt =====
-- kern/fs/sfs/sfs_inode.c: `sfs_io_nolock` where it reads.
use ucoreonrv.Prelude.{
  ℕ, ◌+◌, ◌*◌, ◌/◌, ◌%◌, ◌<◌, ◌≤◌, ◌≡◌, refl, ap, ◌∙◌, sym, subst, true, false, ◌==◌, arith,
}
use ucoreonrv.Prelude.Int.{ℤ}
use ucoreonrv.Prelude.Errors.{Ends, Ends-mono}
use ucoreonrv.Files.Open.{is_zero}
use ucoreonrv.Sfs.State.{blksize, SfsFs, SfsInode}
use ucoreonrv.Sfs.Device.{sfs_rwblock}
use ucoreonrv.Sfs.Io.{on_block, buf_op, io_tail, io_blocks}
use ucoreonrv.Sfs.Runs.{Ends-then, Ends-if}
use ucoreonrv.Sfs.Accounts.{Sound}
use ucoreonrv.Sfs.Allocation.{Sound-same}
use ucoreonrv.Sfs.Mapped.{entry, Mapped}
use ucoreonrv.Sfs.Reading.{Passes, Passes-trans, passed-Mapped, Filled, Filled-join}
use ucoreonrv.Sfs.FileBytes.{
  file_byte, from, from_passed, Part, OnBlock, on_block-OnBlock, piece, whole,
}

-- The `n` bytes of the file from `x` on are in memory at `buf` and are counted, or the code tells.
abbrev pub Reads : SfsFs → SfsInode → (buf x n alen : ℕ) → (ℤ × ℕ × SfsInode) × SfsFs → Type 0
Reads s sin buf x n alen ((ret, k, sin'), t) =
    (sin' ≡ sin)
    × Passes s t
    × (is_zero ret ≡ true → (k ≡ alen + n) × Filled buf n (from s sin.din x) s t)

pub Reads-join :
    (s t : SfsFs) (sin : SfsInode) (buf x n k alen alen' : ℕ) (ret : ℤ)
    (r : (ℤ × ℕ × SfsInode) × SfsFs)
    → Part s sin.din buf x n (ret, t)
    → is_zero ret ≡ true
    → alen' ≡ alen + n
    → Reads t sin (buf + n) (x + n) k alen' r
    → Reads s sin buf x (n + k) alen r
Reads-join s t sin buf x n k alen alen' ret ((ret', a, sin'), u) (p, f) z q (e, p', g) = (
  e,
  Passes-trans s t u p p',
  (λ z'. (
    (g z').0 ∙ omega (arith, q),
    Filled-join buf n k (from s sin.din x) (from t sin.din (x + n)) s t u (f z) (g z').1 (λ i l.
        from_passed s t sin.din (x + n) i p
        ∙ ap (file_byte s sin.din) (let q : x + n + i ≡ x + (n + i) = omega arith in q)),
  )),
)

module _ (s : SfsFs) (sin : SfsInode) (ok : Sound s) (m : Mapped s sin.din) where
  io_tail-Reads :
      (buf blkno endpos alen : ℕ)
      → blkno ≡ endpos / blksize
      → endpos ≤ sin.din.blocks * blksize
      → Ends
          (Reads s sin buf (blkno * blksize) (endpos % blksize) alen)
          (io_tail false sin buf blkno endpos alen s)
  unfolding io_tail
  io_tail-Reads buf blkno endpos alen e l =
      let n = endpos % blksize in
      let x = blkno * blksize in
      Ends-if (Reads s sin buf x n alen) (n == 0) _ _ s
        (λ z. (
          refl,
          (refl, refl, refl, λ q j. refl),
          (λ _. (ground (arith, z), λ a. ground (arith, z))),
        ))
        (λ z.
          Ends-then (OnBlock s sin buf x n) (Reads s sin buf x n alen)
            (on_block sin blkno (λ ino. buf_op false buf n ino 0)) _ s
            (on_block-OnBlock s sin ok m buf x n blkno (λ ino. buf_op false buf n ino 0)
              (ground (arith, z, e, l))
              (λ t q.
                subst
                  (λ x.
                    Ends (Part s sin.din buf x n) (buf_op false buf n (entry s sin.din blkno) 0 t))
                  (let r : blkno * blksize + 0 ≡ blkno * blksize = omega arith in r)
                  (piece s sin ok m buf blkno 0 n (ground (arith, z, e, l)) (omega arith)
                    (omega arith) t q)))
            (λ (ret, sin') t (f, (p, g)). (f, p, (λ z'. (ground (arith, z'), g z')))))

module _ (s : SfsFs) (sin : SfsInode) (ok : Sound s) (m : Mapped s sin.din) where
  pub io_blocks-Reads :
      (buf blkno nblks endpos alen : ℕ)
      → blkno + nblks ≡ endpos / blksize
      → endpos ≤ sin.din.blocks * blksize
      → ((j : ℕ) → j < nblks → entry s sin.din (blkno + j) ≡ entry s sin.din blkno + j)
      → Ends
          (Reads s sin buf (blkno * blksize) (nblks * blksize + endpos % blksize) alen)
          (io_blocks false sin buf blkno nblks endpos alen s)
  unfolding io_blocks
  io_blocks-Reads buf blkno nblks endpos alen e l row =
      let x = blkno * blksize in
      let n = nblks * blksize in
      let k = endpos % blksize in
      Ends-if (Reads s sin buf x (n + k) alen) (nblks == 0) _ _ s
        (λ z.
          subst (λ n. Ends (Reads s sin buf x n alen) (io_tail false sin buf blkno endpos alen s))
            (let r : endpos % blksize ≡ nblks * blksize + endpos % blksize = ground (arith, z) in r)
            (io_tail-Reads s sin ok m buf blkno endpos alen (ground (arith, z, e)) l))
        (λ z.
          Ends-then (OnBlock s sin buf x n) (Reads s sin buf x (n + k) alen)
            (on_block sin blkno (λ ino. sfs_rwblock buf ino nblks false)) _ s
            (on_block-OnBlock s sin ok m buf x n blkno (λ ino. sfs_rwblock buf ino nblks false)
              (ground (arith, z, e, l))
              (whole s sin ok m buf blkno nblks (omega (arith, e, l)) (ground (arith, z)) row))
            (λ (ret, sin') t (f, h).
              Ends-if (Reads s sin buf x (n + k) alen) (is_zero ret) _ _ t
                (λ z'.
                  subst
                    (λ sin'. Ends (Reads s sin buf x (n + k) alen) (
                      io_tail false sin' (buf + nblks * blksize) (blkno + nblks) endpos
                        (alen + nblks * blksize) t))
                    (sym f) (rest ret t h z'))
                (λ z'. (f, h.0, λ g. absurd (ground (arith, g, z'))))))
    where
      rest :
          (ret : ℤ) (t : SfsFs)
          → Part s sin.din buf (blkno * blksize) (nblks * blksize) (ret, t)
          → is_zero ret ≡ true
          → Ends (Reads s sin buf (blkno * blksize) (nblks * blksize + endpos % blksize) alen) (
              io_tail false sin
                (buf + nblks * blksize)
                (blkno + nblks)
                endpos
                (alen + nblks * blksize)
                t)
      rest ret t h z =
          let n = nblks * blksize in
          let k = endpos % blksize in
          Ends-mono (Reads t sin (buf + n) ((blkno + nblks) * blksize) k (alen + n))
            (Reads s sin buf (blkno * blksize) (n + k) alen)
            (io_tail false sin (buf + n) (blkno + nblks) endpos (alen + n) t)
            (io_tail-Reads t sin (Sound-same s t ok h.0.0 h.0.1 h.0.2)
              (passed-Mapped s t sin.din m h.0) (buf + n) (blkno + nblks) endpos (alen + n) e l)
            (λ r g. Reads-join s t sin buf (blkno * blksize) n k alen (alen + n) ret r h z refl (
              subst (λ y. Reads t sin (buf + n) y k (alen + n) r)
                (let q : (blkno + nblks) * blksize ≡ blkno * blksize + nblks * blksize =
                    omega arith in
                  q)
                g))
