-- ===== src/Sfs/Truncating.antt =====
-- kern/fs/sfs/sfs_inode.c: `sfs_bmap_truncate_nolock`.
use ucoreonrv.Prelude.{
  ℕ, ◌+◌, ◌-◌, ◌<◌, ◌≡◌, ◌≢◌, inl, inr, refl, ap, ◌∙◌, sym, true, not, ◌&&◌, ◌==◌, ltb, arith,
}
use ucoreonrv.Prelude.Errors.{Ends}
use ucoreonrv.Files.Open.{is_zero}
use ucoreonrv.Sfs.State.{ndirect, blk_nentry, SfsFs, SfsInode}
use ucoreonrv.Sfs.Bmap.{sfs_bmap_free_nolock, sfs_bmap_truncate_nolock, set_blocks}
use ucoreonrv.Sfs.Runs.{Ends-then, Ends-assert, Ends-if}
use ucoreonrv.Sfs.Accounts.{Sound, used}
use ucoreonrv.Sfs.Mapped.{entry, Mapped, shrunk-Mapped}
use ucoreonrv.Sfs.Shrinking.{
  Unlinked, UnlinkedOr, held, free_direct, free_entry, Removed, Shortened,
}

module _ (s : SfsFs) (sin : SfsInode) (ok : Sound s) (m : Mapped s sin.din) where
  free_nolock-UnlinkedOr :
      (n : ℕ) → n + 1 ≡ sin.din.blocks → Ends (UnlinkedOr s sin n) (sfs_bmap_free_nolock sin n s)
  unfolding sfs_bmap_free_nolock
  free_nolock-UnlinkedOr n l =
      Ends-if (UnlinkedOr s sin n) (ltb n ndirect) _ _ s
        (λ k.
          Ends-if (UnlinkedOr s sin n) (sin.din.direct n == 0) _ _ s
            (λ z. absurd (ground (arith, z, k, held s sin ok m n l)))
            (λ z. free_direct s sin ok m n l (ground (arith, k))))
        (λ k.
          Ends-if (UnlinkedOr s sin n) (ltb (n - ndirect) blk_nentry && not (sin.din.indirect == 0))
            _ _ s
            (λ z.
              free_entry s sin ok m n l (ground (arith, k)) (λ e. absurd (ground (arith, z, e))))
            (λ z. absurd (ground (arith, z, k, l, m.bound, held s sin ok m n l))))

  removed :
      (n : ℕ) (sin' : SfsInode) (t : SfsFs)
      → n + 1 ≡ sin.din.blocks
      → Unlinked s sin n sin' t
      → Removed s sin (record (set_blocks sin' (sin'.din.blocks - 1)) { dirty = true }) t
  removed n sin' t l (b, q, e, f, d, size, same, bs, mem, (ty, links, _, count, direct)) = (
    shrunk-Mapped s t sin.din (set_blocks sin' (sin'.din.blocks - 1)).din m (omega (arith, b, l)) q
        (λ y u ne.
          ground (arith, f y, u, ne, ap (entry s sin.din) {x = n} {y = sin'.din.blocks - 1}, last))
        (λ i k. ground (arith, e i k, last)),
    omega (arith, b, l),
    (λ i k. ground (arith, e i (omega (arith, k, b, m.bound)), k, b, l)),
    (λ y. f y ∙ ap (λ n. not (y == entry s sin.din n) && used s y) (sym last)),
    (λ i j k. d (entry s sin.din i) j (ground (arith, apart i (omega (arith, k, b))))),
    (λ q j n. d q j (ground (arith, n, last))),
    size,
    same,
    bs,
    mem,
    refl,
    (ty, links, q, count, (λ i. ground (arith, direct i, last))),
  )
    where
      last : sin'.din.blocks - 1 ≡ n
      last = omega (arith, b, l)

      apart : (i : ℕ) → i < sin.din.blocks → entry s sin.din i ≢ sin.din.indirect
      apart = m.table_apart

-- On a sound disk and for a file that has a block and whose map is in order,
-- `sfs_bmap_truncate_nolock` fails no assertion. The accounts of the disk agree after it. Either the
-- code is not 0 and the inode, the disk, its accounts and memory are as they were; or the last block
-- of the file is free, the map is in order again, and the other blocks are the same with the same
-- contents. Of the inode there change then but the number of blocks, the pointer to that block if it
-- stands in the inode, and the dirty flag, which is set; of what the blocks of the disk hold, but the
-- entry of that block if it stands in the block of entries; and memory is as it was.
pub sfs_bmap_truncate-Shortened :
    (s : SfsFs) (sin : SfsInode)
    → Sound s
    → Mapped s sin.din
    → 0 < sin.din.blocks
    → Ends (Shortened s sin) (sfs_bmap_truncate_nolock sin s)
unfolding sfs_bmap_truncate_nolock
sfs_bmap_truncate-Shortened s sin ok m l =
    let n = sin.din.blocks - 1 in
    let e : n + 1 ≡ sin.din.blocks = omega (arith, l) in
    Ends-assert (Shortened s sin) (not (sin.din.blocks == 0)) _ s (ground (arith, l)) (
      Ends-then (UnlinkedOr s sin n) (Shortened s sin) (sfs_bmap_free_nolock sin n) _ s
        (free_nolock-UnlinkedOr s sin ok m n e)
        (λ (ret, sin') t (ok', c).
          Ends-if (Shortened s sin) (is_zero ret) _ _ t
            (λ z. elim c [
              | inl (f, _, _) ↦ absurd (ground (arith, f, z))
              | inr (_, u) ↦ (ok', inr (refl, removed s sin ok m n sin' t e u))
            ])
            (λ z. elim c [ inl h ↦ (ok', inl h) | inr (f, _) ↦ absurd (ground (arith, f, z)) ])))
