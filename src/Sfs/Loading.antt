-- ===== src/Sfs/Loading.antt =====
-- kern/fs/sfs/sfs_inode.c: `sfs_bmap_load_nolock`.
use ucoreonrv.Prelude.{
  ℕ, ◌+◌, ◌-◌, ◌<◌, ◌≡◌, ◌≢◌, ◌⊎◌, inl, inr, refl, ap, subst, true, false, not, ◌==◌, leb, arith,
}
use ucoreonrv.Prelude.Int.{ℤ}
use ucoreonrv.Prelude.Errors.{Ends}
use ucoreonrv.Files.Open.{is_zero}
use ucoreonrv.Sfs.State.{ndirect, SfsFs, SfsInode}
use ucoreonrv.Sfs.Bmap.{sfs_bmap_get_nolock, load_block, sfs_bmap_load_nolock, set_blocks}
use ucoreonrv.Sfs.Runs.{Ends-then, Ends-assert, Ends-if}
use ucoreonrv.Sfs.Accounts.{Sound, used}
use ucoreonrv.Sfs.Allocation.{Extends, nothing, Ends-inuse}
use ucoreonrv.Sfs.Words.{slot}
use ucoreonrv.Sfs.Mapped.{max_blocks, entry, Mapped, grown-Mapped}
use ucoreonrv.Sfs.Placing.{Got, Placed, sfs_bmap_get-Got}

-- The file has one block more, `ino`, which was free and holds zeros; its other blocks are the same
-- and hold what they held, and so does every other block in use but for the new entry.
abbrev pub Appended : SfsFs → SfsInode → (ino : ℕ) → SfsInode → SfsFs → Type 0
Appended s sin ino sin' s' =
    Mapped s' sin'.din
    × (sin'.din.blocks ≡ sin.din.blocks + 1)
    × ((i : ℕ) → i < sin.din.blocks → entry s' sin'.din i ≡ entry s sin.din i)
    × (entry s' sin'.din sin.din.blocks ≡ ino)
    × (used s ino ≡ false)
    × ((j : ℕ) → s'.disk ino j ≡ 0)
    × ((i j : ℕ)
        → i < sin.din.blocks
        → s'.disk (entry s sin.din i) j ≡ s.disk (entry s sin.din i) j)
    × Extends (slot sin.din.indirect (sin.din.blocks - ndirect)) s s'
    × (sin'.din.size ≡ sin.din.size)
    × (sin'.ino ≡ sin.ino)

-- A block is added, or the file stays as it was.
abbrev pub Loaded : SfsFs → SfsInode → (ℤ × ℕ × SfsInode) × SfsFs → Type 0
Loaded s sin ((ret, ino, sin'), s') =
    Sound s'
    × (((is_zero ret ≡ false) × (sin' ≡ sin) × Extends nothing s s')
        ⊎ ((is_zero ret ≡ true) × Appended s sin ino sin' s'))

module _ (s : SfsFs) (sin : SfsInode) (m : Mapped s sin.din) (l : sin.din.blocks < max_blocks) where
  appended :
      (ino : ℕ) (sin' : SfsInode) (t : SfsFs)
      → Placed s sin ino sin' t
      → Appended s sin ino (set_blocks sin' (sin'.din.blocks + 1)) t
  appended ino sin' t (x, b, free, now, e, table, ne, fresh, zs, size, same) = (
    grown-Mapped s t sin.din (set_blocks sin' (sin'.din.blocks + 1)).din ino m l (ap (λ n. n + 1) b)
        x.2 free now (λ i k n. ground (arith, e i k, n)) new table ne fresh,
    ap (λ n. n + 1) b,
    (λ i k. ground (arith, e i (omega (arith, k, l)), k)),
    new,
    free,
    zs,
    (λ i j k. x.3 (entry s sin.din i) j (m.held i k) (ground (arith, apart i k))),
    x,
    size,
    same,
  )
    where
      new : entry t sin'.din sin.din.blocks ≡ ino
      new = ground (arith, e sin.din.blocks l)

      apart : (i : ℕ) → i < sin.din.blocks → entry s sin.din i ≢ sin.din.indirect
      apart = m.table_apart

  load_new : Sound s → Ends (Loaded s sin) (load_block sin sin.din.blocks true s)
  unfolding load_block
  load_new ok =
      Ends-then (Got s sin) (Loaded s sin) (sfs_bmap_get_nolock sin sin.din.blocks true) _ s
        (sfs_bmap_get-Got s sin ok m l)
        (λ (ret, ino, sin') t (ok', c).
          Ends-if (Loaded s sin) (not (is_zero ret)) _ _ t
            (λ z. elim c [ inl h ↦ (ok', inl h) | inr (f, _) ↦ absurd (ground (arith, f, z)) ])
            (λ z. elim c [
              | inl (f, _, _) ↦ absurd (ground (arith, f, z))
              | inr (_, p) ↦
                  Ends-inuse (Loaded s sin) _ t ino ok' p.3 (ok', inr (refl, appended ino sin' t p))
            ]))

-- On a sound disk, and for a file whose map is in order and can take one more block,
-- `sfs_bmap_load_nolock` of the block behind the last fails no assertion, and the accounts of
-- the disk agree after it. Either the code is not 0 and the file and all blocks in use are as
-- before, or the file has one block more, which was free and holds zeros: the map is in order
-- again, the blocks it had are the same with the same contents, and of all other blocks in use
-- no more changes than the one entry.
pub sfs_bmap_load-Loaded :
    (s : SfsFs) (sin : SfsInode)
    → Sound s
    → Mapped s sin.din
    → sin.din.blocks < max_blocks
    → Ends (Loaded s sin) (sfs_bmap_load_nolock sin sin.din.blocks s)
unfolding sfs_bmap_load_nolock
sfs_bmap_load-Loaded s sin ok m l =
    Ends-assert (Loaded s sin) (leb sin.din.blocks sin.din.blocks) _ s (ground arith) (
      subst (λ b. Ends (Loaded s sin) (load_block sin sin.din.blocks b s))
        (let e : true ≡ (sin.din.blocks == sin.din.blocks) = ground arith in e)
        (load_new s sin m l ok))
