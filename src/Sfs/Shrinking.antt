-- ===== src/Sfs/Shrinking.antt =====
-- kern/fs/sfs/sfs_inode.c: `sfs_bmap_truncate_nolock`.
use ucoreonrv.Prelude.{
  ℕ, ◌+◌, ◌-◌, ◌*◌, ◌<◌, ◌≤◌, ◌≡◌, ◌≢◌, ◌⊎◌, inl, inr, refl, ap, true, false, not, ◌&&◌, ◌==◌,
  if◌then◌else◌, ltb, leb, arith,
}
use ucoreonrv.Prelude.Int.{ℤ, pos}
use ucoreonrv.Prelude.Errors.{Ends}
use ucoreonrv.Files.Open.{is_zero}
use ucoreonrv.Sfs.State.{ndirect, SfsFs, SfsInode, pure, ◌>>◌, ◌>>=◌}
use ucoreonrv.Sfs.Blocks.{sfs_block_free}
use ucoreonrv.Sfs.Bmap.{sfs_bmap_free_sub_nolock, set_direct}
use ucoreonrv.Sfs.Runs.{Ends-then}
use ucoreonrv.Sfs.Accounts.{Sound, used}
use ucoreonrv.Sfs.Freeing.{Freed, sfs_block_free-Freed}
use ucoreonrv.Sfs.Words.{word, slot, u32_at_same}
use ucoreonrv.Sfs.Mapped.{max_blocks, entry, Mapped}
use ucoreonrv.Sfs.Subs.{Quiet}
use ucoreonrv.Sfs.NewSubs.{Sound-Quiet}
use ucoreonrv.Sfs.Erasing.{FreedSub, free_sub-FreedSub}

-- The inode, where the pointer to block `n` of the file is 0 if it stands in the inode.
abbrev pub SameNode : SfsInode → (n : ℕ) → SfsInode → Type 0
SameNode sin n sin' =
    (sin'.din.type ≡ sin.din.type)
    × (sin'.din.nlinks ≡ sin.din.nlinks)
    × (sin'.din.indirect ≡ sin.din.indirect)
    × (sin'.reclaim_count ≡ sin.reclaim_count)
    × ((i : ℕ) → sin'.din.direct i ≡ (if i == n && ltb n ndirect then 0 else sin.din.direct i))

-- The file has lost its last block, which is free now. Its other blocks are the same and hold what
-- they held, and of all other blocks no more changes than the one entry.
abbrev pub Removed : SfsFs → SfsInode → SfsInode → SfsFs → Type 0
Removed s sin sin' s' =
    Mapped s' sin'.din
    × (sin'.din.blocks + 1 ≡ sin.din.blocks)
    × ((i : ℕ) → i < sin'.din.blocks → entry s' sin'.din i ≡ entry s sin.din i)
    × ((y : ℕ) → used s' y ≡ (not (y == entry s sin.din sin'.din.blocks) && used s y))
    × ((i j : ℕ)
        → i < sin'.din.blocks
        → s'.disk (entry s sin.din i) j ≡ s.disk (entry s sin.din i) j)
    × ((q j : ℕ)
        → (leb ndirect sin'.din.blocks && slot sin.din.indirect (sin'.din.blocks - ndirect) q j)
          ≡ false
        → s'.disk q j ≡ s.disk q j)
    × (sin'.din.size ≡ sin.din.size)
    × (sin'.ino ≡ sin.ino)
    × (s'.blocks ≡ s.blocks)
    × (s'.mem ≡ s.mem)
    × (sin'.dirty ≡ true)
    × SameNode sin sin'.din.blocks sin'

abbrev pub Shortened : SfsFs → SfsInode → (ℤ × SfsInode) × SfsFs → Type 0
Shortened s sin ((ret, sin'), s') =
    Sound s'
    × (((is_zero ret ≡ false) × (sin' ≡ sin) × Quiet s s')
        ⊎ ((is_zero ret ≡ true) × Removed s sin sin' s'))

-- The same before `din->blocks` is counted down.
abbrev pub Unlinked : SfsFs → SfsInode → (n : ℕ) → SfsInode → SfsFs → Type 0
Unlinked s sin n sin' s' =
    (sin'.din.blocks ≡ sin.din.blocks)
    × (sin'.din.indirect ≡ sin.din.indirect)
    × ((i : ℕ) → i < max_blocks → entry s' sin'.din i ≡ (if i == n then 0 else entry s sin.din i))
    × ((y : ℕ) → used s' y ≡ (not (y == entry s sin.din n) && used s y))
    × ((q j : ℕ)
        → (leb ndirect n && slot sin.din.indirect (n - ndirect) q j) ≡ false
        → s'.disk q j ≡ s.disk q j)
    × (sin'.din.size ≡ sin.din.size)
    × (sin'.ino ≡ sin.ino)
    × (s'.blocks ≡ s.blocks)
    × (s'.mem ≡ s.mem)
    × SameNode sin n sin'

abbrev pub UnlinkedOr : SfsFs → SfsInode → (n : ℕ) → (ℤ × SfsInode) × SfsFs → Type 0
UnlinkedOr s sin n ((ret, sin'), s') =
    Sound s'
    × (((is_zero ret ≡ false) × (sin' ≡ sin) × Quiet s s')
        ⊎ ((is_zero ret ≡ true) × Unlinked s sin n sin' s'))

module _ (s : SfsFs) (sin : SfsInode) (ok : Sound s) (m : Mapped s sin.din) (n : ℕ)
    (l : n + 1 ≡ sin.din.blocks) where
  pub held : used s (entry s sin.din n) ≡ true
  held = m.held n (omega (arith, l))

  pub free_direct :
      n < ndirect
      → Ends
          (UnlinkedOr s sin n)
          ((sfs_block_free (sin.din.direct n) >> pure (pos 0, set_direct sin n 0)) s)
  free_direct k =
      Ends-then (Freed s (sin.din.direct n)) (UnlinkedOr s sin n)
        (sfs_block_free (sin.din.direct n)) _ s
        (sfs_block_free-Freed s (sin.din.direct n) ok (ground (arith, held, k)))
        (λ _ t (ok', b, mem, f, d, _). (
          ok',
          inr (
            refl,
            (
              refl,
              refl,
              (λ i h. ground (arith, k, words t d (i - ndirect))),
              (λ y. ground (arith, k, f y)),
              (λ q j _. d q j),
              refl,
              refl,
              b,
              mem,
              (refl, refl, refl, refl, (λ i. ground (arith, k))),
            ),
          ),
        ))
    where
      words :
          (t : SfsFs)
          → ((q j : ℕ) → t.disk q j ≡ s.disk q j)
          → (i : ℕ) → word t sin.din.indirect i ≡ word s sin.din.indirect i
      words t d i =
          ap (λ r. if sin.din.indirect == 0 then 0 else r)
            (u32_at_same (s.disk sin.din.indirect) (t.disk sin.din.indirect) (i * 4) (i * 4)
              (λ j e. d sin.din.indirect (i * 4 + j)))

  pub free_entry :
      ndirect ≤ n
      → sin.din.indirect ≢ 0
      → Ends
          (UnlinkedOr s sin n)
          ((sfs_bmap_free_sub_nolock sin.din.indirect (n - ndirect) >>= λ ret. pure (ret, sin)) s)
  free_entry k nz =
      let p = sin.din.indirect in
      Ends-then (FreedSub s p (n - ndirect)) (UnlinkedOr s sin n)
        (sfs_bmap_free_sub_nolock p (n - ndirect)) _ s
        (free_sub-FreedSub s p (n - ndirect) ok (omega (arith, k, l, m.bound)) (m.table nz)
          (ground (arith, held, k)))
        (λ ret t h. elim h [
          | inl (z, q) ↦ (Sound-Quiet s t ok q, inl (z, refl, q))
          | inr (z, (ok', b, mem, f, d, w)) ↦ (
            ok',
            inr (
              z,
              (
                refl,
                refl,
                (λ i e. ground (arith, k, w, others t d (i - ndirect))),
                (λ y. ground (arith, k, f y)),
                (λ q j z. d q j (ground (arith, k, z))),
                refl,
                refl,
                b,
                mem,
                (refl, refl, refl, refl, (λ i. ground (arith, k))),
              ),
            ),
          )
        ])
    where
      others :
          (t : SfsFs)
          → ((q j : ℕ) → slot sin.din.indirect (n - ndirect) q j ≡ false → t.disk q j ≡ s.disk q j)
          → (i : ℕ) → i ≢ n - ndirect
          → word t sin.din.indirect i ≡ word s sin.din.indirect i
      others t d i ne =
          ap (λ r. if sin.din.indirect == 0 then 0 else r)
            (u32_at_same (s.disk sin.din.indirect) (t.disk sin.din.indirect) (i * 4) (i * 4)
              (λ j e. d sin.din.indirect (i * 4 + j) (ground (arith, ne, e))))
