-- ===== src/Sfs/Erasing.antt =====
-- kern/fs/sfs/sfs_inode.c: `sfs_bmap_free_sub_nolock`.
use ucoreonrv.Prelude.{
  ℕ, ◌+◌, ◌*◌, ◌<◌, ◌≡◌, ◌⊎◌, inl, inr, refl, ap, ◌∙◌, sym, subst, true, false, not, ◌&&◌, ◌==◌,
  if◌then◌else◌, ltb, arith,
}
use ucoreonrv.Prelude.Int.{ℤ, pos}
use ucoreonrv.Prelude.Errors.{Ends}
use ucoreonrv.Files.Open.{is_zero}
use ucoreonrv.Sfs.State.{blk_nentry, SfsFs, Block, u32_at, u32_bytes, put_bytes, pure, ◌>>◌, ◌>>=◌}
use ucoreonrv.Sfs.Device.{sfs_rbuf, sfs_wbuf}
use ucoreonrv.Sfs.Blocks.{sfs_block_free}
use ucoreonrv.Sfs.Bmap.{sfs_bmap_free_sub_nolock}
use ucoreonrv.Sfs.Runs.{Ends-then, Ends-assert, Ends-if}
use ucoreonrv.Sfs.Transfers.{Rbuf, sfs_rbuf-Rbuf, Wbuf, sfs_wbuf-Wbuf}
use ucoreonrv.Sfs.Accounts.{Sound, used}
use ucoreonrv.Sfs.Allocation.{Sound-same, used_same, Ends-inuse}
use ucoreonrv.Sfs.Freeing.{Freed, sfs_block_free-Freed}
use ucoreonrv.Sfs.Words.{word, slot, u32_at_same, u32_at-put_bytes}
use ucoreonrv.Sfs.Subs.{Quiet}
use ucoreonrv.Sfs.Entries.{used-Numbered}
use ucoreonrv.Sfs.NewSubs.{Sound-Quiet}

-- Block `x` is free, and its entry `k` in the block `p` is 0; nothing else changes.
abbrev pub Dropped : SfsFs → (p k x : ℕ) → SfsFs → Type 0
Dropped s p k x s' =
    Sound s'
    × (s'.blocks ≡ s.blocks)
    × (s'.mem ≡ s.mem)
    × ((y : ℕ) → used s' y ≡ (not (y == x) && used s y))
    × ((q j : ℕ) → slot p k q j ≡ false → s'.disk q j ≡ s.disk q j)
    × (word s' p k ≡ 0)

abbrev pub FreedSub : SfsFs → (p k : ℕ) → ℤ × SfsFs → Type 0
FreedSub s p k (ret, s') =
    ((is_zero ret ≡ false) × Quiet s s') ⊎ ((is_zero ret ≡ true) × Dropped s p k (word s p k) s')

module _ (s : SfsFs) (p k : ℕ) (ok : Sound s) (l : k < blk_nentry) (u : used s p ≡ true)
    (v : used s (word s p k) ≡ true) where
  -- The entry is 0 on the disk, and the block is freed.
  erased :
      (t w : SfsFs) (ret : ℤ)
      → Quiet s t
      → Wbuf t (u32_bytes 0) 4 p (k * 4) (ret, w)
      → is_zero ret ≡ true
      → Ends (FreedSub s p k) ((sfs_block_free (word s p k) >> pure (pos 0)) w)
  erased t w ret ((b, c, f, m), d) ((b', c', f', m'), d') z =
      let x = word s p k in
      let same = λ (y : ℕ). used_same t w y b' f' ∙ used_same s t y b f in
      Ends-then (Freed w x) (FreedSub s p k) (sfs_block_free x) _ w
        (sfs_block_free-Freed w x (Sound-same t w (Sound-same s t ok b c f) b' c' f') (same x ∙ v))
        (λ _ w' (ok', b'', m'', g, h, _). inr (
          refl,
          (
            ok',
            b'' ∙ b' ∙ b,
            m'' ∙ m' ∙ m,
            (λ y. g y ∙ ap (λ r. not (y == x) && r) (same y)),
            (λ q j n. ground (arith, h q j, d' q j, d q j, n, z)),
            ground (arith, u, zeroed w' h),
          ),
        ))
    where
      zeroed :
          (w' : SfsFs) → ((q j : ℕ) → w'.disk q j ≡ w.disk q j) → u32_at (w'.disk p) (k * 4) ≡ 0
      zeroed w' h =
          u32_at_same (put_bytes (t.disk p) (k * 4) 4 (u32_bytes 0)) (w'.disk p) (k * 4) (k * 4)
            (λ j e. ground (arith, z, h p (k * 4 + j), d' p (k * 4 + j)))
          ∙ u32_at-put_bytes (t.disk p) k 0 (omega arith)

  pub free_sub-FreedSub : Ends (FreedSub s p k) (sfs_bmap_free_sub_nolock p k s)
  unfolding sfs_bmap_free_sub_nolock
  free_sub-FreedSub = Ends-inuse (FreedSub s p k) _ s p ok u (
      Ends-assert (FreedSub s p k) (ltb k blk_nentry) _ s (ground (arith, l)) (
        Ends-then (Rbuf s p (k * 4)) (FreedSub s p k) (sfs_rbuf 4 p (k * 4)) _ s
          (sfs_rbuf-Rbuf s 4 p (k * 4) (used-Numbered s p ok u)
            (omega (arith, l), omega (arith, l)))
          (λ (ret, b) t (c, d, h, _).
            Ends-if (FreedSub s p k) (not (is_zero ret)) _ _ t
              (λ z. inl (ground (arith, z), (c, d)))
              (λ z.
                has_entry b t (c, d)
                  (ground (
                    arith,
                    u,
                    u32_at_same (s.disk p) b (k * 4) 0
                        (λ j m. ap b {x = 0 + j} {y = j} (omega arith) ∙ h (ground (arith, z)) j),
                  ))))))
    where
      failed :
          (t w : SfsFs) (ret : ℤ)
          → Quiet s t
          → Wbuf t (u32_bytes 0) 4 p (k * 4) (ret, w)
          → is_zero ret ≡ false
          → Quiet s w
      failed t w ret ((b, c, f, m), d) ((b', c', f', m'), d') z =
          ((b' ∙ b, c' ∙ c, f' ∙ f, m' ∙ m), (λ q j. ground (arith, d' q j, d q j, z)))

      has_entry :
          (b : Block) (t : SfsFs)
          → Quiet s t
          → u32_at b 0 ≡ word s p k
          → Ends (FreedSub s p k) (
              (if u32_at b 0 == 0
                  then pure (pos 0)
                  else (sfs_wbuf (u32_bytes 0) 4 p (k * 4) >>= λ ret'.
                      if is_zero ret'
                      then (sfs_block_free (u32_at b 0) >> pure (pos 0))
                      else pure ret'))
                t)
      has_entry b t q e =
          Ends-if (FreedSub s p k) (u32_at b 0 == 0) _ _ t
            (λ z. absurd (ground (arith, z, v, ap (used s) e)))
            (λ z.
              Ends-then (Wbuf t (u32_bytes 0) 4 p (k * 4)) (FreedSub s p k)
                (sfs_wbuf (u32_bytes 0) 4 p (k * 4)) _ t
                (sfs_wbuf-Wbuf t (u32_bytes 0) 4 p (k * 4)
                  (used-Numbered t p (Sound-Quiet s t ok q) (used_same s t p q.0.0 q.0.2 ∙ u))
                  (omega (arith, l), omega (arith, l)))
                (λ ret' w h.
                  Ends-if (FreedSub s p k) (is_zero ret') _ _ w
                    (λ f.
                      subst (λ x. Ends (FreedSub s p k) ((sfs_block_free x >> pure (pos 0)) w))
                        (sym e) (erased t w ret' q h f))
                    (λ f. inl (f, failed t w ret' q h f))))
