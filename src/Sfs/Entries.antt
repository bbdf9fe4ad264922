-- ===== src/Sfs/Entries.antt =====
-- kern/fs/sfs/sfs_inode.c: a new entry in the block of entries, `sfs_bmap_get_sub_nolock`.
use ucoreonrv.Prelude.{
  ℕ, ◌+◌, ◌*◌, ◌<◌, ◌^◌, ◌≡◌, ◌⊎◌, inl, inr, refl, ap, ◌∙◌, Bool, true, false, not, ◌&&◌, ◌==◌,
  arith,
}
use ucoreonrv.Prelude.Int.{ℤ, pos}
use ucoreonrv.Prelude.Errors.{Ends, Ends-mono}
use ucoreonrv.Files.Open.{is_zero}
use ucoreonrv.Sfs.State.{blk_nentry, SfsFs, u32_at, u32_bytes, put_bytes, pure, ◌>>◌}
use ucoreonrv.Sfs.Device.{sfs_wbuf}
use ucoreonrv.Sfs.Blocks.{sfs_block_alloc, sfs_block_free}
use ucoreonrv.Sfs.Bmap.{give_back, new_entry}
use ucoreonrv.Sfs.Runs.{Ends-then, Ends-if}
use ucoreonrv.Sfs.Transfers.{Numbered, Wbuf, sfs_wbuf-Wbuf}
use ucoreonrv.Sfs.Accounts.{Sound, used}
use ucoreonrv.Sfs.Allocation.{
  Sound-same, used_same, Extends, nothing, Allocated, sfs_block_alloc-Allocated,
}
use ucoreonrv.Sfs.Freeing.{Freed, sfs_block_free-Freed}
use ucoreonrv.Sfs.Words.{word, slot, u32_at-put_bytes, u32_at_same}

pub used-Numbered : (s : SfsFs) (x : ℕ) → Sound s → used s x ≡ true → Numbered s x
used-Numbered s x ok u = (ground (arith, u), ground (arith, u), ok.small)

-- All blocks in use but the one that `give_back` frees stay so, and hold what they held.
abbrev pub Leaves : SfsFs → (entp ent : ℕ) → SfsFs → Type 0
Leaves s entp ent s' =
    Sound s'
    × (s'.blocks ≡ s.blocks)
    × (s'.mem ≡ s.mem)
    × ((x : ℕ) → used s x ≡ true → (x == ent && not (ent == entp)) ≡ false → used s' x ≡ true)
    × ((x j : ℕ) → used s x ≡ true → s'.disk x j ≡ s.disk x j)

give_back-Leaves :
    (s : SfsFs) (entp ent : ℕ)
    → Sound s
    → used s ent ≡ true
    → Ends (λ (_, t). Leaves s entp ent t) (give_back entp ent s)
give_back-Leaves s entp ent ok u =
    Ends-if (λ (_, t). Leaves s entp ent t) (ent == entp) _ _ s
      (λ e. (ok, refl, refl, λ x v n. v, λ x j v. refl))
      (λ e.
        Ends-mono (Freed s ent) (λ (_, t). Leaves s entp ent t) (sfs_block_free ent s)
          (sfs_block_free-Freed s ent ok u)
          (λ (_, t) (ok', b, m, f, d, c).
            (ok', b, m, λ x v n. ground (arith, f x, v, n, e), λ x j v. d x j)))

-- The fresh block `ino` is entry `k` of the block `ent`.
abbrev pub Entered : SfsFs → (ent k ino : ℕ) → SfsFs → Type 0
Entered s ent k ino s' =
    Extends (slot ent k) s s'
    × (used s ino ≡ false)
    × (used s' ino ≡ true)
    × (word s' ent k ≡ ino)
    × ((j : ℕ) → s'.disk ino j ≡ 0)

abbrev pub Made : SfsFs → (entp ent k : ℕ) → (ℤ × ℕ × ℕ) × SfsFs → Type 0
Made s entp ent k ((ret, e, ino), s') =
    ((is_zero ret ≡ false) × (e ≡ entp) × Leaves s entp ent s')
    ⊎ ((is_zero ret ≡ true) × (e ≡ ent) × Sound s' × Entered s ent k ino s')

-- What `give_back` leaves after steps that let all blocks in use stand.
then_back :
    (s t u : SfsFs) (entp ent : ℕ) → Extends nothing s t → Leaves t entp ent u → Leaves s entp ent u
then_back s t u entp ent (b, m, k, d) (ok, b', m', k', d') =
    (ok, b' ∙ b, m' ∙ m, λ x v n. k' x (k x v) n, λ x j v. d' x j (k x v) ∙ d x j v refl)

fails :
    (s t : SfsFs) (entp ent k : ℕ) (ret : ℤ)
    → Sound t
    → used t ent ≡ true
    → Extends nothing s t
    → is_zero ret ≡ false
    → Ends (Made s entp ent k) ((give_back entp ent >> pure (ret, entp, 0)) t)
fails s t entp ent k ret ok u x z =
    Ends-then (λ (_, v). Leaves t entp ent v) (Made s entp ent k) (give_back entp ent) _ t
      (give_back-Leaves t entp ent ok u) (λ _ v l. inl (z, refl, then_back s t v entp ent x l))

module _ (s t : SfsFs) (entp ent k ino : ℕ) (u : used s ent ≡ true) (l : k < blk_nentry)
    (ok : Sound t) (ext : Extends nothing s t) (free : used s ino ≡ false) (now : used t ino ≡ true)
    (zeros : (j : ℕ) → t.disk ino j ≡ 0) where
  -- The entry is written.
  written :
      (ret : ℤ) (v : SfsFs)
      → Wbuf t (u32_bytes ino) 4 ent (k * 4) (ret, v)
      → is_zero ret ≡ true
      → Made s entp ent k ((pos 0, ent, ino), v)
  written ret v ((b, c, f, m), d) z = inr (
    refl,
    refl,
    Sound-same t v ok b c f,
    (
      (
        (b ∙ ext.0),
        (m ∙ ext.1),
        (λ x w. used_same t v x b f ∙ ext.2 x w),
        (λ x j w n. ground (arith, z, d x j, n, ext.3 x j w)),
      ),
      free,
      used_same t v ino b f ∙ now,
      ground (arith, u, entered),
      (λ j. ground (arith, z, d ino j, u, free, zeros j, ap (used s) {x = ino} {y = ent})),
    ),
  )
    where
      in_range : ino < 2 ^ 32
      in_range = ground (arith, now, ok.small)

      entered : u32_at (v.disk ent) (k * 4) ≡ ino
      entered =
          u32_at_same (put_bytes (t.disk ent) (k * 4) 4 (u32_bytes ino)) (v.disk ent) (k * 4)
            (k * 4) (λ j h. ground (arith, z, d ent (k * 4 + j)))
          ∙ u32_at-put_bytes (t.disk ent) k ino in_range

  -- It is not.
  refused :
      (ret : ℤ) (v : SfsFs)
      → Wbuf t (u32_bytes ino) 4 ent (k * 4) (ret, v)
      → is_zero ret ≡ false
      → Ends
          (Made s entp ent k)
          ((sfs_block_free ino >> (give_back entp ent >> pure (ret, entp, 0))) v)
  refused ret v ((b, c, f, m), d) z =
      Ends-then (Freed v ino) (Made s entp ent k) (sfs_block_free ino) _ v
        (sfs_block_free-Freed v ino (Sound-same t v ok b c f) (used_same t v ino b f ∙ now))
        (λ _ w (ok', b', m', f', d', c').
          fails s w entp ent k ret ok' (still ent u (f' ent))
            (
              b' ∙ b ∙ ext.0,
              m' ∙ m ∙ ext.1,
              (λ x p. still x p (f' x)),
              (λ x j p n. ground (arith, z, d' x j, d x j, ext.3 x j p)),
            )
            z)
    where
      still : (x : ℕ) → used s x ≡ true → {r : Bool} → r ≡ (not (x == ino) && used v x) → r ≡ true
      still x p e =
          ground (arith, e, used_same t v x b f, ext.2 x p, free, ap (used s) {x = ino} {y = x}, p)

pub new_entry-Made :
    (s : SfsFs) (entp ent k : ℕ)
    → Sound s
    → used s ent ≡ true
    → k < blk_nentry
    → Ends (Made s entp ent k) (new_entry entp ent k s)
unfolding new_entry
new_entry-Made s entp ent k ok u l =
    Ends-then (Allocated s) (Made s entp ent k) sfs_block_alloc _ s (sfs_block_alloc-Allocated s ok)
      (λ (ret, ino) t (ok', x, c).
        Ends-if (Made s entp ent k) (not (is_zero ret)) _ _ t
          (λ z. fails s t entp ent k ret ok' (x.2 ent u) x (ground (arith, z)))
          (λ z. elim c [
            | inl (e, _, _) ↦ absurd (ground (arith, z, ap is_zero e))
            | inr (free, now, _, zeros) ↦
                Ends-then (Wbuf t (u32_bytes ino) 4 ent (k * 4)) (Made s entp ent k)
                  (sfs_wbuf (u32_bytes ino) 4 ent (k * 4)) _ t
                  (sfs_wbuf-Wbuf t (u32_bytes ino) 4 ent (k * 4)
                    (used-Numbered t ent ok' (x.2 ent u)) (omega (arith, l), omega (arith, l)))
                  (λ ret' v w.
                    let zs = zeros (ground (arith, z)) in
                    Ends-if (Made s entp ent k) (is_zero ret') _ _ v
                      (written s t entp ent k ino u l ok' x free now zs ret' v w)
                      (refused s t entp ent k ino u l ok' x free now zs ret' v w))
          ]))
