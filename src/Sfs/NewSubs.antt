-- ===== src/Sfs/NewSubs.antt =====
-- kern/fs/sfs/sfs_inode.c: `sfs_bmap_get_sub_nolock` where the entry is to be made.
use ucoreonrv.Prelude.{
  ℕ, ◌+◌, ◌*◌, ◌<◌, ◌≡◌, ◌≢◌, ℕ_discrete, inl, inr, refl, ap, ◌∙◌, sym, subst, true, not, ◌||◌,
  ◌==◌, if◌then◌else◌, ltb, arith,
}
use ucoreonrv.Prelude.Int.{ℤ, pos}
use ucoreonrv.Prelude.Errors.{Ends, Ends-mono}
use ucoreonrv.Files.Open.{is_zero}
use ucoreonrv.Sfs.State.{blk_nentry, SfsFs, Block, u32_at, pure}
use ucoreonrv.Sfs.Device.{sfs_rbuf}
use ucoreonrv.Sfs.Blocks.{sfs_block_alloc}
use ucoreonrv.Sfs.Bmap.{new_entry, sfs_bmap_get_sub_nolock}
use ucoreonrv.Sfs.Runs.{Ends-then, Ends-assert, Ends-if}
use ucoreonrv.Sfs.Transfers.{Calls, Rbuf, sfs_rbuf-Rbuf}
use ucoreonrv.Sfs.Accounts.{Sound, used}
use ucoreonrv.Sfs.Allocation.{Sound-same, used_same, Allocated, sfs_block_alloc-Allocated}
use ucoreonrv.Sfs.Words.{word, u32_at_same}
use ucoreonrv.Sfs.Entries.{Made, new_entry-Made, used-Numbered}
use ucoreonrv.Sfs.Subs.{Quiet, Grown, old_table, new_table}

pub Sound-Quiet : (s t : SfsFs) → Sound s → Quiet s t → Sound t
Sound-Quiet s t ok ((b, c, f, m), d) = Sound-same s t ok b c f

module _ (s : SfsFs) (p k : ℕ) (ok : Sound s) (l : k < blk_nentry) where
  in_old :
      p ≢ 0
      → used s p ≡ true
      → word s p k ≡ 0
      → Ends (Grown s p k) (sfs_bmap_get_sub_nolock p k true s)
  unfolding sfs_bmap_get_sub_nolock
  in_old ne u e = Ends-assert (Grown s p k) (ltb k blk_nentry) _ s (ground (arith, l)) (
      Ends-if (Grown s p k) (not (p == 0)) _ _ s
        (λ z.
          Ends-then (Rbuf s p (k * 4)) (Grown s p k) (sfs_rbuf 4 p (k * 4)) _ s
            (sfs_rbuf-Rbuf s 4 p (k * 4) (used-Numbered s p ok u)
              (omega (arith, l), omega (arith, l)))
            (λ (ret, b) t (c, d, h, _). read_zero ret b t c d h))
        (λ z. absurd (ground (arith, z, ne))))
    where
      read_zero :
          (ret : ℤ) (b : Block) (t : SfsFs)
          → Calls s t
          → ((q j : ℕ) → t.disk q j ≡ s.disk q j)
          → (is_zero ret ≡ true → (i : ℕ) → b i ≡ s.disk p (k * 4 + i))
          → Ends (Grown s p k) (
              (if not (is_zero ret)
                  then pure (ret, p, 0)
                  else if not (u32_at b 0 == 0) || not true
                  then pure (pos 0, p, u32_at b 0)
                  else new_entry p p k)
                t)
      read_zero ret b t c d h =
          Ends-if (Grown s p k) (not (is_zero ret)) _ _ t
            (λ f. (
              Sound-Quiet s t ok (c, d),
              inl (
                ground (arith, f),
                refl,
                (c.0, c.3, (λ x w. used_same s t x c.0 c.2 ∙ w), (λ x j w n. d x j)),
              ),
            ))
            (λ f.
              let same : u32_at b 0 ≡ u32_at (s.disk p) (k * 4) =
                u32_at_same (s.disk p) b (k * 4) 0
                  (λ j m. ap b {x = 0 + j} {y = j} (omega arith) ∙ h (ground (arith, f)) j) in
              Ends-if (Grown s p k) (not (u32_at b 0 == 0) || not true) _ _ t
                (λ g. absurd (ground (arith, g, same, e, ne)))
                (λ g.
                  Ends-mono (Made t p p k) (Grown s p k) (new_entry p p k t)
                    (new_entry-Made t p p k (Sound-Quiet s t ok (c, d))
                      (used_same s t p c.0 c.2 ∙ u) l)
                    (λ (a, v) w. old_table s t p k u (c, d) a v w)))

  in_fresh : Ends (Grown s 0 k) (sfs_bmap_get_sub_nolock 0 k true s)
  unfolding sfs_bmap_get_sub_nolock
  in_fresh = Ends-assert (Grown s 0 k) (ltb k blk_nentry) _ s (ground (arith, l)) (
      Ends-then (Allocated s) (Grown s 0 k) sfs_block_alloc _ s (sfs_block_alloc-Allocated s ok)
        (λ (ret, ent) t (ok', x, c).
          Ends-if (Grown s 0 k) (not (is_zero ret)) _ _ t
            (λ z. (ok', inl (ground (arith, z), refl, x)))
            (λ z. elim c [
              | inl (f, _, _) ↦ absurd (ground (arith, z, ap is_zero f))
              | inr (free, now, _, zs) ↦
                  Ends-mono (Made t 0 ent k) (Grown s 0 k) (new_entry 0 ent k t)
                    (new_entry-Made t 0 ent k ok' now l)
                    (λ (a, v) w. new_table s t ent k x free now (zs (ground (arith, z))) a v w)
            ])))

-- Where the entry is 0 and `create` is set, a fresh block becomes the entry, or nothing changes.
pub get_sub-Grown :
    (s : SfsFs) (p k : ℕ)
    → Sound s
    → k < blk_nentry
    → (p ≢ 0 → used s p ≡ true)
    → word s p k ≡ 0
    → Ends (Grown s p k) (sfs_bmap_get_sub_nolock p k true s)
get_sub-Grown s p k ok l u e = elim (ℕ_discrete p 0) [
  | yes z ↦
      subst (λ p. Ends (Grown s p k) (sfs_bmap_get_sub_nolock p k true s)) (sym z)
        (in_fresh s p k ok l)
  | no n ↦ in_old s p k ok l n (u n) e
]
