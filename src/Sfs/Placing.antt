-- ===== src/Sfs/Placing.antt =====
-- kern/fs/sfs/sfs_inode.c: `sfs_bmap_get_nolock` for the block behind the last of a file.
use ucoreonrv.Prelude.{
  dec_lt, ==_iff, ℕ, ◌+◌, ◌-◌, ◌*◌, ◌<◌, ◌≤◌, ◌≡◌, ◌≢◌, ◌⊎◌, ℕ_discrete, inl, inr, refl, ap, sym,
  subst, Bool, true, false, not, ◌&&◌, ◌==◌, if◌then◌else◌, ltb, arith,
}
use ucoreonrv.Prelude.Int.{ℤ}
use ucoreonrv.Prelude.Errors.{done, Ends}
use ucoreonrv.Files.Open.{is_zero}
use ucoreonrv.Sfs.State.{ndirect, blk_nentry, SfsFs, SfsInode, pure, ◌>>◌, assert}
use ucoreonrv.Sfs.Blocks.{assert_inuse, sfs_block_alloc}
use ucoreonrv.Sfs.Bmap.{sfs_bmap_get_sub_nolock, sfs_bmap_get_nolock, set_direct, set_indirect, got}
use ucoreonrv.Sfs.Runs.{Ends-known, Ends-then, Ends-assert, Ends-if}
use ucoreonrv.Sfs.Accounts.{Sound, used}
use ucoreonrv.Sfs.Allocation.{
  assert_inuse-used, Extends, nothing, Allocated, sfs_block_alloc-Allocated,
}
use ucoreonrv.Sfs.Words.{word, slot, u32_at_same}
use ucoreonrv.Sfs.Mapped.{max_blocks, entry, Mapped, used_apart}
use ucoreonrv.Sfs.Subs.{Grown, GrownBy}
use ucoreonrv.Sfs.NewSubs.{get_sub-Grown}

-- The fresh block `ino` is the entry behind the last; the others are as they were.
abbrev pub Placed : SfsFs → SfsInode → (ino : ℕ) → SfsInode → SfsFs → Type 0
Placed s sin ino sin' s' =
    Extends (slot sin.din.indirect (sin.din.blocks - ndirect)) s s'
    × (sin'.din.blocks ≡ sin.din.blocks)
    × (used s ino ≡ false)
    × (used s' ino ≡ true)
    × ((i : ℕ)
        → i < max_blocks
        → entry s' sin'.din i ≡ (if i == sin.din.blocks then ino else entry s sin.din i))
    × (sin'.din.indirect ≢ 0 → used s' sin'.din.indirect ≡ true)
    × (ino ≢ sin'.din.indirect)
    × (sin'.din.indirect ≢ sin.din.indirect → used s sin'.din.indirect ≡ false)
    × ((j : ℕ) → s'.disk ino j ≡ 0)
    × (sin'.din.size ≡ sin.din.size)
    × (sin'.ino ≡ sin.ino)

-- It is so, or nothing of the file changes.
abbrev pub Got : SfsFs → SfsInode → (ℤ × ℕ × SfsInode) × SfsFs → Type 0
Got s sin ((ret, ino, sin'), s') =
    Sound s'
    × (((is_zero ret ≡ false) × (sin' ≡ sin) × Extends nothing s s')
        ⊎ ((is_zero ret ≡ true) × Placed s sin ino sin' s'))

got-Got :
    (s t : SfsFs) (sin sin' : SfsInode) (ino : ℕ)
    → Sound t
    → Placed s sin ino sin' t
    → Ends (Got s sin) (got sin' ino t)
got-Got s t sin sin' ino ok h =
    Ends-known (Got s sin) (if ino == 0 then pure tt else assert_inuse ino) _ t t tt stays
      (ok, inr (refl, h))
  where
    stays : (if ino == 0 then pure tt else assert_inuse ino) t ≡ done (tt, t)
    stays = ground (arith, h.3, assert_inuse-used t ino ok h.3)

module _ (s : SfsFs) (sin : SfsInode) (ok : Sound s) (m : Mapped s sin.din) where
  -- Entries of the block of entries do not change where that is in use and stands.
  word_kept :
      (t : SfsFs) (i : ℕ)
      → Extends nothing s t
      → word t sin.din.indirect i ≡ word s sin.din.indirect i
  word_kept t i x = elim (ℕ_discrete sin.din.indirect 0) [
    | yes z ↦ ground (arith, z)
    | no n ↦
        ap (λ r. if sin.din.indirect == 0 then 0 else r)
          (u32_at_same (s.disk sin.din.indirect) (t.disk sin.din.indirect) (i * 4) (i * 4)
            (λ j l. x.3 sin.din.indirect (i * 4 + j) (m.table n) refl))
  ]

  in_direct :
      (ino : ℕ) (t : SfsFs)
      → sin.din.blocks < ndirect
      → Extends nothing s t
      → used s ino ≡ false
      → used t ino ≡ true
      → ((j : ℕ) → t.disk ino j ≡ 0)
      → Placed s sin ino (set_direct sin sin.din.blocks ino) t
  in_direct ino t l x free now zs = (
    (x.0, x.1, x.2, (λ y j u n. x.3 y j u refl)),
    refl,
    free,
    now,
    (λ i k. ground (arith, l, word_kept t (i - ndirect) x)),
    (λ n. x.2 sin.din.indirect (m.table n)),
    (λ e. elim (ℕ_discrete sin.din.indirect 0) [
      | yes z ↦ absurd (ground (arith, now, e, z))
      | no n ↦ used_apart s (m.table n) free (sym e)
    ]),
    (λ n. absurd (n refl)),
    zs,
    refl,
    refl,
  )

  in_table :
      (ino e : ℕ) (t : SfsFs) (dirty : Bool)
      → ndirect ≤ sin.din.blocks
      → GrownBy s sin.din.indirect (sin.din.blocks - ndirect) e ino t
      → Placed s sin ino (record sin { din = record (sin.din) { indirect = e }; dirty = dirty }) t
  in_table ino e t dirty l (x, u, f, free, now, ne, w, zs) = (
    x,
    refl,
    free,
    now,
    (λ i k. ground (arith, l, w (i - ndirect))),
    (λ n. u),
    ne,
    (λ n. elim f [ inl q ↦ absurd (n q) | inr (z, g) ↦ g ]),
    zs,
    refl,
    refl,
  )

  place_direct :
      sin.din.blocks < ndirect → Ends (Got s sin) (sfs_bmap_get_nolock sin sin.din.blocks true s)
  unfolding sfs_bmap_get_nolock
  place_direct l =
      Ends-if (Got s sin) (ltb sin.din.blocks ndirect) _ _ s
        (λ _.
          Ends-if (Got s sin) (sin.din.direct sin.din.blocks == 0 && true) _ _ s
            (λ z.
              Ends-then (Allocated s) (Got s sin) sfs_block_alloc _ s
                (sfs_block_alloc-Allocated s ok)
                (λ (ret, ino) t (ok', x, c).
                  Ends-if (Got s sin) (not (is_zero ret)) _ _ t
                    (λ z. (ok', inl (ground (arith, z), refl, x)))
                    (λ z. elim c [
                      | inl (f, _, _) ↦ absurd (ground (arith, z, ap is_zero f))
                      | inr (free, now, _, zs) ↦
                          got-Got s t sin (set_direct sin sin.din.blocks ino) ino ok'
                            (in_direct ino t l x free now (zs (ground (arith, z))))
                    ])))
            (λ z. absurd (ground (arith, z, empty))))
        (λ z. absurd (ground (arith, z, l)))
    where
      empty : sin.din.direct sin.din.blocks ≡ 0
      empty = ground (arith, l, m.beyond sin.din.blocks (omega arith) (omega (arith, l)))

  place_table :
      ndirect ≤ sin.din.blocks
      → sin.din.blocks < max_blocks
      → Ends (Got s sin) (sfs_bmap_get_nolock sin sin.din.blocks true s)
  unfolding sfs_bmap_get_nolock
  place_table l k =
      Ends-if (Got s sin) (ltb sin.din.blocks ndirect) _ _ s (λ z. absurd (ground (arith, z, l)))
        (λ _.
          Ends-assert (Got s sin) (ltb (sin.din.blocks - ndirect) blk_nentry) _ s
            (ground (arith, l, k))
            (Ends-then (Grown s sin.din.indirect (sin.din.blocks - ndirect)) (Got s sin)
              (sfs_bmap_get_sub_nolock sin.din.indirect (sin.din.blocks - ndirect) true) _ s
              (get_sub-Grown s sin.din.indirect (sin.din.blocks - ndirect) ok (omega (arith, l, k))
                m.table empty)
              (λ (ret, e, ino) t (ok', c). ends ret e ino t ok' c)))
    where
      empty : word s sin.din.indirect (sin.din.blocks - ndirect) ≡ 0
      empty = ground (arith, l, m.beyond sin.din.blocks (omega arith) (omega (arith, k)))

      ends :
          (ret : ℤ) (e ino : ℕ) (t : SfsFs)
          → Sound t
          → ((is_zero ret ≡ false) × (e ≡ sin.din.indirect) × Extends nothing s t)
            ⊎ ((is_zero ret ≡ true) × GrownBy s sin.din.indirect (sin.din.blocks - ndirect) e ino t)
          → Ends (Got s sin) (
              (if not (is_zero ret)
                  then pure (ret, 0, sin)
                  else if e == sin.din.indirect
                  then got sin ino
                  else (assert (sin.din.indirect == 0) >> got (set_indirect sin e) ino))
                t)
      ends ret e ino t ok' (inl (z, q, x)) =
          Ends-if (Got s sin) (not (is_zero ret)) _ _ t (λ _. (ok', inl (z, refl, x)))
            (λ f. absurd (ground (arith, f, z)))
      ends ret e ino t ok' (inr (z, g)) =
          Ends-if (Got s sin) (not (is_zero ret)) _ _ t (λ f. absurd (ground (arith, f, z)))
            (λ _.
              Ends-if (Got s sin) (e == sin.din.indirect) _ _ t
                (λ q. got-Got s t sin sin ino ok' (
                  subst
                    (λ e.
                      Placed s sin ino (record sin { din = record (sin.din) { indirect = e } }) t)
                    ((==_iff e sin.din.indirect).0 q) (in_table ino e t sin.dirty l g)))
                (λ q.
                  Ends-assert (Got s sin) (sin.din.indirect == 0) _ t (zero_before q g.2)
                    (got-Got s t sin (set_indirect sin e) ino ok' (in_table ino e t true l g))))
        where
          zero_before :
              (e == sin.din.indirect) ≡ false
              → (e ≡ sin.din.indirect) ⊎ ((sin.din.indirect ≡ 0) × (used s e ≡ false))
              → (sin.din.indirect == 0) ≡ true
          zero_before q (inl f) = absurd (ground (arith, q, f))
          zero_before q (inr (f, _)) = ground (arith, f)

-- Where a block can be added, `sfs_bmap_get_nolock` with `create` places it or leaves the file.
pub sfs_bmap_get-Got :
    (s : SfsFs) (sin : SfsInode)
    → Sound s
    → Mapped s sin.din
    → sin.din.blocks < max_blocks
    → Ends (Got s sin) (sfs_bmap_get_nolock sin sin.din.blocks true s)
sfs_bmap_get-Got s sin ok m l = elim (dec_lt sin.din.blocks ndirect) [
  | yes k ↦ place_direct s sin ok m k
  | no k ↦ place_table s sin ok m (omega (arith, k)) l
]
