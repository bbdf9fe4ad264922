-- ===== src/Sfs/Finding.antt =====
-- kern/fs/sfs/sfs_inode.c: `sfs_bmap_load_nolock` of a block that the file has.
use ucoreonrv.Prelude.{
  ℕ, ◌-◌, ◌<◌, ◌≡◌, ◌≢◌, refl, ap, ◌∙◌, sym, subst, true, false, not, ◌&&◌, ◌||◌, ◌==◌,
  if◌then◌else◌, ltb, leb, arith,
}
use ucoreonrv.Prelude.Int.{ℤ}
use ucoreonrv.Prelude.Errors.{done, Ends}
use ucoreonrv.Files.Open.{is_zero}
use ucoreonrv.Sfs.State.{ndirect, blk_nentry, SfsFs, SfsInode, pure}
use ucoreonrv.Sfs.Blocks.{assert_inuse}
use ucoreonrv.Sfs.Bmap.{
  sfs_bmap_get_sub_nolock, sfs_bmap_get_nolock, load_block, sfs_bmap_load_nolock, got,
}
use ucoreonrv.Sfs.Runs.{Ends-then, Ends-assert, Ends-if, Ends-known}
use ucoreonrv.Sfs.Accounts.{Sound, used}
use ucoreonrv.Sfs.Allocation.{assert_inuse-used, used_same, Ends-inuse}
use ucoreonrv.Sfs.Mapped.{entry, Mapped}
use ucoreonrv.Sfs.Subs.{Quiet, Read, get_sub-Read}
use ucoreonrv.Sfs.NewSubs.{Sound-Quiet}

-- The block of the disk that holds block `i` of the file; nothing changes.
abbrev pub Found : SfsFs → SfsInode → (i : ℕ) → (ℤ × ℕ × SfsInode) × SfsFs → Type 0
Found s sin i ((ret, ino, sin'), s') =
    (sin' ≡ sin)
    × Quiet s s'
    × (is_zero ret ≡ true → ino ≡ entry s sin.din i)
    × (is_zero ret ≡ (ltb i ndirect || is_zero (s.codes 0)))

module _ (s : SfsFs) (sin : SfsInode) (ok : Sound s) (m : Mapped s sin.din) (i : ℕ)
    (l : i < sin.din.blocks) where
  got-Found :
      (t : SfsFs) (ino : ℕ)
      → Quiet s t
      → ino ≡ entry s sin.din i
      → (ltb i ndirect || is_zero (s.codes 0)) ≡ true
      → Ends (Found s sin i) (got sin ino t)
  got-Found t ino q e c =
      Ends-known (Found s sin i) (if ino == 0 then pure tt else assert_inuse ino) _ t t tt stays
        (refl, q, (λ _. e), sym c)
    where
      u : used t ino ≡ true
      u = used_same s t ino q.0.0 q.0.2 ∙ ap (used s) e ∙ m.held i l

      stays : (if ino == 0 then pure tt else assert_inuse ino) t ≡ done (tt, t)
      stays = ground (arith, u, assert_inuse-used t ino (Sound-Quiet s t ok q) u)

  -- A block beyond those of the inode has its entry in a block of entries.
  held_there : ltb i ndirect ≡ false → sin.din.indirect ≢ 0
  held_there h e = ground (arith, h, e, m.held i l)

  get-Found : Ends (Found s sin i) (sfs_bmap_get_nolock sin i false s)
  unfolding sfs_bmap_get_nolock
  get-Found =
      Ends-if (Found s sin i) (ltb i ndirect) _ _ s
        (λ h.
          Ends-if (Found s sin i) (sin.din.direct i == 0 && false) _ _ s
            (λ z. absurd (ground (arith, z)))
            (λ _.
              got-Found s (sin.din.direct i) ((refl, refl, refl, refl), λ q j. refl)
                (ground (arith, h)) (ground (arith, h))))
        (λ h.
          Ends-assert (Found s sin i) (ltb (i - ndirect) blk_nentry) _ s
            (ground (arith, h, l, m.bound))
            (Ends-then (Read s sin.din.indirect (i - ndirect)) (Found s sin i)
              (sfs_bmap_get_sub_nolock sin.din.indirect (i - ndirect) false) _ s
              (get_sub-Read s sin.din.indirect (i - ndirect) false ok m.table
                (ground (arith, h, l, m.bound)) (λ z. absurd (cc)))
              (λ (ret, e, ino) t (q, c, r, a).
                Ends-if (Found s sin i) (not (is_zero ret)) _ _ t
                  (λ z. (
                    refl,
                    c,
                    (λ f. absurd (ground (arith, z, f))),
                    ground (arith, z, a, h, held_there h),
                  ))
                  (λ z.
                    Ends-if (Found s sin i) (e == sin.din.indirect) _ _ t
                      (λ _.
                        got-Found t ino c (r (ground (arith, z)) ∙ ground (arith, h))
                          (ground (arith, z, a, h, held_there h)))
                      (λ f. absurd (ground (arith, f, q)))))))

  load_old : Ends (Found s sin i) (load_block sin i false s)
  unfolding load_block
  load_old =
      Ends-then (Found s sin i) (Found s sin i) (sfs_bmap_get_nolock sin i false) _ s get-Found
        (λ (ret, ino, sin') t (e, q, f, a).
          Ends-if (Found s sin i) (not (is_zero ret)) _ _ t
            (λ z. (e, q, (λ g. absurd (ground (arith, z, g))), a))
            (λ z.
              let g = f (ground (arith, z)) in
              Ends-inuse (Found s sin i) _ t ino (Sound-Quiet s t ok q)
                (used_same s t ino q.0.0 q.0.2 ∙ ap (used s) g ∙ m.held i l)
                (e, q, (λ _. g), ground (arith, z, a))))

-- On a sound disk and for a file whose map is in order, `sfs_bmap_load_nolock` of a block that the
-- file has fails no assertion and leaves the inode, the disk, its accounts and memory as they are.
-- Its code is 0 if the entry stands in the inode, and else just if the device answers 0 to its one
-- call; with the code 0 it finds the entry.
pub sfs_bmap_load-Found :
    (s : SfsFs) (sin : SfsInode)
    → Sound s
    → Mapped s sin.din
    → (i : ℕ) → i < sin.din.blocks
    → Ends (Found s sin i) (sfs_bmap_load_nolock sin i s)
unfolding sfs_bmap_load_nolock
sfs_bmap_load-Found s sin ok m i l =
    Ends-assert (Found s sin i) (leb i sin.din.blocks) _ s (ground (arith, l)) (
      subst (λ b. Ends (Found s sin i) (load_block sin i b s))
        (let e : false ≡ (i == sin.din.blocks) = ground (arith, l) in e) (load_old s sin ok m i l))
