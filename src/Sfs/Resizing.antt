-- ===== src/Sfs/Resizing.antt =====
-- kern/fs/sfs/sfs_inode.c: `sfs_truncfile` and `sfs_tryseek`.
use ucoreonrv.Prelude.{
  ℕ, ◌-◌, ◌*◌, ◌≤◌, ◌≡◌, refl, subst, true, not, ◌==◌, if◌then◌else◌, ltb, leb, arith,
}
use ucoreonrv.Prelude.Int.{ℤ, pos}
use ucoreonrv.Prelude.Errors.{Ends, Ends-mono}
use ucoreonrv.Files.Open.{is_zero}
use ucoreonrv.Sfs.State.{blksize, max_file_size, SfsFs, SfsInode, SfsDiskInode}
use ucoreonrv.Sfs.Resize.{blocks_of, enlarge, reduce, set_length, sfs_truncfile, sfs_tryseek}
use ucoreonrv.Sfs.Runs.{Ends-then, Ends-if, Ends-assert}
use ucoreonrv.Sfs.Accounts.{Sound}
use ucoreonrv.Sfs.Mapped.{max_blocks, Mapped}
use ucoreonrv.Sfs.Changing.{Changed, stays, Enlarged, enlarge-Enlarged, Reduced, reduce-Reduced}

-- The length that the blocks of an inode have room for.
abbrev pub max_length : ℕ
max_length = max_blocks * blksize

-- The loop ends, with the blocks asked for unless the code tells.
abbrev SetLength : SfsFs → SfsInode → (tblks : ℕ) → (ℤ × SfsInode) × SfsFs → Type 0
SetLength s sin tblks ((ret, sin'), s') =
    Sound s'
    × Mapped s' sin'.din
    × Changed s sin.din s' sin'.din
    × (is_zero ret ≡ true → sin'.din.blocks ≡ tblks)
    × (sin'.din.size ≡ sin.din.size)

set_length-SetLength :
    (s : SfsFs) (sin : SfsInode) (tblks : ℕ)
    → Sound s
    → Mapped s sin.din
    → tblks ≤ max_blocks
    → Ends (SetLength s sin tblks) (set_length sin tblks s)
unfolding set_length
set_length-SetLength s sin tblks ok m l =
    Ends-if (SetLength s sin tblks) (ltb sin.din.blocks tblks) _ _ s
      (λ z.
        Ends-mono (Enlarged s sin (tblks - sin.din.blocks)) (SetLength s sin tblks)
          (enlarge (tblks - sin.din.blocks) sin sin.din.blocks s)
          (enlarge-Enlarged (tblks - sin.din.blocks) s sin ok m (ground (arith, z, l)))
          (λ a (ok', m', c, _, _, e, f). (ok', m', c, (λ h. ground (arith, e h, z)), f)))
      (λ z.
        Ends-mono (Reduced s sin (sin.din.blocks - tblks)) (SetLength s sin tblks)
          (reduce (sin.din.blocks - tblks) sin s)
          (reduce-Reduced (sin.din.blocks - tblks) s sin ok m (omega arith))
          (λ a (ok', m', c, _, e, f). (ok', m', c, (λ h. ground (arith, e h, z)), f)))

-- If the code is 0 the file has the length `len` and the blocks for it, else its size is as before;
-- the blocks it keeps hold what they held, and those it gets hold zeros.
abbrev pub Resized : SfsFs → SfsInode → (len : ℕ) → (ℤ × SfsInode) × SfsFs → Type 0
Resized s sin len ((ret, sin'), s') =
    Sound s'
    × Mapped s' sin'.din
    × Changed s sin.din s' sin'.din
    × (sin'.din.size ≡ (if is_zero ret then len else sin.din.size))
    × (is_zero ret ≡ true → sin'.din.blocks ≡ blocks_of len)

-- On a sound disk, for a file whose map is in order and that has the blocks for its size, and for a
-- length that its inode has blocks for, `sfs_truncfile` fails no assertion. The accounts and the
-- map are in order after it. If the code is 0 the file has that length and exactly the blocks for it;
-- else its size is as before. The blocks it keeps hold what they held, and those that it gets hold zeros.
pub sfs_truncfile-Resized :
    (s : SfsFs) (sin : SfsInode) (len : ℕ)
    → Sound s
    → Mapped s sin.din
    → sin.din.blocks ≡ blocks_of sin.din.size
    → len ≤ max_length
    → Ends (Resized s sin len) (sfs_truncfile sin (pos len) s)
unfolding sfs_truncfile
sfs_truncfile-Resized s sin len ok m b l =
    Ends-if (Resized s sin len) (ltb max_file_size len) _ _ s (λ z. absurd (ground (arith, z, l)))
      (λ _.
        Ends-if (Resized s sin len) (sin.din.size == len) _ _ s
          (λ z.
            Ends-assert (Resized s sin len) (blocks_of len == sin.din.blocks) _ s
              (ground (arith, z, b))
              (ok, m, stays s sin.din m, ground (arith, z), λ _. ground (arith, z, b)))
          (λ _.
            Ends-then (SetLength s sin (blocks_of len)) (Resized s sin len)
              (set_length sin (blocks_of len)) _ s
              (set_length-SetLength s sin (blocks_of len) ok m (omega (arith, l)))
              (λ (ret, sin') t (ok', m', c, e, f).
                Ends-if (Resized s sin len) (not (is_zero ret)) _ _ t
                  (λ z. (ok', m', c, ground (arith, f, z), λ g. absurd (ground (arith, g, z))))
                  (λ z.
                    Ends-assert (Resized s sin len) (sin'.din.blocks == blocks_of len) _ t
                      (ground (arith, e (ground (arith, z))))
                      (
                        ok',
                        sized t sin'.din m',
                        changed t sin'.din c,
                        refl,
                        λ _. e (ground (arith, z)),
                      )))))
  where
    sized : (t : SfsFs) (d : SfsDiskInode) → Mapped t d → Mapped t (record d { size = len })
    sized t d m = record {
      bound = m.bound;
      held = m.held;
      beyond = m.beyond;
      apart = m.apart;
      table = m.table;
      table_apart = m.table_apart;
    }

    changed :
        (t : SfsFs) (d : SfsDiskInode)
        → Changed s sin.din t d
        → Changed s sin.din t (record d { size = len })
    changed t d c = record { keeps = c.keeps; holds = c.holds; zeros = c.zeros }

-- `sfs_tryseek` to a place that an inode has blocks for: a place behind the end makes the file
-- longer, so that it reaches the place or the code tells, and one up to the end changes nothing.
pub sfs_tryseek-Resized :
    (s : SfsFs) (sin : SfsInode) (len : ℕ)
    → Sound s
    → Mapped s sin.din
    → sin.din.blocks ≡ blocks_of sin.din.size
    → len ≤ max_length
    → Ends
        (Resized s sin (if leb len sin.din.size then sin.din.size else len))
        (sfs_tryseek sin (pos len) s)
unfolding sfs_tryseek
sfs_tryseek-Resized s sin len ok m b l =
    let n = if leb len sin.din.size then sin.din.size else len in
    Ends-if (Resized s sin n) (leb max_file_size len) _ _ s (λ z. absurd (ground (arith, z, l)))
      (λ _.
        Ends-if (Resized s sin n) (ltb sin.din.size len) _ _ s
          (λ z.
            subst (λ n. Ends (Resized s sin n) (sfs_truncfile sin (pos len) s))
              (let e : len ≡ (if leb len sin.din.size then sin.din.size else len) =
                  ground (arith, z) in
                e)
              (sfs_truncfile-Resized s sin len ok m b l))
          (λ z. (ok, m, stays s sin.din m, ground (arith, z), λ _. ground (arith, z, b))))
