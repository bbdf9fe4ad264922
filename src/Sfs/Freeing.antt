-- ===== src/Sfs/Freeing.antt =====
-- kern/fs/sfs/sfs_inode.c: `sfs_block_free`.
use ucoreonrv.Prelude.{ℕ, ◌+◌, ◌/◌, ◌%◌, ◌≡◌, refl, true, not, ◌==◌, ◌&&◌, arith}
use ucoreonrv.Prelude.Errors.{done, Ends}
use ucoreonrv.Sync.{set_at}
use ucoreonrv.Bitmaps.{bitmap_free, word_bits, set_word}
use ucoreonrv.Sfs.State.{SfsFs}
use ucoreonrv.Sfs.Blocks.{sfs_block_free}
use ucoreonrv.Sfs.Runs.{Ends-lift}
use ucoreonrv.Sfs.Accounts.{Sound, used, set_word-OneBit, total_set}
use ucoreonrv.Sfs.Allocation.{Ends-inuse}

-- Block `x` is given back, and no other is touched.
abbrev pub Freed : SfsFs → (x : ℕ) → Unit {0} × SfsFs → Type 0
Freed s x (_, s') =
    Sound s'
    × (s'.blocks ≡ s.blocks)
    × (s'.mem ≡ s.mem)
    × ((y : ℕ) → used s' y ≡ (not (y == x) && used s y))
    × ((y j : ℕ) → s'.disk y j ≡ s.disk y j)
    × (s'.unused_blocks ≡ s.unused_blocks + 1)

abbrev given : SfsFs → (x : ℕ) → SfsFs
given s x = record s {
  freemap =
      set_word s.freemap (x / word_bits)
        (set_at (s.freemap.map (x / word_bits)) (x % word_bits) true);
  unused_blocks = s.unused_blocks + 1;
  super_dirty = true;
}

free_lem :
    (s : SfsFs) (x : ℕ)
    → Sound s
    → used s x ≡ true
    → bitmap_free s.freemap x ≡ done (given s x).freemap
unfolding bitmap_free
free_lem s x ok u = ground (arith, u, ok.covered)

given-Freed : (s : SfsFs) (x : ℕ) → Sound s → used s x ≡ true → Freed s x (tt, given s x)
given-Freed s x ok u =
    let o = set_word-OneBit s.freemap x true in
    let c =
      total_set s.freemap (given s x).freemap x o (ground (arith, u))
        (ground (arith, u, ok.covered, ok.whole)) in
    (
      record {
        small = ok.small;
        covered = ok.covered;
        whole = ok.whole;
        inside = λ i k e. (
          ground (arith, u, o.2 i, e, ok.inside i k),
          ground (arith, u, o.2 i, e, ok.inside i k),
        );
        counted = ground (arith, ok.counted, c);
      },
      refl,
      refl,
      λ y. ground (arith, u, o.2 y),
      λ y j. refl,
      refl,
    )

-- Freeing a block in use fails no assertion. The block is free after it and counted as such, and
-- no other block and nothing on the disk changes.
pub sfs_block_free-Freed :
    (s : SfsFs) (x : ℕ) → Sound s → used s x ≡ true → Ends (Freed s x) (sfs_block_free x s)
unfolding sfs_block_free
sfs_block_free-Freed s x ok u = Ends-inuse (Freed s x) _ s x ok u (
    Ends-lift (Freed s x) (λ s. bitmap_free s.freemap x) _ s (given s x).freemap (free_lem s x ok u)
      (given-Freed s x ok u))
