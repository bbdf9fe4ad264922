-- ===== src/Sfs/Blocks.antt =====
-- kern/fs/sfs/sfs_inode.c: the blocks of the disk that are in use, and those that are free.
use ucoreonrv.Prelude.{ℕ, ◌-◌, ◌+◌, Bool, true, not, ◌&&◌, none, some, ◌==◌, if◌then◌else◌, ltb}
use ucoreonrv.Prelude.Int.{ℤ}
use ucoreonrv.Files.Open.{is_zero}
use ucoreonrv.Bitmaps.{bitmap_alloc, bitmap_test, bitmap_free}
use ucoreonrv.Sfs.State.{Cmd, ◌>>=◌, ◌>>◌, pure, assert, gets, modify, lift}
use ucoreonrv.Sfs.Device.{sfs_clear_block}

-- Out of the range it panics.
unfoldable pub sfs_block_inuse : (ino : ℕ) → Cmd Bool
sfs_block_inuse ino = do
  blocks ← gets (λ s. s.blocks)
  assert (not (ino == 0) && ltb ino blocks)
  free ← lift (λ s. bitmap_test s.freemap ino)
  pure (not free)

abbrev pub assert_inuse : (ino : ℕ) → Cmd (Unit {0})
assert_inuse ino = do used ← sfs_block_inuse ino; assert used

-- The code, and what `*ino_store` has. Where `bitmap_alloc` stores nothing it is 0 here, and the
-- callers do not read it.
unfoldable pub sfs_block_alloc : Cmd (ℤ × ℕ)
unfolding sfs_block_inuse
sfs_block_alloc = do
  (ret, store, freemap) ← lift (λ s. bitmap_alloc s.freemap)
  modify λ s. record s { freemap = freemap }
  let ino : ℕ = elim store [ none ↦ 0 | some i ↦ i ]
  if not (is_zero ret) then pure (ret, ino) else (do
    unused ← gets (λ s. s.unused_blocks)
    assert (ltb 0 unused)
    modify λ s. record s { unused_blocks = s.unused_blocks - 1; super_dirty = true }
    assert_inuse ino
    ret' ← sfs_clear_block ino 1
    pure (ret', ino))

-- The number of free blocks does not reach 2^32, for there are fewer blocks.
unfoldable pub sfs_block_free : (ino : ℕ) → Cmd (Unit {0})
unfolding sfs_block_inuse
sfs_block_free ino = do
  assert_inuse ino
  freemap ← lift (λ s. bitmap_free s.freemap ino)
  modify
      λ s. record s { freemap = freemap; unused_blocks = s.unused_blocks + 1; super_dirty = true }
