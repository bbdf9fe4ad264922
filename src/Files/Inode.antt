-- ===== src/Files/Inode.antt =====
-- kern/fs/vfs/inode.c and inode.h: the two counters of an inode, and what is checked before a call of
-- one of its operations.
use ucoreonrv.Prelude.{
  ℕ, ◌+◌, ◌-◌, ◌≡◌, ◌≢◌, ◌≤◌, ◌<◌, true, arith, ltb, leb, ◌==◌, ◌&&◌, not, if◌then◌else◌,
}
use ucoreonrv.Files.State.{
  FsState, FsOps, Vop, op_reclaim, op_close, Cmd, ◌>>=◌, ◌>>◌, pure, assert, gets, put_inode,
}
use ucoreonrv.Prelude.Errors.{done}

abbrev pub max_inode_count : ℕ
max_inode_count = 0x10000

module _ {W : Type 0} where
  unfoldable pub inode_ref_inc : ℕ → Cmd W ℕ
  inode_ref_inc n = do
    v ← gets (λ s. s.inodes n)
    put_inode n (record v { ref_count = v.ref_count + 1 })
    pure (v.ref_count + 1)

  unfoldable pub inode_open_inc : ℕ → Cmd W ℕ
  inode_open_inc n = do
    v ← gets (λ s. s.inodes n)
    put_inode n (record v { open_count = v.open_count + 1 })
    pure (v.open_count + 1)

  -- The assertions of `inode_check` on the counters.
  unfoldable pub inode_check : ℕ → Cmd W (Unit {0})
  inode_check n = do
    v ← gets (λ s. s.inodes n)
    assert (not (n == 0))
    assert (leb v.open_count v.ref_count)
    assert (ltb v.ref_count max_inode_count && ltb v.open_count max_inode_count)

  -- The counters of a new inode, which holds its creator's reference.
  unfoldable pub inode_init : ℕ → Cmd W (Unit {0})
  unfolding inode_ref_inc
  inode_init n = do
    put_inode n (record { ref_count = 0; open_count = 0 })
    _ ← inode_ref_inc n
    pure tt

module _ {W : Type 0} (ops : FsOps W) where
  -- `__vop_op`: the assertions before the call of an operation.
  unfoldable pub vop_op : Vop → ℕ → Cmd W (Unit {0})
  unfolding inode_check
  vop_op op n = do assert (not (n == 0) && ops.has_op op n); inode_check n

  -- The operation can be called: it is there, and the counters are in order.
  abbrev pub Callable : Vop → FsState W → ℕ → Type 0
  Callable op s n =
      (n ≢ 0)
      × (ops.has_op op n ≡ true)
      × ((s.inodes n).open_count ≤ (s.inodes n).ref_count)
      × ((s.inodes n).ref_count < max_inode_count)

  pub vop_op_lem :
      (op : Vop) (s : FsState W) (n : ℕ) → Callable op s n → vop_op op n s ≡ done (tt, s)
  unfolding vop_op
  vop_op_lem op s n (nz, has, le, small) = ground (arith, nz, has, le, small)

  -- The last reference reclaims the inode.
  unfoldable pub inode_ref_dec : ℕ → Cmd W ℕ
  unfolding vop_op
  inode_ref_dec n = do
    v ← gets (λ s. s.inodes n)
    assert (ltb 0 v.ref_count)
    put_inode n (record v { ref_count = v.ref_count - 1 })
    if v.ref_count - 1 == 0
        then (do vop_op op_reclaim n; _ ← ops.vop_reclaim n; pure (v.ref_count - 1))
        else pure (v.ref_count - 1)

  unfoldable pub inode_open_dec : ℕ → Cmd W ℕ
  unfolding vop_op
  inode_open_dec n = do
    v ← gets (λ s. s.inodes n)
    assert (ltb 0 v.open_count)
    put_inode n (record v { open_count = v.open_count - 1 })
    if v.open_count - 1 == 0
        then (do vop_op op_close n; _ ← ops.vop_close n; pure (v.open_count - 1))
        else pure (v.open_count - 1)
