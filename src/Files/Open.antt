-- ===== src/Files/Open.antt =====
-- kern/fs/vfs/vfsfile.c: opening a file by its path, and closing an inode.
use ucoreonrv.Prelude.{ℕ, ◌/◌, ◌%◌, Bool, not, ◌&&◌, ◌||◌, List, ◌==◌, if◌then◌else◌}
use ucoreonrv.Prelude.Int.{ℤ, pos, eqb_ℤ}
use ucoreonrv.Prelude.Errors.{err, e_inval, e_noent, e_exists}
use ucoreonrv.Files.State.{FsOps, op_create, op_open, op_truncate, Cmd, ◌>>=◌, ◌>>◌, pure, assert}
use ucoreonrv.Files.Inode.{vop_op, inode_open_inc, inode_open_dec, inode_ref_dec}

-- `open_flags & O_ACCMODE`, and the flags above it.
abbrev pub access : ℕ → ℕ
access flags = flags % 4

abbrev pub o_creat : ℕ → Bool
o_creat flags = flags / 4 % 2 == 1

abbrev pub o_excl : ℕ → Bool
o_excl flags = flags / 8 % 2 == 1

abbrev pub o_trunc : ℕ → Bool
o_trunc flags = flags / 16 % 2 == 1

abbrev pub o_append : ℕ → Bool
o_append flags = flags / 32 % 2 == 1

abbrev pub is_zero : ℤ → Bool
is_zero r = eqb_ℤ r (pos 0)

module _ {W : Type 0} (ops : FsOps W) where
  unfoldable pub vfs_close : ℕ → Cmd W ℤ
  vfs_close n = do _ ← inode_open_dec ops n; _ ← inode_ref_dec ops n; pure (pos 0)

  -- `vop_truncate(node, 0)`, where the flags ask for it.
  unfoldable pub truncate_node : ℕ → ℕ → Cmd W (ℤ × ℕ)
  truncate_node flags n =
      if o_trunc flags || o_creat flags
      then (do
        vop_op ops op_truncate n
        cut ← ops.vop_truncate n 0
        if is_zero cut then pure (pos 0, n) else (vfs_close n >>= λ _. pure (cut, 0)))
      else pure (pos 0, n)

  -- From the call of `vop_open` on.
  unfoldable pub open_node : ℕ → ℕ → Cmd W (ℤ × ℕ)
  unfolding truncate_node
  open_node flags n = do
    assert (not (n == 0))
    vop_op ops op_open n
    opened ← ops.vop_open n flags
    if is_zero opened
        then inode_open_inc n >>= (λ _. truncate_node flags n)
        else inode_ref_dec ops n >>= (λ _. pure (opened, 0))

  -- The path names nothing: the file is created in its directory. The result of `vop_create` is not
  -- looked at; the inode beside it is what the variable `node` holds after the call, which a call
  -- that fails may not have set.
  unfoldable pub create_node : List ℕ → ℕ → Cmd W (ℤ × ℕ)
  unfolding open_node
  create_node path flags = do
    (ret, dir, name) ← ops.vfs_lookup_parent path
    if is_zero ret
        then (do
          vop_op ops op_create dir
          (_, n) ← ops.vop_create dir name (o_excl flags)
          open_node flags n)
        else pure (ret, 0)

  unfoldable pub vfs_open : List ℕ → ℕ → Cmd W (ℤ × ℕ)
  unfolding open_node create_node
  vfs_open path flags =
      if access flags == 3 || (o_trunc flags && access flags == 0)
      then pure (err e_inval, 0)
      else do
        (ret, n) ← ops.vfs_lookup path
        if is_zero ret
            then (if o_excl flags && o_creat flags
                then pure (err e_exists, 0)
                else open_node flags n)
            else (if eqb_ℤ ret (err e_noent) && o_creat flags
                then create_node path flags
                else pure (ret, 0))
