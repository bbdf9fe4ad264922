-- ===== src/Sfs/Resize.antt =====
-- kern/fs/sfs/sfs_inode.c: the size of a file. The loops of `sfs_truncfile` run as often as the
-- numbers of blocks differ.
use ucoreonrv.Prelude.{ℕ, zero, suc, ◌+◌, ◌-◌, ◌/◌, true, not, ◌==◌, if◌then◌else◌, ltb, leb}
use ucoreonrv.Prelude.Int.{ℤ, pos, negsuc}
use ucoreonrv.Prelude.Errors.{err, e_inval}
use ucoreonrv.Files.Open.{is_zero}
use ucoreonrv.Sfs.State.{blksize, max_file_size, SfsInode, Cmd, ◌>>=◌, ◌>>◌, pure, assert}
use ucoreonrv.Sfs.Bmap.{sfs_bmap_load_nolock, sfs_bmap_truncate_nolock}

-- ROUNDUP_DIV(len, SFS_BLKSIZE)
abbrev pub blocks_of : (len : ℕ) → ℕ
blocks_of len = (len + blksize - 1) / blksize

unfoldable pub enlarge : (n : ℕ) → SfsInode → (nblks : ℕ) → Cmd (ℤ × SfsInode)
unfolding sfs_bmap_load_nolock
enlarge zero sin nblks = pure (pos 0, sin)
enlarge (suc n) sin nblks =
    let rest : SfsInode → Cmd (ℤ × SfsInode) = λ sin. enlarge n sin (nblks + 1) in
    (do
      (ret, ino, sin') ← sfs_bmap_load_nolock sin nblks
      if is_zero ret then rest sin' else pure (ret, sin'))

unfoldable pub reduce : (n : ℕ) → SfsInode → Cmd (ℤ × SfsInode)
unfolding sfs_bmap_truncate_nolock
reduce zero sin = pure (pos 0, sin)
reduce (suc n) sin =
    let rest : SfsInode → Cmd (ℤ × SfsInode) = λ sin. reduce n sin in
    (do
      (ret, sin') ← sfs_bmap_truncate_nolock sin
      if is_zero ret then rest sin' else pure (ret, sin'))

abbrev pub set_size : SfsInode → (len : ℕ) → SfsInode
set_size sin len = record sin { din = record (sin.din) { size = len }; dirty = true }

-- The loop that applies.
unfoldable pub set_length : SfsInode → (tblks : ℕ) → Cmd (ℤ × SfsInode)
unfolding enlarge reduce
set_length sin tblks =
    if ltb sin.din.blocks tblks
    then enlarge (tblks - sin.din.blocks) sin sin.din.blocks
    else reduce (sin.din.blocks - tblks) sin

unfoldable pub sfs_truncfile : SfsInode → (len : ℤ) → Cmd (ℤ × SfsInode)
unfolding set_length
sfs_truncfile sin (negsuc _) = pure (err e_inval, sin)
sfs_truncfile sin (pos len) =
    if ltb max_file_size len
    then pure (err e_inval, sin)
    else if sin.din.size == len
    then (do assert (blocks_of len == sin.din.blocks); pure (pos 0, sin))
    else (do
      (ret, sin') ← set_length sin (blocks_of len)
      if not (is_zero ret)
          then pure (ret, sin')
          else (do assert (sin'.din.blocks == blocks_of len); pure (pos 0, set_size sin' len)))

-- `vop_truncate` of a file is `sfs_truncfile`.
unfoldable pub sfs_tryseek : SfsInode → (at : ℤ) → Cmd (ℤ × SfsInode)
unfolding sfs_truncfile
sfs_tryseek sin (negsuc _) = pure (err e_inval, sin)
sfs_tryseek sin (pos at) =
    if leb max_file_size at
    then pure (err e_inval, sin)
    else if ltb sin.din.size at
    then sfs_truncfile sin (pos at)
    else pure (pos 0, sin)
