-- ===== src/Sfs/Io.antt =====
-- kern/fs/sfs/sfs_inode.c: reading and writing a file.
use ucoreonrv.Prelude.{
  ℕ, ◌+◌, ◌-◌, ◌*◌, ◌/◌, ◌%◌, Bool, true, false, not, ◌&&◌, ◌||◌, ◌==◌, if◌then◌else◌, ltb, leb,
}
use ucoreonrv.Prelude.Int.{ℤ, pos, negsuc}
use ucoreonrv.Prelude.Errors.{err, e_inval}
use ucoreonrv.Files.Open.{is_zero}
use ucoreonrv.Files.State.{Iobuf}
use ucoreonrv.Files.Moving.{iobuf_skip}
use ucoreonrv.Sfs.State.{
  blksize, max_file_size, SfsType, SfsInode, type_dir, Cmd, ◌>>=◌, ◌>>◌, pure, assert, gets, modify,
  lift, put_bytes,
}
use ucoreonrv.Sfs.Device.{sfs_rbuf, sfs_wbuf, sfs_rwblock}
use ucoreonrv.Sfs.Bmap.{sfs_bmap_load_nolock}

abbrev pub is_dir : SfsType → Bool
is_dir t = elim t [ type_dir ↦ true | _ ↦ false ]

-- `sfs_buf_op`, on the memory at `buf`.
unfoldable pub buf_op : (write : Bool) → (buf len blkno offset : ℕ) → Cmd ℤ
unfolding sfs_rbuf sfs_wbuf
buf_op true buf len n o = do m ← gets (λ s. s.mem); sfs_wbuf (λ i. m (buf + i)) len n o
buf_op false buf len n o = do
  (ret, d) ← sfs_rbuf len n o
  modify λ s. record s { mem = if is_zero ret then put_bytes s.mem buf len d else s.mem }
  pure ret

-- A step of the transfer: `sfs_bmap_load_nolock` and an operation on the block of the disk.
unfoldable pub on_block : SfsInode → (blkno : ℕ) → (ℕ → Cmd ℤ) → Cmd (ℤ × SfsInode)
unfolding sfs_bmap_load_nolock
on_block sin blkno op = do
  (ret, ino, sin') ← sfs_bmap_load_nolock sin blkno
  if is_zero ret then (do ret' ← op ino; pure (ret', sin')) else pure (ret, sin')

-- The end of the last block, from `alen` bytes on.
unfoldable pub io_tail :
    (write : Bool) → SfsInode → (buf blkno endpos alen : ℕ) → Cmd (ℤ × ℕ × SfsInode)
unfolding on_block buf_op
io_tail write sin buf blkno endpos alen =
    let size = endpos % blksize in
    if size == 0 then pure (pos 0, alen, sin) else (do
      (ret, sin') ← on_block sin blkno (λ ino. buf_op write buf size ino 0)
      pure (ret, if is_zero ret then alen + size else alen, sin'))

-- The whole blocks.
unfoldable pub io_blocks :
    (write : Bool) → SfsInode → (buf blkno nblks endpos alen : ℕ) → Cmd (ℤ × ℕ × SfsInode)
unfolding on_block io_tail sfs_rwblock
io_blocks write sin buf blkno nblks endpos alen =
    if nblks == 0 then io_tail write sin buf blkno endpos alen else (do
      (ret, sin') ← on_block sin blkno (λ ino. sfs_rwblock buf ino nblks write)
      if is_zero ret
          then io_tail write sin' (buf + nblks * blksize) (blkno + nblks) endpos
              (alen + nblks * blksize)
          else pure (ret, alen, sin'))

-- The transfer between two places of the file: the code and how many bytes went through.
unfoldable pub io_range :
    (write : Bool) → SfsInode → (buf offset endpos : ℕ) → Cmd (ℤ × ℕ × SfsInode)
unfolding on_block buf_op io_blocks
io_range write sin buf offset endpos =
    let blkno = offset / blksize in
    let nblks = endpos / blksize - blkno in
    let blkoff = offset % blksize in
    let size = if nblks == 0 then endpos - offset else blksize - blkoff in
    if blkoff == 0 then io_blocks write sin buf blkno nblks endpos 0 else (do
      (ret, sin') ← on_block sin blkno (λ ino. buf_op write buf size ino blkoff)
      if not (is_zero ret)
          then pure (ret, 0, sin')
          else if nblks == 0
          then pure (ret, size, sin')
          else io_blocks write sin' (buf + size) (blkno + 1) (nblks - 1) endpos size)

-- From the label `out` on: a file that was written behind its end is longer.
abbrev pub grow_size : SfsInode → (reached : ℕ) → SfsInode
grow_size sin reached = record sin {
  din = record (sin.din) { size = if ltb sin.din.size reached then reached else sin.din.size };
  dirty = sin.dirty || ltb sin.din.size reached;
}

-- The code, what `*alenp` has and the inode. The sum of the offset and the length does not reach
-- 2^63.
unfoldable pub sfs_io_nolock :
    SfsInode → (buf : ℕ) → (offset : ℤ) → (alen : ℕ) → (write : Bool) → Cmd (ℤ × ℕ × SfsInode)
unfolding io_range
sfs_io_nolock sin buf (negsuc _) alen write = do
  assert (not (is_dir sin.din.type))
  pure (err e_inval, 0, sin)
sfs_io_nolock sin buf (pos offset) alen write = do
  assert (not (is_dir sin.din.type))
  let endpos = if ltb max_file_size (offset + alen) then max_file_size else offset + alen
  let stop = if not write && ltb sin.din.size endpos then sin.din.size else endpos
  if leb max_file_size offset
      then pure (err e_inval, 0, sin)
      else if alen == 0 || (not write && leb sin.din.size offset)
      then pure (pos 0, 0, sin)
      else (do
        (ret, n, sin') ← io_range write sin buf offset stop
        pure (ret, n, grow_size sin' (offset + n)))

unfoldable pub sfs_io : SfsInode → Iobuf → (write : Bool) → Cmd (ℤ × Iobuf × SfsInode)
unfolding sfs_io_nolock
sfs_io sin iob write = do
  (ret, alen, sin') ← sfs_io_nolock sin iob.io_base iob.io_offset iob.io_resid write
  iob' ← (if alen == 0 then pure iob else lift (λ _. iobuf_skip iob alen))
  pure (ret, iob', sin')

unfoldable pub sfs_read : SfsInode → Iobuf → Cmd (ℤ × Iobuf × SfsInode)
unfolding sfs_io
sfs_read sin iob = sfs_io sin iob false

unfoldable pub sfs_write : SfsInode → Iobuf → Cmd (ℤ × Iobuf × SfsInode)
unfolding sfs_io
sfs_write sin iob = sfs_io sin iob true
