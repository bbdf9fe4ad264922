-- ===== src/Files/Calls.antt =====
-- kern/fs/file.c: the file operations of the current process. A result pointer of the source is
-- part of the result here. Offsets do not reach the bounds of a signed 64-bit `off_t`.
use ucoreonrv.Prelude.{
  ℕ, ◌+◌, ◌-◌, ◌%◌, ◌^◌, Bool, true, false, not, ◌&&◌, List, ◌==◌, if◌then◌else◌,
}
use ucoreonrv.Prelude.Int.{ℤ, pos, ◌+ℤ◌}
use ucoreonrv.Prelude.Errors.{err, e_inval, e_no_mem}
use ucoreonrv.Files.State.{
  File, Iobuf, FsOps, Vop, op_read, op_write, op_fstat, op_tryseek, op_fsync, op_getdirentry, Cmd,
  ◌>>=◌, ◌>>◌, pure, get_file, put_file, no_fd,
}
use ucoreonrv.Files.Inode.{vop_op, inode_ref_inc, inode_open_inc}
use ucoreonrv.Files.Open.{access, o_append, is_zero, vfs_open, vfs_close}
use ucoreonrv.Files.FdArray.{
  is_opened, Slot, at, failed, fd_array_alloc, fd_array_acquire, fd_array_open, fd_array_dup,
  fd2file, fd_array_free, fd_array_release, fd_array_close,
}

-- `iobuf_init`, kern/fs/iobuf.c
abbrev pub iobuf_init : ℕ → ℕ → ℤ → Iobuf
iobuf_init base len offset = record {
  io_base = base;
  io_offset = offset;
  io_len = len;
  io_resid = len;
}

-- `iobuf_used`, a `size_t` difference.
abbrev pub iobuf_used : Iobuf → ℕ
iobuf_used iob = (iob.io_len + 2 ^ 64 - iob.io_resid) % 2 ^ 64

-- Runs `k` on the entry, or answers `d` of the error code.
abbrev pub with_slot : {W A : Type 0} → Slot → (ℤ → A) → (ℕ → Cmd W A) → Cmd W A
with_slot (at i) d k = k i
with_slot (failed e) d k = pure (d e)

-- `file->fd`
abbrev pub fd_of : {W : Type 0} → ℕ → Cmd W ℤ
fd_of i = do f ← get_file i; pure (pos f.fd)

module _ {W : Type 0} where
  unfoldable pub file_testfd : ℤ → Bool → Bool → Cmd W Bool
  file_testfd fd readable writable = do
    slot ← fd2file fd
    with_slot slot (λ _. false)
        λ i. do
          f ← get_file i
          pure (not (readable && not f.readable) && not (writable && not f.writable))

  unfoldable pub file_dup : ℤ → ℤ → Cmd W ℤ
  file_dup fd1 fd2 = do
    slot1 ← fd2file fd1
    with_slot slot1 (λ e. e)
        λ from. do
          slot2 ← fd_array_alloc fd2
          with_slot slot2 (λ e. e) λ to. do fd_array_dup to from; fd_of to

module _ {W : Type 0} (ops : FsOps W) where
  unfoldable pub file_close : ℤ → Cmd W ℤ
  file_close fd = do
    slot ← fd2file fd
    with_slot slot (λ e. e) λ i. do fd_array_close ops i; pure (pos 0)

  -- The end of `file_open`, with the inode at hand: the entry is filled in and opened.
  unfoldable pub install : ℕ → ℕ → Bool → Bool → ℤ → Cmd W ℤ
  install i n readable writable offset = do
    f ← get_file i
    put_file i (record f { pos = offset; node = n; readable = readable; writable = writable })
    fd_array_open i
    fd_of i

  -- The access mode 3 is refused before an entry is taken.
  unfoldable pub file_open : List ℕ → ℕ → Cmd W ℤ
  unfolding install
  file_open path flags = if access flags == 3 then pure (err e_inval) else (do
    slot ← fd_array_alloc no_fd
    with_slot slot (λ e. e)
        λ i. do
          (ret, n) ← vfs_open ops path flags
          let readable = not (access flags == 1)
          let writable = not (access flags == 0)
          if not (is_zero ret) then (do fd_array_free ops i; pure ret) else (do
            f ← get_file i
            put_file i (record f { pos = pos 0 })
            if o_append flags
                then (do
                  vop_op ops op_fstat n
                  (ret', size) ← ops.vop_fstat n
                  if is_zero ret'
                      then install i n readable writable (pos size)
                      else (do _ ← vfs_close ops n; fd_array_free ops i; pure ret'))
                else install i n readable writable (pos 0)))

  -- The common body of `file_read` and `file_write`: `allowed` is the field that is tested, and
  -- `vop` the operation `op` of the inode. The result is the return value and the bytes copied.
  unfoldable pub transfer :
      (File → Bool) → Vop → (ℕ → Iobuf → Cmd W (ℤ × Iobuf)) → ℤ → ℕ → ℕ → Cmd W (ℤ × ℕ)
  transfer allowed op vop fd base len = do
    slot ← fd2file fd
    with_slot slot (λ e. (e, 0))
        λ i. do
          f ← get_file i
          if not (allowed f) then pure (err e_inval, 0) else (do
            fd_array_acquire i
            vop_op ops op f.node
            (ret, iob) ← vop f.node (iobuf_init base len f.pos)
            let copied = iobuf_used iob
            f' ← get_file i
            put_file i
                (if is_opened f'.status then record f' { pos = f'.pos +ℤ pos copied } else f')
            fd_array_release ops i
            pure (ret, copied))

  unfoldable pub file_read : ℤ → ℕ → ℕ → Cmd W (ℤ × ℕ)
  unfolding transfer
  file_read = transfer (λ f. f.readable) op_read ops.vop_read

  unfoldable pub file_write : ℤ → ℕ → ℕ → Cmd W (ℤ × ℕ)
  unfolding transfer
  file_write = transfer (λ f. f.writable) op_write ops.vop_write

  -- The switch on `whence`: the return value so far, and the position asked for.
  unfoldable pub seek_target : ℕ → ℤ → ℕ → Cmd W (ℤ × ℤ)
  seek_target i offset whence =
      if whence == 0
      then pure (pos 0, offset)
      else if whence == 1
      then (do f ← get_file i; pure (pos 0, offset +ℤ f.pos))
      else if whence == 2
      then (do
        f ← get_file i
        vop_op ops op_fstat f.node
        (ret, size) ← ops.vop_fstat f.node
        pure (ret, if is_zero ret then offset +ℤ pos size else offset))
      else pure (err e_inval, offset)

  unfoldable pub seek_to : ℕ → ℤ → Cmd W ℤ
  seek_to i target = do
    f ← get_file i
    vop_op ops op_tryseek f.node
    ret ← ops.vop_tryseek f.node target
    f' ← get_file i
    put_file i (if is_zero ret then record f' { pos = target } else f')
    pure ret

  unfoldable pub file_seek : ℤ → ℤ → ℕ → Cmd W ℤ
  unfolding seek_target seek_to
  file_seek fd offset whence = do
    slot ← fd2file fd
    with_slot slot (λ e. e)
        λ i. do
          fd_array_acquire i
          (ret, target) ← seek_target i offset whence
          ret' ← (if is_zero ret then seek_to i target else pure ret)
          fd_array_release ops i
          pure ret'

  unfoldable pub file_fstat : ℤ → Cmd W (ℤ × ℕ)
  file_fstat fd = do
    slot ← fd2file fd
    with_slot slot (λ e. (e, 0))
        λ i. do
          fd_array_acquire i
          f ← get_file i
          vop_op ops op_fstat f.node
          r ← ops.vop_fstat f.node
          fd_array_release ops i
          pure r

  unfoldable pub file_fsync : ℤ → Cmd W ℤ
  file_fsync fd = do
    slot ← fd2file fd
    with_slot slot (λ e. e)
        λ i. do
          fd_array_acquire i
          f ← get_file i
          vop_op ops op_fsync f.node
          ret ← ops.vop_fsync f.node
          fd_array_release ops i
          pure ret

  -- `direntp` is the address of its name, of FS_MAX_FNAME_LEN + 1 bytes, and its offset, which is
  -- part of the result.
  unfoldable pub file_getdirentry : ℤ → ℕ → ℤ → Cmd W (ℤ × ℤ)
  file_getdirentry fd name offset = do
    slot ← fd2file fd
    with_slot slot (λ e. (e, offset))
        λ i. do
          fd_array_acquire i
          f ← get_file i
          vop_op ops op_getdirentry f.node
          (ret, iob) ← ops.vop_getdirentry f.node (iobuf_init name 256 offset)
          fd_array_release ops i
          pure (ret, if is_zero ret then offset +ℤ pos (iobuf_used iob) else offset)

  -- An end of a pipe.
  unfoldable pub open_end : ℕ → ℕ → Bool → Cmd W (Unit {0})
  open_end i n reads = do
    f ← get_file i
    put_file i (record f { pos = pos 0; node = n; readable = reads; writable = not reads })
    fd_array_open i

  -- The return value, and the descriptors of the two ends.
  unfoldable pub file_pipe : Cmd W (ℤ × ℤ × ℤ)
  unfolding open_end
  file_pipe = do
    slot_in ← fd_array_alloc no_fd
    with_slot slot_in (λ e. (e, pos 0, pos 0))
        λ i. do
          slot_out ← fd_array_alloc no_fd
          elim slot_out [
            | failed e ↦ (do fd_array_free ops i; pure (e, pos 0, pos 0))
            | at o ↦ (do
              n ← ops.pipe_create_inode
              if n == 0
                  then (do
                    fd_array_free ops i
                    fd_array_free ops o
                    pure (err e_no_mem, pos 0, pos 0))
                  else (do
                    _ ← inode_ref_inc n
                    _ ← inode_open_inc n
                    _ ← inode_open_inc n
                    open_end i n true
                    open_end o n false
                    fd_in ← fd_of i
                    fd_out ← fd_of o
                    pure (pos 0, fd_in, fd_out)))
          ]
