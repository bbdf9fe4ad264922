-- ===== src/Sfs/Device.antt =====
-- kern/fs/sfs/sfs_io.c: reading and writing blocks. `dop_io` of a device is called for one whole
-- block at a time; a call that does not answer 0 transfers nothing. A buffer is part of the
-- arguments and of the result.
use ucoreonrv.Prelude.{
  ℕ, zero, suc, ◌+◌, ◌*◌, ◌/◌, ◌%◌, ◌^◌, Bool, true, false, not, ◌&&◌, ◌||◌, ◌==◌, if◌then◌else◌,
  ltb, leb,
}
use ucoreonrv.Prelude.Int.{ℤ, pos}
use ucoreonrv.Files.Open.{is_zero}
use ucoreonrv.Sfs.State.{blksize, Block, Cmd, ◌>>=◌, ◌>>◌, pure, assert, gets, modify, put_bytes}

-- The block of the device at the offset `blkno * SFS_BLKSIZE`, a product of 32 bits.
abbrev pub dev_block : (blkno : ℕ) → ℕ
dev_block n = n * blksize % 2 ^ 32 / blksize

-- `dop_io` on the buffer `buf`: the code, and what the buffer then has.
unfoldable pub dop_io : (buf : Block) → (blkno : ℕ) → (write : Bool) → Cmd (ℤ × Block)
dop_io buf n write = do
  ret ← gets (λ s. s.codes 0)
  there ← gets (λ s. s.disk (dev_block n))
  let ok = is_zero ret
  modify λ s. record s {
    codes = λ k. s.codes (k + 1);
    disk = λ q o. if ok && write && q == dev_block n then buf o else s.disk q o;
  }
  pure (ret, λ o. if ok && not write then there o else buf o)

unfoldable pub sfs_rwblock_nolock :
    (buf : Block) → (blkno : ℕ) → (write check : Bool) → Cmd (ℤ × Block)
unfolding dop_io
sfs_rwblock_nolock buf n write check = do
  blocks ← gets (λ s. s.blocks)
  assert ((not (n == 0) || not check) && ltb n blocks)
  dop_io buf n write

-- The same on `sfs->sfs_buffer`.
unfoldable pub rw_buffer : (blkno : ℕ) → (write check : Bool) → Cmd ℤ
unfolding sfs_rwblock_nolock
rw_buffer n write check = do
  buf ← gets (λ s. s.sfs_buffer)
  (ret, buf') ← sfs_rwblock_nolock buf n write check
  modify λ s. record s { sfs_buffer = buf' }
  pure ret

-- `sfs_rwblock`: the loop over `nblks` blocks, with the buffer at `buf` in memory. `ret` is the
-- variable of the source.
unfoldable pub rw_loop : (ret : ℤ) → (nblks : ℕ) → (buf blkno : ℕ) → (write : Bool) → Cmd ℤ
unfolding sfs_rwblock_nolock
rw_loop ret zero buf n write = pure ret
rw_loop ret (suc k) buf n write =
    let rest : ℤ → Cmd ℤ = λ ret. rw_loop ret k (buf + blksize) (n + 1) write in
    (do
      m ← gets (λ s. s.mem)
      (ret, b) ← sfs_rwblock_nolock (λ o. m (buf + o)) n write true
      modify λ s. record s { mem = put_bytes s.mem buf blksize b }
      if is_zero ret then rest ret else pure ret)

unfoldable pub sfs_rwblock : (buf blkno nblks : ℕ) → (write : Bool) → Cmd ℤ
unfolding rw_loop
sfs_rwblock buf n nblks write = rw_loop (pos 0) nblks buf n write

unfoldable pub sfs_rblock : (buf blkno nblks : ℕ) → Cmd ℤ
unfolding sfs_rwblock
sfs_rblock buf n nblks = sfs_rwblock buf n nblks false

unfoldable pub sfs_wblock : (buf blkno nblks : ℕ) → Cmd ℤ
unfolding sfs_rwblock
sfs_wblock buf n nblks = sfs_rwblock buf n nblks true

abbrev pub assert_inside : (len offset : ℕ) → Cmd (Unit {0})
assert_inside len o = assert (ltb o blksize && leb (o + len) blksize)

-- The code, and the bytes from `offset` on, of which `memcpy` takes the first `len`.
unfoldable pub sfs_rbuf : (len blkno offset : ℕ) → Cmd (ℤ × Block)
unfolding rw_buffer
sfs_rbuf len n o = do
  assert_inside len o
  ret ← rw_buffer n false true
  buf ← gets (λ s. s.sfs_buffer)
  pure (ret, λ i. buf (o + i))

unfoldable pub sfs_wbuf : (data_bytes : Block) → (len blkno offset : ℕ) → Cmd ℤ
unfolding rw_buffer
sfs_wbuf d len n o = do
  assert_inside len o
  ret ← rw_buffer n false true
  if is_zero ret
      then (do
        modify λ s. record s { sfs_buffer = put_bytes s.sfs_buffer o len d }
        rw_buffer n true true)
      else pure ret

-- The loop of `sfs_clear_block`.
unfoldable pub clear_loop : (ret : ℤ) → (blkno nblks : ℕ) → Cmd ℤ
unfolding rw_buffer
clear_loop ret n zero = pure ret
clear_loop ret n (suc k) =
    let rest : ℤ → Cmd ℤ = λ ret. clear_loop ret (n + 1) k in
    (do ret ← rw_buffer n true true; if is_zero ret then rest ret else pure ret)

-- For no block at all the source returns a variable that was never set: a fault.
unfoldable pub sfs_clear_block : (blkno nblks : ℕ) → Cmd ℤ
unfolding clear_loop
sfs_clear_block n nblks = do
  modify λ s. record s { sfs_buffer = λ o. 0 }
  assert (not (nblks == 0))
  clear_loop (pos 0) n nblks
