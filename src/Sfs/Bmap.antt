-- ===== src/Sfs/Bmap.antt =====
-- kern/fs/sfs/sfs_inode.c: the map from the blocks of a file to blocks of the disk. A result pointer
-- and the inode are part of the result.
use ucoreonrv.Prelude.{ℕ, ◌-◌, ◌+◌, ◌*◌, Bool, true, not, ◌&&◌, ◌||◌, ◌==◌, if◌then◌else◌, ltb, leb}
use ucoreonrv.Prelude.Int.{ℤ, pos}
use ucoreonrv.Files.Open.{is_zero}
use ucoreonrv.Sfs.State.{
  ndirect, blk_nentry, SfsInode, Cmd, ◌>>=◌, ◌>>◌, pure, assert, u32_at, u32_bytes,
}
use ucoreonrv.Sfs.Device.{sfs_rbuf, sfs_wbuf}
use ucoreonrv.Sfs.Blocks.{assert_inuse, sfs_block_alloc, sfs_block_free}

-- From the label `failed_cleanup`: a fresh entry block is given back.
abbrev pub give_back : (entp ent : ℕ) → Cmd (Unit {0})
give_back entp ent = if ent == entp then pure tt else sfs_block_free ent

-- From the second `sfs_block_alloc` on: the code, `*entp` and `*ino_store`.
unfoldable pub new_entry : (entp ent index : ℕ) → Cmd (ℤ × ℕ × ℕ)
unfolding sfs_block_alloc
new_entry entp ent index = do
  (ret, ino) ← sfs_block_alloc
  if not (is_zero ret) then (do give_back entp ent; pure (ret, entp, 0)) else (do
    ret' ← sfs_wbuf (u32_bytes ino) 4 ent (index * 4)
    if is_zero ret'
        then pure (pos 0, ent, ino)
        else (do sfs_block_free ino; give_back entp ent; pure (ret', entp, 0)))

unfoldable pub sfs_bmap_get_sub_nolock : (entp index : ℕ) → (create : Bool) → Cmd (ℤ × ℕ × ℕ)
unfolding new_entry
sfs_bmap_get_sub_nolock entp index create = do
  assert (ltb index blk_nentry)
  if not (entp == 0)
      then (do
        (ret, bytes) ← sfs_rbuf 4 entp (index * 4)
        let ino = u32_at bytes 0
        if not (is_zero ret)
            then pure (ret, entp, 0)
            else if not (ino == 0) || not create
            then pure (pos 0, entp, ino)
            else new_entry entp entp index)
      else if not create
      then pure (pos 0, entp, 0)
      else (do
        (ret, ent) ← sfs_block_alloc
        if not (is_zero ret) then pure (ret, entp, 0) else new_entry entp ent index)

abbrev pub set_direct : SfsInode → (index ino : ℕ) → SfsInode
set_direct sin index ino = record sin {
  din = record (sin.din) { direct = λ i. if i == index then ino else sin.din.direct i };
  dirty = true;
}

abbrev pub set_indirect : SfsInode → (ent : ℕ) → SfsInode
set_indirect sin ent = record sin { din = record (sin.din) { indirect = ent }; dirty = true }

-- From the label `out` on.
abbrev pub got : SfsInode → (ino : ℕ) → Cmd (ℤ × ℕ × SfsInode)
got sin ino = do (if ino == 0 then pure tt else assert_inuse ino); pure (pos 0, ino, sin)

unfoldable pub sfs_bmap_get_nolock :
    SfsInode → (index : ℕ) → (create : Bool) → Cmd (ℤ × ℕ × SfsInode)
unfolding sfs_bmap_get_sub_nolock sfs_block_alloc
sfs_bmap_get_nolock sin index create =
    if ltb index ndirect
    then if sin.din.direct index == 0 && create
      then (do
        (ret, ino) ← sfs_block_alloc
        if not (is_zero ret) then pure (ret, 0, sin) else got (set_direct sin index ino) ino)
      else got sin (sin.din.direct index)
    else (do
      assert (ltb (index - ndirect) blk_nentry)
      (ret, ent, ino) ← sfs_bmap_get_sub_nolock sin.din.indirect (index - ndirect) create
      if not (is_zero ret)
          then pure (ret, 0, sin)
          else if ent == sin.din.indirect
          then got sin ino
          else (do assert (sin.din.indirect == 0); got (set_indirect sin ent) ino))

unfoldable pub sfs_bmap_free_sub_nolock : (ent index : ℕ) → Cmd ℤ
unfolding sfs_block_free
sfs_bmap_free_sub_nolock ent index = do
  assert_inuse ent
  assert (ltb index blk_nentry)
  (ret, bytes) ← sfs_rbuf 4 ent (index * 4)
  let ino = u32_at bytes 0
  if not (is_zero ret) then pure ret else if ino == 0 then pure (pos 0) else (do
    ret' ← sfs_wbuf (u32_bytes 0) 4 ent (index * 4)
    if is_zero ret' then (do sfs_block_free ino; pure (pos 0)) else pure ret')

unfoldable pub sfs_bmap_free_nolock : SfsInode → (index : ℕ) → Cmd (ℤ × SfsInode)
unfolding sfs_bmap_free_sub_nolock
sfs_bmap_free_nolock sin index =
    if ltb index ndirect
    then if sin.din.direct index == 0
      then pure (pos 0, sin)
      else (do sfs_block_free (sin.din.direct index); pure (pos 0, set_direct sin index 0))
    else if ltb (index - ndirect) blk_nentry && not (sin.din.indirect == 0)
    then (do ret ← sfs_bmap_free_sub_nolock sin.din.indirect (index - ndirect); pure (ret, sin))
    else pure (pos 0, sin)

abbrev pub set_blocks : SfsInode → (blocks : ℕ) → SfsInode
set_blocks sin blocks = record sin { din = record (sin.din) { blocks = blocks } }

-- `sfs_bmap_load_nolock` once `create` is set: the code, `*ino_store` and the inode.
unfoldable pub load_block : SfsInode → (index : ℕ) → (create : Bool) → Cmd (ℤ × ℕ × SfsInode)
unfolding sfs_bmap_get_nolock
load_block sin index create = do
  (ret, ino, sin') ← sfs_bmap_get_nolock sin index create
  if not (is_zero ret) then pure (ret, 0, sin') else (do
    assert_inuse ino
    pure (pos 0, ino, if create then set_blocks sin' (sin'.din.blocks + 1) else sin'))

unfoldable pub sfs_bmap_load_nolock : SfsInode → (index : ℕ) → Cmd (ℤ × ℕ × SfsInode)
unfolding load_block
sfs_bmap_load_nolock sin index = do
  assert (leb index sin.din.blocks)
  load_block sin index (index == sin.din.blocks)

unfoldable pub sfs_bmap_truncate_nolock : SfsInode → Cmd (ℤ × SfsInode)
unfolding sfs_bmap_free_nolock
sfs_bmap_truncate_nolock sin = do
  assert (not (sin.din.blocks == 0))
  (ret, sin') ← sfs_bmap_free_nolock sin (sin.din.blocks - 1)
  if is_zero ret
      then pure (pos 0, record (set_blocks sin' (sin'.din.blocks - 1)) { dirty = true })
      else pure (ret, sin')
