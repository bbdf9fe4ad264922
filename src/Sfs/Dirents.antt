-- ===== src/Sfs/Dirents.antt =====
-- kern/fs/sfs/sfs_inode.c: the entries of a directory, one in each of its blocks.
use ucoreonrv.Prelude.{
  ℕ, zero, suc, ◌+◌, ◌-◌, not, ◌&&◌, ◌==◌, if◌then◌else◌, ltb, Option, none, some,
}
use ucoreonrv.Prelude.Int.{ℤ, pos}
use ucoreonrv.Prelude.Errors.{err, e_noent, e_isdir}
use ucoreonrv.Files.Open.{access, o_append, is_zero}
use ucoreonrv.Sfs.State.{Block, SfsInode, Cmd, ◌>>=◌, ◌>>◌, pure, assert, u32_at}
use ucoreonrv.Sfs.Device.{sfs_rbuf}
use ucoreonrv.Sfs.Blocks.{assert_inuse}
use ucoreonrv.Sfs.Bmap.{sfs_bmap_load_nolock}
use ucoreonrv.Sfs.Io.{is_dir}

-- `struct sfs_disk_entry`, with the bytes of the name.
pub record Dirent : Type 0 where
  pub ino : ℕ
  pub name : Block

-- SFS_MAX_FNAME_LEN
abbrev pub max_fname_len : ℕ
max_fname_len = 255

-- The entry that a block begins with, its name cut at the last byte.
abbrev pub dirent_at : Block → Dirent
dirent_at b = record { ino = u32_at b 0; name = λ i. if i == max_fname_len then 0 else b (4 + i) }

-- An entry that was not read is `none`.
unfoldable pub sfs_dirent_read_nolock : SfsInode → (slot : ℕ) → Cmd (ℤ × Option Dirent × SfsInode)
unfolding sfs_bmap_load_nolock sfs_rbuf
sfs_dirent_read_nolock sin slot = do
  assert (is_dir sin.din.type && ltb slot sin.din.blocks)
  (ret, ino, sin') ← sfs_bmap_load_nolock sin slot
  if not (is_zero ret) then pure (ret, none, sin') else (do
    assert_inuse ino
    (ret', b) ← sfs_rbuf (max_fname_len + 5) ino 0
    pure (ret', if is_zero ret' then some (dirent_at b) else none, sin'))

-- The loop of `sfs_getdirentry_sub_nolock`, with `n` entries left from the entry `i` on.
unfoldable pub getdirentry_loop : (n i slot : ℕ) → SfsInode → Cmd (ℤ × Option Dirent × SfsInode)
unfolding sfs_dirent_read_nolock
getdirentry_loop zero i slot sin = pure (err e_noent, none, sin)
getdirentry_loop (suc n) i slot sin =
    let rest : ℕ → SfsInode → Cmd (ℤ × Option Dirent × SfsInode) =
      λ slot sin. getdirentry_loop n (i + 1) slot sin in
    (do
      (ret, entry, sin') ← sfs_dirent_read_nolock sin i
      elim entry [
        | none ↦ pure (ret, none, sin')
        | some e ↦
            if e.ino == 0
            then rest slot sin'
            else if slot == 0
            then pure (pos 0, some e, sin')
            else rest (slot - 1) sin'
      ])

unfoldable pub sfs_getdirentry_sub_nolock :
    SfsInode → (slot : ℕ) → Cmd (ℤ × Option Dirent × SfsInode)
unfolding getdirentry_loop
sfs_getdirentry_sub_nolock sin slot = getdirentry_loop sin.din.blocks 0 slot sin

-- The loop of `sfs_dirent_findino_nolock`.
unfoldable pub findino_loop : (n i ino : ℕ) → SfsInode → Cmd (ℤ × Option Dirent × SfsInode)
unfolding sfs_dirent_read_nolock
findino_loop zero i ino sin = pure (err e_noent, none, sin)
findino_loop (suc n) i ino sin =
    let rest : SfsInode → Cmd (ℤ × Option Dirent × SfsInode) =
      λ sin. findino_loop n (i + 1) ino sin in
    (do
      (ret, entry, sin') ← sfs_dirent_read_nolock sin i
      elim entry [
        | none ↦ pure (ret, none, sin')
        | some e ↦ if e.ino == ino then pure (pos 0, some e, sin') else rest sin'
      ])

unfoldable pub sfs_dirent_findino_nolock : SfsInode → (ino : ℕ) → Cmd (ℤ × Option Dirent × SfsInode)
unfolding findino_loop
sfs_dirent_findino_nolock sin ino = findino_loop sin.din.blocks 0 ino sin

-- A directory is only opened to be read.
unfoldable pub sfs_opendir : (open_flags : ℕ) → ℤ
sfs_opendir open_flags =
    if not (access open_flags == 0)
    then err e_isdir
    else if o_append open_flags
    then err e_isdir
    else pos 0
