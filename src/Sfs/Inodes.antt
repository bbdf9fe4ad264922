-- ===== src/Sfs/Inodes.antt =====
-- kern/fs/sfs/sfs_inode.c: inodes in memory and on the disk. The list of loaded inodes stands for
-- the hash list; a node is an inode with its count of references.
use ucoreonrv.Prelude.{
  ℕ, ◌+◌, ◌-◌, ◌*◌, ◌/◌, ◌%◌, Bool, true, false, not, ◌==◌, if◌then◌else◌, ltb, Option, none, some,
  List, [], ◌∷◌,
}
use ucoreonrv.Prelude.Int.{ℤ, pos, ◌+ℤ◌}
use ucoreonrv.Prelude.Errors.{err, e_no_mem}
use ucoreonrv.Files.Open.{is_zero}
use ucoreonrv.Sfs.State.{
  Block, SfsType, type_inval, type_file, type_dir, type_link, SfsDiskInode, SfsInode, Cmd, ◌>>=◌,
  ◌>>◌, pure, assert, u32_at, u32_bytes,
}
use ucoreonrv.Sfs.Device.{sfs_rbuf, sfs_wbuf}
use ucoreonrv.Sfs.Blocks.{sfs_block_inuse, assert_inuse}

-- The numbers of the types. Another number has no operations either.
abbrev pub type_code : SfsType → ℕ
type_code type_inval = 0
type_code type_file = 1
type_code type_dir = 2
type_code type_link = 3

abbrev pub type_of : (n : ℕ) → SfsType
type_of n =
    if n == 1
    then type_file
    else if n == 2
    then type_dir
    else if n == 3
    then type_link
    else type_inval

-- The 64 bytes of `struct sfs_disk_inode`.
abbrev pub inode_bytes : SfsDiskInode → Block
inode_bytes d i =
    if ltb i 4
    then u32_bytes d.size i
    else if ltb i 6
    then u32_bytes (type_code d.type) (i - 4)
    else if ltb i 8
    then u32_bytes d.nlinks (i - 6)
    else if ltb i 12
    then u32_bytes d.blocks (i - 8)
    else if ltb i 60
    then u32_bytes (d.direct ((i - 12) / 4)) ((i - 12) % 4)
    else u32_bytes d.indirect (i - 60)

-- The inode that the bytes of a block begin with.
abbrev pub inode_at : Block → SfsDiskInode
inode_at b = record {
  size = u32_at b 0;
  type = type_of (b 4 + 256 * b 5);
  nlinks = b 6 + 256 * b 7;
  blocks = u32_at b 8;
  direct = λ i. u32_at b (12 + i * 4);
  indirect = u32_at b 60;
}

-- The code, and the inode, which is not dirty if it was written.
unfoldable pub sfs_fsync : SfsInode → Cmd (ℤ × SfsInode)
unfolding sfs_wbuf
sfs_fsync sin =
    if sin.dirty
    then (do
      ret ← sfs_wbuf (inode_bytes sin.din) 64 sin.ino 0
      pure (ret, record sin { dirty = not (is_zero ret) }))
    else pure (pos 0, sin)

unfoldable pub sfs_close : SfsInode → Cmd (ℤ × SfsInode)
unfolding sfs_fsync
sfs_close sin = sfs_fsync sin

pub record Node : Type 0 where
  pub sin : SfsInode
  pub ref_count : ℕ

-- One reference more; the first one after none counts for `reclaim_count`.
abbrev pub referred : Node → Node
referred n = record n {
  ref_count = n.ref_count + 1;
  sin = record (n.sin) {
    reclaim_count =
        if n.ref_count + 1 == 1 then n.sin.reclaim_count +ℤ pos 1 else n.sin.reclaim_count;
  };
}

-- The node found, and the list with it referred to.
unfoldable pub lookup_sfs_nolock : (ino : ℕ) → List Node → Option (Node × List Node)
lookup_sfs_nolock ino [] = none
lookup_sfs_nolock ino (n ∷ ns) =
    let rest = lookup_sfs_nolock ino ns in
    if n.sin.ino == ino
    then some (referred n, referred n ∷ ns)
    else elim rest [ none ↦ none | some (m, ms) ↦ some (m, n ∷ ms) ]

-- The types that `sfs_get_ops` has operations for.
abbrev pub is_openable : SfsType → Bool
is_openable t = elim t [ type_file ↦ true | type_dir ↦ true | _ ↦ false ]

-- `sfs_create_inode`; `granted` is whether `alloc_inode` has memory. A type that is neither a file
-- nor a directory panics.
unfoldable pub sfs_create_inode :
    (granted : Bool) → SfsDiskInode → (ino : ℕ) → Cmd (ℤ × Option Node)
sfs_create_inode granted din ino = if not granted then pure (err e_no_mem, none) else (do
  assert (is_openable din.type)
  let sin : SfsInode = record { din = din; ino = ino; dirty = false; reclaim_count = pos 1 }
  pure (pos 0, some (record { sin = sin; ref_count = 1 })))

-- The code, the node and the list. `din_granted` is whether `kmalloc` has memory for the inode.
unfoldable pub sfs_load_inode :
    (din_granted granted : Bool) → List Node → (ino : ℕ) → Cmd (ℤ × Option Node × List Node)
unfolding lookup_sfs_nolock sfs_create_inode sfs_rbuf sfs_block_inuse
sfs_load_inode din_granted granted ns ino = elim (lookup_sfs_nolock ino ns) [
  | some (n, ns') ↦ pure (pos 0, some n, ns')
  | none ↦ if not din_granted then pure (err e_no_mem, none, ns) else (do
    assert_inuse ino
    (ret, b) ← sfs_rbuf 64 ino 0
    if not (is_zero ret) then pure (ret, none, ns) else (do
      assert (not ((inode_at b).nlinks == 0))
      (ret', node) ← sfs_create_inode granted (inode_at b) ino
      pure (ret', node, elim node [ none ↦ ns | some n ↦ n ∷ ns ])))
]
