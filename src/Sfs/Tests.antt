-- ===== src/Sfs/Tests.antt =====
-- Runs of kern/fs/sfs on a disk of eight blocks, of which the blocks from 4 on are free, and on a
-- file of one block, which is block 3.
use ucoreonrv.Prelude.{◌+◌, refl, true, false, ◌&&◌, ◌==◌, if◌then◌else◌, ltb, leb, arith}
use ucoreonrv.Prelude.Int.{pos}
use ucoreonrv.Prelude.Errors.{Ends}
use ucoreonrv.Sfs.State.{SfsFs, SfsInode, type_file}
use ucoreonrv.Sfs.Blocks.{sfs_block_free}
use ucoreonrv.Sfs.Bmap.{sfs_bmap_load_nolock, sfs_bmap_truncate_nolock}
use ucoreonrv.Sfs.Resize.{sfs_truncfile}
use ucoreonrv.Sfs.Accounts.{Sound}
use ucoreonrv.Sfs.Freeing.{Freed, sfs_block_free-Freed}
use ucoreonrv.Sfs.Mapped.{Mapped}
use ucoreonrv.Sfs.Loading.{Loaded, sfs_bmap_load-Loaded}
use ucoreonrv.Sfs.Finding.{Found, sfs_bmap_load-Found}
use ucoreonrv.Sfs.Shrinking.{Shortened}
use ucoreonrv.Sfs.Truncating.{sfs_bmap_truncate-Shortened}
use ucoreonrv.Sfs.Io.{sfs_io_nolock}
use ucoreonrv.Sfs.ReadRange.{InRow, ReadAll, sfs_io-ReadAll}
use ucoreonrv.Sfs.Inodes.{sfs_fsync}
use ucoreonrv.Sfs.Syncing.{Fits, Synced, sfs_fsync-Synced}
use ucoreonrv.Sfs.Resizing.{Resized, sfs_truncfile-Resized}

abbrev disk8 : SfsFs
disk8 = record {
  blocks = 8;
  unused_blocks = 4;
  super_dirty = false;
  freemap = record { nbits = 32; nwords = 1; map = λ q o. q == 0 && (leb 4 o && ltb o 8) };
  sfs_buffer = λ o. 0;
  disk = λ q o. q + o;
  codes = λ n. pos 0;
  mem = λ a. 0;
}

disk8-Sound : Sound disk8
disk8-Sound = record {
  small = omega arith;
  covered = omega arith;
  whole = omega arith;
  inside = λ i l e. (ground (arith, e, l), ground (arith, e, l));
  counted = refl;
}

abbrev file1 : SfsInode
file1 = record {
  din = record {
    size = 4096;
    type = type_file;
    nlinks = 1;
    blocks = 1;
    direct = λ i. if i == 0 then 3 else 0;
    indirect = 0;
  };
  ino = 2;
  dirty = false;
  reclaim_count = pos 1;
}

file1-Mapped : Mapped disk8 file1.din
file1-Mapped = record {
  bound = omega arith;
  held = λ i l. ground (arith, l);
  beyond = λ i l k. ground (arith, l);
  apart = λ i j l k n e. n (omega (arith, l, k));
  table = λ n. absurd (n refl);
  table_apart = λ i l e. absurd (ground (arith, l, e));
}

sfs_block_free-Freed_example : Ends (Freed disk8 3) (sfs_block_free 3 disk8)
sfs_block_free-Freed_example = sfs_block_free-Freed disk8 3 disk8-Sound refl

sfs_bmap_load-Loaded_example : Ends (Loaded disk8 file1) (sfs_bmap_load_nolock file1 1 disk8)
sfs_bmap_load-Loaded_example =
    sfs_bmap_load-Loaded disk8 file1 disk8-Sound file1-Mapped (omega arith)

sfs_bmap_load-Found_example : Ends (Found disk8 file1 0) (sfs_bmap_load_nolock file1 0 disk8)
sfs_bmap_load-Found_example =
    sfs_bmap_load-Found disk8 file1 disk8-Sound file1-Mapped 0 (omega arith)

sfs_bmap_truncate-Shortened_example :
    Ends (Shortened disk8 file1) (sfs_bmap_truncate_nolock file1 disk8)
sfs_bmap_truncate-Shortened_example =
    sfs_bmap_truncate-Shortened disk8 file1 disk8-Sound file1-Mapped (omega arith)

sfs_truncfile-Resized_example :
    Ends (Resized disk8 file1 9000) (sfs_truncfile file1 (pos 9000) disk8)
sfs_truncfile-Resized_example =
    sfs_truncfile-Resized disk8 file1 9000 disk8-Sound file1-Mapped refl (omega arith)

one_block : InRow disk8 file1.din 0 4096
one_block i j l k = ground (arith, k)

sfs_io-ReadAll_example :
    Ends (ReadAll disk8 file1 1000 0 5000) (sfs_io_nolock file1 1000 (pos 0) 5000 false disk8)
sfs_io-ReadAll_example =
    sfs_io-ReadAll disk8 file1 1000 0 5000 disk8-Sound file1-Mapped refl (omega arith) (omega arith)
      one_block

abbrev dirty1 : SfsInode
dirty1 = record file1 { dirty = true }

file1-Fits : Fits dirty1.din
file1-Fits = record {
  size = omega arith;
  nlinks = omega arith;
  blocks = omega arith;
  direct = λ i l. ground (arith, l);
  indirect = omega arith;
}

sfs_fsync-Synced_example : Ends (Synced dirty1 true true) (sfs_fsync dirty1 disk8)
sfs_fsync-Synced_example =
    sfs_fsync-Synced disk8 dirty1 true true disk8-Sound refl file1-Fits (omega arith) refl refl
