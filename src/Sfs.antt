-- ===== src/Sfs.antt =====
-- kern/fs/sfs: the simple file system over its disk. `State` has the data of kern/fs/sfs/sfs.h,
-- `Device` kern/fs/sfs/sfs_io.c, `Blocks` and `Bmap` the blocks of a disk and of a file in
-- kern/fs/sfs/sfs_inode.c.
pub mod State
pub mod Device
pub mod Blocks
pub mod Bmap
pub mod Runs
pub mod Transfers
pub mod Accounts
pub mod Allocation
pub mod Freeing
pub mod Words
pub mod Mapped
pub mod Entries
pub mod Subs
pub mod NewSubs
pub mod Placing
pub mod Loading
pub mod Finding
pub mod Erasing
pub mod Shrinking
pub mod Truncating
pub mod Resize
pub mod Changing
pub mod Resizing
pub mod Io
pub mod Tests
pub mod Reading
pub mod FileBytes
pub mod ReadCalls
pub mod ReadRange
pub mod Inodes
pub mod Syncing
pub mod Dirents
