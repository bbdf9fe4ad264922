-- ===== src/Files.antt =====
-- The file layer: kern/fs/file.c over kern/fs/vfs/vfsfile.c and kern/fs/vfs/inode.c.
pub mod State
pub mod Inode
pub mod Open
pub mod FdArray
pub mod Calls
pub mod Table
pub mod Close
pub mod LetGo
pub mod Dup
pub mod Create
pub mod Seek
pub mod Transfer
pub mod Moving
pub mod MovingTests
pub mod Tests
