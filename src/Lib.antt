-- ===== src/Lib.antt =====
-- ucore on 64-bit RISC-V: models of parts of the kernel, and theorems about them.
--
-- Processes (kern/process) are created, end and are waited for in a tree of parents and children.
-- The scheduler (kern/schedule) chooses the process to run and keeps the timers; it sits
-- on the skew heap of libs/skew_heap.h. Wait queues and semaphores (kern/sync) put processes to
-- sleep and wake them through it. The file layer (kern/fs) keeps each process's table of open files
-- over inodes that are counted by the virtual file system, and moves data with the routines of
-- libs/string.c; pipes (kern/fs/pipe) carry bytes between processes, and the simple file system
-- (kern/fs/sfs) keeps files in the blocks of a disk. The virtual memory layer
-- (kern/mm/vmm.c) keeps the areas of each address space, and the page allocator
-- (kern/mm/default_pmm.c) the free pages in a doubly linked list of libs/list.h.
--
-- SkewHeap models libs/skew_heap.h: skew_heap_merge, skew_heap_insert and skew_heap_remove on trees
--   whose entries are named by numbers, for any comparison function. `parent` pointers are the shape
--   of the tree.
-- Sched holds the state: process descriptors, run queue, timers, the current process.
--   Sched.Stride models kern/schedule/default_sched_stride.c, Sched.Core the rest of
--   kern/schedule/sched.c but for its timers (wakeup_proc, schedule), and Sched.Timers the timers
--   (add_timer, del_timer, run_timer_list). A process is the address of its descriptor, 0 is NULL.
--   Every operation runs with interrupts off and is one step. The queue is seen through unbounded
--   strides, of which the stored ones are the remainders modulo 2^32.
-- Files models kern/fs/file.c (Files.FdArray, Files.Calls), the counters of kern/fs/vfs/inode.c
--   (Files.Inode) and vfs_open and vfs_close of kern/fs/vfs/vfsfile.c (Files.Open). A command maps a
--   state to a value and a state, or to a fault where an assertion fails. The operations of a file
--   system, the function pointers of `struct inode_ops`, are the record Files.State.FsOps, with
--   the operations that each inode has; Files.Inode.vop_op is what `__vop_op` asserts before a call. They may
--   change the whole state, since they may sleep. `file_read` and `file_write` share their body,
--   Files.Calls.transfer.
--   Files.Moving models the moves of kern/fs/iobuf.c.
-- Links models libs/list.h as two functions from entries to entries, and Pages the first-fit
--   allocator kern/mm/default_pmm.c over it. A list that is right is a ring (Links.Rings.Ring); the
--   other modules take the lists that they use for lists of entries.
-- Bitmaps models kern/fs/sfs/bitmap.c with a word as the function to its 32 bits.
-- Sfs models the simple file system, kern/fs/sfs: Sfs.State the superblock, the inode and the
--   disk of kern/fs/sfs/sfs.h, Sfs.Device the transfers of kern/fs/sfs/sfs_io.c, and over them
--   kern/fs/sfs/sfs_inode.c: Sfs.Blocks the free blocks (over Bitmaps), Sfs.Bmap the map from the
--   blocks of a file to those of the disk, Sfs.Resize its length, Sfs.Io reading and writing,
--   Sfs.Inodes the inodes in memory and Sfs.Dirents the entries of a directory. The state holds
--   the codes that the next calls of the device return, so that every theorem is about all ways
--   in which the device may fail; a call that fails transfers nothing, as disk0_io of
--   kern/fs/devs/dev_disk0.c does. Sfs.Accounts.Sound is the invariant of a disk and
--   Sfs.Mapped.Mapped that of a file's map.
-- Pipes models kern/fs/pipe/pipe.c over Sync: a call is cut where it sleeps, and pipe_read_resume and
--   pipe_write_resume are what comes after.
-- Sync models kern/sync/wait.c (Sync.WaitQueue) and kern/sync/sem.c (Sync.Sem) over the state of
--   Sched. `down` is cut at its call of `schedule`: down_enter is what comes before it and
--   down_resume what comes after, so that a run is any sequence of steps of different processes
--   (Sync.Balance.Runs).
-- Vm models the areas of kern/mm/vmm.c (Vm.Areas), user_mem_check (Vm.Checks) and dup_mmap (Vm.Fork)
--   as a sorted list with its cache. What kmalloc and copy_range answer is a parameter.
-- Procs models kern/process/proc.c but for the loading of programs: Procs.Pids get_pid,
--   Procs.Kernel the table of pids and the family links, Procs.Life exit, wait and kill, Procs.Birth
--   do_fork and what a process applies to itself. The scheduler's view of a process is that of
--   Sched. do_wait, do_exit and do_sleep are cut at their call of `schedule`. What `kmalloc`,
--   `setup_kstack`, `copy_mm` and `copy_files` answer is a parameter (Procs.Birth.Grants).
-- Strings models libs/string.c (Strings.Blocks, Strings.Text, and strtol in Strings.Number), over a
--   memory that gives the byte at each address.
--
-- Loops are recursions on lists, trees or counts where the source bounds them. The loop of
-- user_mem_check runs on `len` steps of fuel, which are enough since each step moves up by a byte at
-- least, and the loops over null-terminated strings on one step more than the length. get_pid has
-- MAX_PID rounds, of which each comes closer to an unused pid; do_exit and do_wait have one step more
-- than there are children, and the loops over the free list up to three more than there are blocks.
-- Counters of type `int` that only grow by one for each use (runs, ref_count, open_count, map_count, the value
-- of a semaphore) do not wrap here; 32-bit strides, proc_num and the ticks of a timer do. Signed
-- offsets do not overflow.
--
-- Not modelled: interrupts and the switch of stacks, log output, page tables and page faults, swap,
-- the slab allocator, mounting, the search of names and paths, devices, the loading of programs, boot code and user
-- programs.
pub mod Bitmaps
pub mod Files
pub mod Links
pub mod Pages
pub mod Pipes
pub mod Prelude
pub mod Procs
pub mod Sched
pub mod Sfs
pub mod SkewHeap
pub mod Strings
pub mod Sync
pub mod Vm
