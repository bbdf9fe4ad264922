-- ===== src/Procs.antt =====
-- kern/process/proc.c: processes. The fields that the scheduler uses are those of Sched; this state
-- adds the kinship, the lists of processes and the numbers that get_pid keeps. A process is named by
-- the address of its descriptor, 0 is NULL.
pub mod Pids
pub mod Fresh
pub mod Kernel
pub mod Life
pub mod Children
pub mod Family
pub mod Removal
pub mod Adoption
pub mod Exit
pub mod Reaping
pub mod Birth
pub mod Born
pub mod Forked
pub mod Lookup
pub mod Tests
