-- ===== src/Sched.antt =====
-- The state of the scheduler: the process descriptors (kern/process/proc.h), the run queue and the
-- timers (kern/schedule/sched.h). A process is named by the address of its descriptor, 0 is NULL.
-- Every operation runs with interrupts off, so it is one step.
pub mod Stride
pub mod Core
pub mod Timers
pub mod Window
pub mod Queue
pub mod Requeue
pub mod Turn
pub mod Deadlines
pub mod Wakeup
pub mod Sweep
pub mod Tick
pub mod Clock
pub mod Tests
use ucoreonrv.Prelude.{ℕ, ◌+◌, ◌-◌, ◌%◌, ◌^◌, Bool, true, false, List, ◌==◌, if◌then◌else◌, ltb}
use ucoreonrv.Prelude.Int.{ℤ, pos, negsuc}
use ucoreonrv.SkewHeap.{Heap}

pub data ProcState : Type 0 where
  uninit sleeping runnable zombie : ProcState

abbrev pub is_runnable : ProcState → Bool
is_runnable runnable = true
is_runnable _ = false

abbrev pub is_zombie : ProcState → Bool
is_zombie zombie = true
is_zombie _ = false

-- The fields of `struct proc_struct` that the scheduler reads or writes. `on_rq` says that
-- `proc->rq` is the run queue; no code makes `time_slice` negative.
pub record Proc : Type 0 where
  pub state : ProcState
  pub runs : ℕ
  pub need_resched : Bool
  pub wait_state : ℕ
  pub on_rq : Bool
  pub time_slice : ℕ
  pub lab6_stride : ℕ
  pub lab6_priority : ℕ

-- `run_list` is not used: the class keeps the processes in the skew heap.
pub record RunQueue : Type 0 where
  pub proc_num : ℕ
  pub max_time_slice : ℕ
  pub lab6_run_pool : Heap

pub record Timer : Type 0 where
  pub id : ℕ
  pub expires : ℕ
  pub proc : ℕ

pub record Sched : Type 0 where
  pub procs : ℕ → Proc
  pub rq : RunQueue
  pub timer_list : List Timer
  pub current : ℕ
  pub idleproc : ℕ

abbrev pub null : ℕ
null = 0

abbrev pub update : (ℕ → Proc) → ℕ → Proc → ℕ → Proc
update procs p v a = if a == p then v else procs a

-- Assigns the descriptor of `p`.
abbrev pub set_proc : Sched → ℕ → Proc → Sched
set_proc s p v = record s { procs = update s.procs p v }

-- The number that the bit pattern of an `int32_t` stands for.
abbrev pub signed32 : ℕ → ℤ
signed32 w = if ltb w (2 ^ 31) then pos w else negsuc (2 ^ 32 - w - 1)

-- A difference of two `uint32_t`.
abbrev pub sub32 : ℕ → ℕ → ℕ
sub32 a b = (a + 2 ^ 32 - b) % 2 ^ 32
