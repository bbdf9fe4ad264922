-- ===== src/Sync.antt =====
-- kern/sync: wait queues and semaphores over the scheduler. A `wait_t`, which lies on the stack of
-- the process that waits, and a queue are named by their addresses; the queue inside a semaphore
-- has the semaphore's address.
pub mod WaitQueue
pub mod Sem
pub mod Waiters
pub mod Up
pub mod Down
pub mod Balance
pub mod WakeAll
pub mod Tests
use ucoreonrv.Prelude.{ℕ, Bool, List, ◌==◌, if◌then◌else◌}
use ucoreonrv.Sched.{Sched}

-- `linked` says that `wait_link` is not empty.
pub record Wait : Type 0 where
  pub proc : ℕ
  pub wakeup_flags : ℕ
  pub wait_queue : ℕ
  pub linked : Bool

-- `value` of a semaphore is never negative.
pub record World : Type 0 where
  pub sched : Sched
  pub waits : ℕ → Wait
  pub queues : ℕ → List ℕ
  pub values : ℕ → ℕ

abbrev pub set_at {ℓ} : {A : Type ℓ} → (ℕ → A) → ℕ → A → ℕ → A
set_at f i v j = if j == i then v else f j

abbrev pub set_wait : World → ℕ → Wait → World
set_wait w x v = record w { waits = set_at w.waits x v }

abbrev pub set_queue : World → ℕ → List ℕ → World
set_queue w q l = record w { queues = set_at w.queues q l }
