-- ===== src/Sched/Wakeup.antt =====
-- kern/schedule/sched.c: `wakeup_proc`.
use ucoreonrv.Prelude.{ℕ, ◌≡◌, true, false, ◌||◌, arith, ◌==◌}
use ucoreonrv.Prelude.Errors.{fault, Ends}
use ucoreonrv.Sched.{Sched, is_runnable, is_zombie}
use ucoreonrv.Sched.Stride.{stride_enqueue}
use ucoreonrv.Sched.Core.{sched_class_enqueue, wakeup_proc}
use ucoreonrv.Sched.Timers.{interruptible}

-- `wakeup_proc` accepts the process, and so does the check before it in `run_timer_list`.
abbrev pub CanWake : Sched → ℕ → Type 0
CanWake s p =
    (is_zombie (s.procs p).state ≡ false)
    × (((s.procs p).wait_state == 0 || interruptible (s.procs p).wait_state) ≡ true)

-- What a step may do to the other processes and to the timers while it wakes some.
pub record Wakes (s s' : Sched) : Type 0 where
  pub runnable_stays :
      (q : ℕ) → is_runnable (s.procs q).state ≡ true → is_runnable (s'.procs q).state ≡ true
  pub can_wake : (q : ℕ) → CanWake s q → CanWake s' q
  pub same_current : s'.current ≡ s.current

-- `wakeup_proc` faults exactly on a zombie. Otherwise the process is runnable afterwards, no other
-- stops being so, and the timers are as they were.
pub wakeup_lem :
    (s : Sched) (p : ℕ)
    → is_zombie (s.procs p).state ≡ false
    → Ends
        (λ s'.
          Wakes s s' × (is_runnable (s'.procs p).state ≡ true) × (s'.timer_list ≡ s.timer_list))
        (wakeup_proc s p)
unfolding wakeup_proc sched_class_enqueue stride_enqueue
wakeup_lem s p h = ground arith

pub wakeup_zombie :
    (s : Sched) (p : ℕ) → is_zombie (s.procs p).state ≡ true → wakeup_proc s p ≡ fault
unfolding wakeup_proc
wakeup_zombie s p h = ground arith
