-- ===== src/Sched/Clock.antt =====
-- kern/schedule/sched.c: the clock ticks that a timer waits for.
use ucoreonrv.Prelude.{ℕ, zero, suc, ◌+◌, ◌≡◌, ◌∙◌, true, some, All, arith, ap}
use ucoreonrv.Prelude.Errors.{Run, done, Ends, Ends-bind, ◌>>=◌}
use ucoreonrv.Sched.{Sched, is_runnable}
use ucoreonrv.Sched.Timers.{run_timer_list}
use ucoreonrv.Sched.Deadlines.{deadline, IsTimerList}
use ucoreonrv.Sched.Wakeup.{CanWake}
use ucoreonrv.Sched.Tick.{Ticks, ticked, owner, run_timer_list-Ticks}

-- `n` clock ticks.
abbrev pub ticks : (n : ℕ) → Sched → Run Sched
ticks zero s = done s
ticks (suc n) s = run_timer_list s >>= ticks n

-- If the list of timers is in order and their processes can be woken, then after as many clock ticks
-- as a timer has left, none of which fails an assertion, the process of that timer is runnable.
pub ticks-runnable :
    (n : ℕ) (s : Sched)
    → IsTimerList s.timer_list
    → All (λ t. CanWake s t.proc) s.timer_list
    → (j p : ℕ) → deadline j s.timer_list ≡ some (n + 1)
    → owner j s.timer_list ≡ some p
    → Ends (λ s'. is_runnable (s'.procs p).state ≡ true) (ticks (suc n) s)
ticks-runnable zero s ok can j p due own =
    Ends-bind (Ticks s) (λ s'. is_runnable (s'.procs p).state ≡ true) (run_timer_list s) (ticks 0)
      (run_timer_list-Ticks s ok can) (λ s' t. t.woken j p due own)
ticks-runnable (suc n) s ok can j p due own =
    Ends-bind (Ticks s) (λ s'. is_runnable (s'.procs p).state ≡ true) (run_timer_list s)
      (ticks (suc n)) (run_timer_list-Ticks s ok can)
      (λ s' t.
        ticks-runnable n s' t.in_order t.still j p (t.deadlines j ∙ ap ticked due ∙ ground arith)
          (t.owners j n (ground (arith, due)) ∙ own))
