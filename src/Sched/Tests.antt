-- ===== src/Sched/Tests.antt =====
-- Runs of the scheduler: process 1 is the idle one, 2 runs, 3 and 4 are queued.
use ucoreonrv.Prelude.{
  ℕ, ◌+◌, ◌-◌, ◌^◌, ◌≡◌, refl, true, none, List, [], ◌∷◌, arith, ◌==◌, if◌then◌else◌,
}
use ucoreonrv.Prelude.Errors.{Ends}
use ucoreonrv.SkewHeap.{leaf, node}
use ucoreonrv.Sched.{Proc, Timer, Sched, runnable, sleeping, is_runnable}
use ucoreonrv.Sched.Core.{schedule}
use ucoreonrv.Sched.Timers.{is_linked, del_timer}
use ucoreonrv.Sched.Window.{Keyed}
use ucoreonrv.Sched.Queue.{InOrder}
use ucoreonrv.Sched.Requeue.{Running}
use ucoreonrv.Sched.Turn.{Turn, schedule-Turn}
use ucoreonrv.Sched.Deadlines.{deadline, IsTimerList, del_timer-deadline}
use ucoreonrv.Sched.Clock.{ticks, ticks-runnable}

-- Process 3 has wrapped: its stride stands for 2 ^ 32 + 5, the others' for 2 ^ 32 - 1.
abbrev demo_key : ℕ → ℕ
demo_key p = if p == 3 then 2 ^ 32 + 5 else 2 ^ 32 - 1

abbrev demo_procs : ℕ → Proc
demo_procs p = record {
  state = if p == 5 then sleeping else runnable;
  runs = 0;
  need_resched = true;
  wait_state = if p == 5 then 2 ^ 31 + 2 else 0;
  on_rq = true;
  time_slice = 0;
  lab6_stride = if p == 3 then 5 else 2 ^ 32 - 1;
  lab6_priority = 2;
}

abbrev demo_timers : List Timer
demo_timers =
    record { id = 8; expires = 1; proc = 5 } ∷ record { id = 9; expires = 4; proc = 5 } ∷ []

abbrev demo : Sched
demo = record {
  procs = demo_procs;
  rq = record { proc_num = 2; max_time_slice = 5; lab6_run_pool = node (node leaf 3 leaf) 4 leaf };
  timer_list = demo_timers;
  current = 2;
  idleproc = 1;
}

demo-Keyed : Keyed demo_key demo_procs
demo-Keyed p = ground arith

demo-InOrder : InOrder demo_key (2 ^ 32 - 1) demo
demo-InOrder = record {
  keyed = demo-Keyed;
  ordered = omega arith;
  near = omega arith;
  once = λ p. ground arith;
  members = (refl, (refl, tt, tt), tt);
  counted = refl;
}

demo-Running : Running demo_key (2 ^ 32 - 1) demo
demo-Running = record {
  ready = record {
    order = demo-InOrder;
    idle_off = refl;
    null_off = refl;
    idle_real = λ e. absurd (omega arith);
  };
  off_queue = refl;
  real = λ e. absurd (omega arith);
  near = λ _. (omega arith, omega arith);
}

schedule-Turn_example : Ends (Turn demo_key (2 ^ 32 - 1) demo) (schedule demo)
schedule-Turn_example = schedule-Turn demo_key (2 ^ 32 - 1) demo demo-Running (omega arith)

demo-IsTimerList : IsTimerList demo_timers
unfolding is_linked
demo-IsTimerList = record {
  distinct = (refl, (refl, tt));
  none_due = omega arith;
  fits = omega arith;
}

del_timer-deadline_example :
    ((j : ℕ)
      → deadline j (del_timer demo 8).timer_list
        ≡ (if 8 == j then none else deadline j demo_timers))
    × IsTimerList (del_timer demo 8).timer_list
del_timer-deadline_example = del_timer-deadline demo 8 demo-IsTimerList

ticks-runnable_example : Ends (λ s'. is_runnable (s'.procs 5).state ≡ true) (ticks 5 demo)
ticks-runnable_example =
    ticks-runnable 4 demo demo-IsTimerList ((refl, refl), ((refl, refl), tt)) 9 5 refl refl
