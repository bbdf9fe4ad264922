-- ===== src/Sync/Tests.antt =====
-- Runs of kern/sync: process 1 runs, processes 2 and 3 wait for semaphore 50.
use ucoreonrv.Prelude.{ℕ, ◌+◌, ◌≡◌, inl, refl, true, false, [], ◌∷◌, arith, ◌==◌, if◌then◌else◌}
use ucoreonrv.Prelude.Errors.{fault, done, Ends}
use ucoreonrv.SkewHeap.{leaf}
use ucoreonrv.Sched.{Proc, sleeping, runnable}
use ucoreonrv.Sync.{World}
use ucoreonrv.Sync.Sem.{wt_ksem, up, up_first}
use ucoreonrv.Sync.WaitQueue.{wakeup_wait, wait_queue_del, wait_queue_first}
use ucoreonrv.Sched.Core.{wakeup_proc, sched_class_enqueue}
use ucoreonrv.Sched.Stride.{stride_enqueue}
use ucoreonrv.Sync.Waiters.{IsSem}
use ucoreonrv.Sync.Up.{Upped, up-Upped}
use ucoreonrv.Sync.Balance.{start, upped, handed, Runs-balance}

abbrev proc : ℕ → Proc
proc i = record {
  state = if i == 1 then runnable else sleeping;
  runs = 0;
  need_resched = false;
  wait_state = wt_ksem;
  on_rq = false;
  time_slice = 5;
  lab6_stride = 0;
  lab6_priority = 1;
}

abbrev demo : World
demo = record {
  sched = record {
    procs = proc;
    rq = record { proc_num = 0; max_time_slice = 5; lab6_run_pool = leaf };
    timer_list = [];
    current = 1;
    idleproc = 9;
  };
  waits = λ x. record {
    proc = if x == 12 then 2 else if x == 13 then 3 else 1;
    wakeup_flags = 0;
    wait_queue = 50;
    linked = if x == 12 then true else x == 13;
  };
  queues = λ q. if q == 50 then 12 ∷ 13 ∷ [] else [];
  values = λ q. if q == 51 then 2 else 0;
}

demo-IsSem : IsSem demo 50
demo-IsSem = record {
  waiting = ((refl, refl, refl, refl, refl), ((refl, refl, refl, refl, refl), tt));
  apart = (((λ e. absurd (omega arith)), tt), (tt, tt));
  idle = inl refl;
}

up-Upped_example : Ends (λ w'. IsSem w' 50 × Upped demo 50 (12 ∷ 13 ∷ []) w') (up demo 50)
up-Upped_example = up-Upped demo 50 demo-IsSem

-- The kernel after one call of `up`, which wakes the first of the two that wait.
abbrev served : World
served = elim (up demo 50) [ fault ↦ demo | done w ↦ w ]

up_run : up demo 50 ≡ done served
unfolding up up_first wait_queue_first wakeup_wait wait_queue_del wakeup_proc sched_class_enqueue
    stride_enqueue
up_run = refl

Runs-balance_example :
    IsSem served 50
    × (served.values 50 + (0 + handed demo served (12 ∷ 13 ∷ [])) ≡ demo.values 50 + 1)
Runs-balance_example = Runs-balance 50 demo served 1 _ demo-IsSem (upped start up_run)
