-- ===== src/Sched/Core.antt =====
-- kern/schedule/sched.c: waking a process and choosing the next one.
use ucoreonrv.Prelude.{ℕ, ◌+◌, true, false, not, [], ◌==◌, if◌then◌else◌}
use ucoreonrv.Prelude.Errors.{Run, done, assert, ◌>>=◌, ◌>>◌}
use ucoreonrv.Sched.{Sched, null, runnable, is_runnable, is_zombie, set_proc}
use ucoreonrv.Sched.Stride.{
  stride_init, stride_enqueue, stride_dequeue, stride_pick_next, stride_proc_tick,
}

abbrev pub max_time_slice : ℕ
max_time_slice = 5

unfoldable pub sched_class_enqueue : Sched → ℕ → Sched
sched_class_enqueue s p = if p == s.idleproc then s else stride_enqueue s p

unfoldable pub sched_class_proc_tick : Sched → ℕ → Sched
sched_class_proc_tick s p =
    if p == s.idleproc
    then set_proc s p (record (s.procs p) { need_resched = true })
    else stride_proc_tick s p

unfoldable pub sched_init : Sched → Sched
unfolding stride_init
sched_init s = record s {
  timer_list = [];
  rq = stride_init (record (s.rq) { max_time_slice = max_time_slice });
}

-- A runnable process is left as it is, with a warning.
unfoldable pub wakeup_proc : Sched → ℕ → Run Sched
wakeup_proc s p = do
  assert (not (is_zombie (s.procs p).state))
  let woken = set_proc s p (record (s.procs p) { state = runnable; wait_state = 0 })
  done (
      if is_runnable (s.procs p).state
      then s
      else if p == s.current
      then woken
      else sched_class_enqueue woken p)

-- kern/process/proc.c, up to the switch of stacks: `p` is the process that runs from here.
unfoldable pub proc_run : Sched → ℕ → Sched
proc_run s p = if p == s.current then s else record s { current = p }

-- The process that was running, put back in the queue if it still can run.
unfoldable pub requeue_current : Sched → Sched
requeue_current s =
    let c = s.current in
    let cleared = set_proc s c (record (s.procs c) { need_resched = false }) in
    if is_runnable (cleared.procs c).state then sched_class_enqueue cleared c else cleared

-- What `schedule` does once the class has chosen: `next` leaves the queue and runs, or the idle
-- process does.
unfoldable pub run_next : ℕ → Sched → Run Sched
run_next next s = do
  dequeued ← if next == null then done s else stride_dequeue s next
  let chosen = if next == null then s.idleproc else next
  let d = dequeued.procs chosen
  let counted = set_proc dequeued chosen (record d { runs = d.runs + 1 })
  done (if chosen == counted.current then counted else proc_run counted chosen)

unfoldable pub schedule : Sched → Run Sched
unfolding requeue_current run_next
schedule s = let (next, picked) = stride_pick_next (requeue_current s) in run_next next picked
