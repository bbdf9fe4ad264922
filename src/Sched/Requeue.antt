-- ===== src/Sched/Requeue.antt =====
-- kern/schedule/sched.c: the first half of `schedule`, which puts the running process back.
use ucoreonrv.Prelude.{
  ℕ, ◌+◌, ◌^◌, ◌<◌, ◌≡◌, ◌≢◌, ◌⊎◌, refl, true, false, inl, inr, arith, ◌==◌, if◌then◌else◌,
}
use ucoreonrv.SkewHeap.{count, size, skew_heap_insert}
use ucoreonrv.SkewHeap.Contents.{count-insert, Every-map}
use ucoreonrv.Sched.{Proc, Sched, is_runnable, set_proc}
use ucoreonrv.Sched.Stride.{proc_stride_comp_f, stride_enqueue}
use ucoreonrv.Sched.Core.{sched_class_enqueue, requeue_current}
use ucoreonrv.Sched.Window.{Near}
use ucoreonrv.Sched.Queue.{InOrder, enqueue-InOrder}

-- Between calls: the queue is in order and holds neither the idle process nor NULL.
pub record Ready (key : ℕ → ℕ) (lo : ℕ) (s : Sched) : Type 0 where
  pub order : InOrder key lo s
  pub idle_off : count s.idleproc s.rq.lab6_run_pool ≡ 0
  pub null_off : count 0 s.rq.lab6_run_pool ≡ 0
  pub idle_real : s.idleproc ≢ 0

-- A process runs: it is not queued, and its stride is near those that are unless it is the idle one.
pub record Running (key : ℕ → ℕ) (lo : ℕ) (s : Sched) : Type 0 where
  pub ready : Ready key lo s
  pub off_queue : count s.current s.rq.lab6_run_pool ≡ 0
  pub real : s.current ≢ 0
  pub near : s.current ≢ s.idleproc → Near key lo s.current

-- A change of a descriptor that leaves stride and membership alone.
pub set_proc-Ready :
    (key : ℕ → ℕ) (lo : ℕ) (s : Sched) (p : ℕ) (v : Proc)
    → v.lab6_stride ≡ (s.procs p).lab6_stride
    → v.on_rq ≡ (s.procs p).on_rq
    → Ready key lo s
    → Ready key lo (set_proc s p v)
set_proc-Ready key lo s p v e f h = record {
  order = record {
    keyed = λ q. ground (arith, o.keyed q);
    ordered = o.ordered;
    near = o.near;
    once = o.once;
    members = Every-map _ _ s.rq.lab6_run_pool (λ q m. ground arith) o.members;
    counted = o.counted;
  };
  idle_off = h.idle_off;
  null_off = h.null_off;
  idle_real = h.idle_real;
}
  where
    o : InOrder key lo s
    o = h.order

-- How often `q` stands to be chosen: as often as it is queued, and the process that runs once if it
-- can run on and is not the idle one.
abbrev pub candidate : Sched → ℕ → ℕ
candidate s q =
    if q == s.current
    then (if is_runnable (s.procs q).state then (if q == s.idleproc then 0 else 1) else 0)
    else count q s.rq.lab6_run_pool

-- The queue that the class chooses from: the processes that were queued, and the one that ran if it
-- still can.
pub record Requeued (key : ℕ → ℕ) (lo : ℕ) (s s' : Sched) : Type 0 where
  pub ready : Ready key lo s'
  pub same_idle : s'.idleproc ≡ s.idleproc
  pub same_pass : (q : ℕ) → (s'.procs q).lab6_priority ≡ (s.procs q).lab6_priority
  pub kept : (q : ℕ) → count q s'.rq.lab6_run_pool ≡ candidate s q

abbrev pub cleared : Sched → Sched
cleared s = set_proc s s.current (record (s.procs s.current) { need_resched = false })

requeue_cases :
    (P : Sched → Type 0) (s : Sched)
    → (is_runnable (s.procs s.current).state ≡ false → P (cleared s))
    → (s.current ≡ s.idleproc → P (cleared s))
    → (is_runnable (s.procs s.current).state ≡ true
        → s.current ≢ s.idleproc
        → P (stride_enqueue (cleared s) s.current))
    → P (requeue_current s)
unfolding requeue_current sched_class_enqueue
requeue_cases P s stopped idle queued = ground arith

module _ (key : ℕ → ℕ) (lo : ℕ) (s : Sched) (h : Running key lo s)
    (room : size s.rq.lab6_run_pool + 1 < 2 ^ 32) where
  cleared-Ready : Ready key lo (cleared s)
  cleared-Ready = set_proc-Ready key lo s s.current _ refl refl h.ready

  left_out :
      (is_runnable (s.procs s.current).state ≡ false) ⊎ (s.current ≡ s.idleproc)
      → Requeued key lo s (cleared s)
  left_out out = record {
    ready = cleared-Ready;
    same_idle = refl;
    same_pass = λ q. ground arith;
    kept = λ q. ground (arith, h.off_queue);
  }

  put_in :
      is_runnable (s.procs s.current).state ≡ true
      → s.current ≢ s.idleproc
      → Requeued key lo s (stride_enqueue (cleared s) s.current)
  unfolding stride_enqueue
  put_in run busy = record {
    ready = record {
      order =
          enqueue-InOrder key lo (cleared s) s.current cleared-Ready.order (h.near busy) h.off_queue
            room;
      idle_off = ground (arith, one s.idleproc, h.ready.idle_off);
      null_off = ground (arith, one 0, h.ready.null_off, h.real);
      idle_real = h.ready.idle_real;
    };
    same_idle = refl;
    same_pass = λ q. ground arith;
    kept = λ q. ground (arith, one q, h.off_queue);
  }
    where
      one :
          (q : ℕ)
          → count q
              (skew_heap_insert (proc_stride_comp_f (cleared s).procs) s.rq.lab6_run_pool s.current)
            ≡ count q s.rq.lab6_run_pool + (if s.current == q then 1 else 0)
      one q = count-insert (proc_stride_comp_f (cleared s).procs) q s.rq.lab6_run_pool s.current

  pub requeue_lem : Requeued key lo s (requeue_current s)
  requeue_lem =
      requeue_cases (Requeued key lo s) s (λ e. left_out (inl e)) (λ e. left_out (inr e)) put_in
