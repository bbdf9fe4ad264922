-- ===== src/Sched/Turn.antt =====
-- kern/schedule/sched.c: one call of `schedule` over the stride class.
use ucoreonrv.Prelude.{
  ℕ, ◌+◌, ◌^◌, ◌≤◌, ◌<◌, ◌≡◌, ◌≢◌, ◌⊎◌, inl, inr, refl, sym, ◌∙◌, ap, subst, arith, ◌==◌,
  if◌then◌else◌,
}
use ucoreonrv.Prelude.Errors.{Run, done, Ends}
use ucoreonrv.SkewHeap.{Heap, leaf, node, count, size}
use ucoreonrv.SkewHeap.Contents.{Every-at}
use ucoreonrv.Sched.{Sched, set_proc}
use ucoreonrv.Sched.Stride.{root, pass, stride_pick_next}
use ucoreonrv.Sched.Core.{requeue_current, run_next, proc_run, schedule}
use ucoreonrv.Sched.Queue.{
  InOrder, pass-le, pick_lem, charge, turned, dequeue_lem, turned-InOrder, picked_least,
  picked_near, count-turned,
}
use ucoreonrv.Sched.Requeue.{candidate, Ready, Running, set_proc-Ready, Requeued, requeue_lem}

-- `p` runs, for one more time.
abbrev pub started : Sched → ℕ → Sched
started u p = record (set_proc u p (record (u.procs p) { runs = (u.procs p).runs + 1 })) {
  current = p;
}

-- What `schedule` leaves behind, with the unbounded strides `key'` and their lower bound `lo'`.
pub record Turn (key : ℕ → ℕ) (lo : ℕ) (s s' : Sched) : Type 0 where
  pub key' : ℕ → ℕ
  pub lo' : ℕ
  pub running : Running key' lo' s'
  pub forward : lo ≤ lo'
  pub charged :
      (q : ℕ)
      → key' q ≡ (
          if q == s'.current
          then (if q == s.idleproc then key q else key q + pass (s.procs q).lab6_priority)
          else key q)
  pub least : (q : ℕ) → 0 < candidate s q → (s'.current ≢ s.idleproc) × (key s'.current ≤ key q)
  pub chosen : (s'.current ≡ s.idleproc) ⊎ (0 < candidate s s'.current)
  pub stays : (q : ℕ) → count q s'.rq.lab6_run_pool ≡ (if q == s'.current then 0 else candidate s q)

started-Ready :
    (key : ℕ → ℕ) (lo : ℕ) (u : Sched) (p : ℕ) → Ready key lo u → Ready key lo (started u p)
started-Ready key lo u p h = set_proc-Ready key lo (record u { current = p }) p _ refl refl moved
  where
    moved : Ready key lo (record u { current = p })
    moved = record {
      order = record {
        keyed = h.order.keyed;
        ordered = h.order.ordered;
        near = h.order.near;
        once = h.order.once;
        members = h.order.members;
        counted = h.order.counted;
      };
      idle_off = h.idle_off;
      null_off = h.null_off;
      idle_real = h.idle_real;
    }

abbrev choose : Sched → Run Sched
choose t = run_next (stride_pick_next t).0 (stride_pick_next t).1

choose-idle : (t : Sched) → t.rq.lab6_run_pool ≡ leaf → choose t ≡ done (started t t.idleproc)
unfolding run_next proc_run stride_pick_next
choose-idle t e = ground (arith, ap root e)

choose-root :
    (key : ℕ → ℕ) (lo : ℕ) (t : Sched) (l : Heap) (p : ℕ) (r : Heap)
    → t.rq.lab6_run_pool ≡ node l p r
    → InOrder key lo t
    → p ≢ 0
    → choose t ≡ done (started (turned t p l r) p)
unfolding run_next proc_run
choose-root key lo t l p r e inv nz =
    ground (arith, pick_lem t l p r e nz, dequeue_lem key lo t l p r e inv nz)

module _ (key : ℕ → ℕ) (lo : ℕ) (s t : Sched) (h : Running key lo s) (q : Requeued key lo s t) where
  order : InOrder key lo t
  order = q.ready.order

  Turn-idle : t.rq.lab6_run_pool ≡ leaf → Turn key lo s (started t t.idleproc)
  Turn-idle e = record {
    key' = key;
    lo' = lo;
    running = record {
      ready = started-Ready key lo t t.idleproc q.ready;
      off_queue = q.ready.idle_off;
      real = q.ready.idle_real;
      near = λ busy. absurd (busy refl);
    };
    forward = omega arith;
    charged = λ i. ground (arith, q.same_idle);
    least = λ i queued. absurd (ground (arith, q.kept i, ap (count i) e));
    chosen = inl q.same_idle;
    stays = λ i. ground (arith, q.kept i, ap (count i) e);
  }

  module _ (l : Heap) (p : ℕ) (r : Heap) (e : t.rq.lab6_run_pool ≡ node l p r) where
    here : 0 < count p t.rq.lab6_run_pool
    here = ground (arith, ap (count p) e)

    real : p ≢ 0
    real z = ground (arith, here, q.ready.null_off)

    busy : p ≢ t.idleproc
    busy z = ground (arith, here, q.ready.idle_off)

    gone :
        (i : ℕ)
        → count i (turned t p l r).rq.lab6_run_pool
          ≡ (if i == p then 0 else count i t.rq.lab6_run_pool)
    gone = count-turned key lo t l p r e order real

    turned-Ready : Ready (charge key p (t.procs p).lab6_priority) (key p) (turned t p l r)
    turned-Ready = record {
      order = turned-InOrder key lo t l p r e order real;
      idle_off = ground (arith, gone t.idleproc, q.ready.idle_off);
      null_off = ground (arith, gone 0, q.ready.null_off);
      idle_real = q.ready.idle_real;
    }

    bound : (lo ≤ key p) × (key p ≤ lo + 2 ^ 30)
    bound = picked_near key lo t l p r e order real

    Turn-root : Turn key lo s (started (turned t p l r) p)
    Turn-root = record {
      key' = charge key p (t.procs p).lab6_priority;
      lo' = key p;
      running = record {
        ready = started-Ready _ _ (turned t p l r) p turned-Ready;
        off_queue = ground (arith, gone p);
        real = real;
        near = λ _. ground (arith, pass-le (t.procs p).lab6_priority);
      };
      forward = bound.0;
      charged = λ i. ground (arith, q.same_pass i, q.same_idle, busy);
      least = λ i queued. (
        (λ z. busy (z ∙ sym q.same_idle)),
        Every-at (λ j. key p ≤ key j) i (node l p r) (picked_least key lo t l p r e order real)
            (ground (arith, q.kept i, ap (count i) e)),
      );
      chosen = inr (ground (arith, q.kept p, here));
      stays = λ i. ground (arith, q.kept i, gone i);
    }

  turn_lem : (a : Heap) → t.rq.lab6_run_pool ≡ a → Ends (Turn key lo s) (choose t)
  turn_lem leaf e = subst (Ends (Turn key lo s)) (sym (choose-idle t e)) (Turn-idle e)
  turn_lem (node l p r) e =
      subst (Ends (Turn key lo s)) (sym (choose-root key lo t l p r e order (real l p r e)))
        (Turn-root l p r e)

-- Where the run queue is in order, without the idle process and the one that runs, all strides are
-- near each other, and fewer than 2^32 - 1 processes are queued, `schedule` fails no assertion. Its
-- candidates are the queued processes and the one that ran, if that is runnable and not the idle one.
-- The process that it runs is a candidate of least stride, or the idle one if there is none; its
-- stride alone grows, by the pass of its priority if it is not the idle one; just the other
-- candidates are queued afterwards; and the strides of the queue and of the running process are again
-- within `BIG_STRIDE` of each other.
pub schedule-Turn :
    (key : ℕ → ℕ) (lo : ℕ) (s : Sched)
    → Running key lo s
    → size s.rq.lab6_run_pool + 1 < 2 ^ 32
    → Ends (Turn key lo s) (schedule s)
unfolding schedule
schedule-Turn key lo s h room =
    turn_lem key lo s (requeue_current s) h (requeue_lem key lo s h room) _ refl
