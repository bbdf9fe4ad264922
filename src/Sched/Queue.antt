-- ===== src/Sched/Queue.antt =====
-- kern/schedule/default_sched_stride.c: entering the run queue, and leaving it at a turn.
use ucoreonrv.Prelude.{
  ℕ, ◌+◌, ◌-◌, ◌%◌, ◌^◌, ◌≤◌, ◌<◌, ◌≡◌, ◌≢◌, ap, subst, ◌∙◌, true, arith, ◌==◌, if◌then◌else◌,
}
use ucoreonrv.Prelude.Int.{ℤ}
use ucoreonrv.Prelude.Errors.{done}
use ucoreonrv.SkewHeap.{Heap, node, count, size, Every, IsHeap, skew_heap_merge, skew_heap_remove}
use ucoreonrv.SkewHeap.Contents.{
  count-merge, count-insert, size-merge, size-insert, merge-Every, insert-Every, Every-map,
  Every-zip, Every-ne, IsHeap-same,
}
use ucoreonrv.SkewHeap.Order.{Agrees, insert-IsHeap, merge-IsHeap}
use ucoreonrv.Sched.{Sched, update}
use ucoreonrv.Sched.Stride.{
  root, pass, proc_stride_comp_f, stride_enqueue, stride_dequeue, stride_pick_next,
}
use ucoreonrv.Sched.Window.{Near, Keyed, comp-Agrees}

-- The run queue is in order: a heap by unbounded stride, over distinct processes that know that
-- they are queued, all strides within `BIG_STRIDE` above `lo`, and `proc_num` of them.
pub record InOrder (key : ℕ → ℕ) (lo : ℕ) (s : Sched) : Type 0 where
  pub keyed : Keyed key s.procs
  pub ordered : IsHeap key s.rq.lab6_run_pool
  pub near : Every (Near key lo) s.rq.lab6_run_pool
  pub once : (p : ℕ) → count p s.rq.lab6_run_pool ≤ 1
  pub members : Every (λ p. (s.procs p).on_rq ≡ true) s.rq.lab6_run_pool
  pub counted : s.rq.proc_num ≡ size s.rq.lab6_run_pool

-- `stride_enqueue` keeps the queue in order, for a process that is not queued and whose stride is
-- within `BIG_STRIDE` above `lo`.
pub enqueue-InOrder :
    (key : ℕ → ℕ) (lo : ℕ) (s : Sched) (p : ℕ)
    → InOrder key lo s
    → Near key lo p
    → count p s.rq.lab6_run_pool ≡ 0
    → size s.rq.lab6_run_pool + 1 < 2 ^ 32
    → InOrder key lo (stride_enqueue s p)
unfolding stride_enqueue
enqueue-InOrder key lo s p inv h new room = record {
  keyed = λ q. ground (arith, inv.keyed q);
  ordered =
      insert-IsHeap (Near key lo) key _ (comp-Agrees key s.procs inv.keyed lo) pool p inv.near h
        inv.ordered;
  near = insert-Every _ (Near key lo) pool p inv.near h;
  once = λ q. ground (arith, count-insert (proc_stride_comp_f s.procs) q pool p, inv.once q);
  members =
      insert-Every _ _ pool p (Every-map _ _ pool (λ q e. ground arith) inv.members) (ground arith);
  counted = omega (arith, size-insert (proc_stride_comp_f s.procs) pool p, inv.counted);
}
  where
    pool : Heap
    pool = s.rq.lab6_run_pool

pub pass-le : (n : ℕ) → pass n ≤ 2 ^ 30
pass-le n = ground arith

-- The unbounded strides once `p` has been charged for a turn.
abbrev pub charge : (ℕ → ℕ) → ℕ → ℕ → ℕ → ℕ
charge key p priority q = if q == p then key p + pass priority else key q

-- The state once `p`, at the root of the pool over `l` and `r`, has been picked and taken out.
abbrev pub turned : Sched → ℕ → Heap → Heap → Sched
turned s p l r =
    let d = s.procs p in
    let stride = (d.lab6_stride + pass d.lab6_priority) % 2 ^ 32 in
    let procs = update s.procs p (record d { lab6_stride = stride }) in
    record s {
      procs = procs;
      rq = record (s.rq) {
        lab6_run_pool = skew_heap_merge (proc_stride_comp_f procs) l r;
        proc_num = s.rq.proc_num - 1;
      };
    }

pub pick_lem :
    (s : Sched) (l : Heap) (p : ℕ) (r : Heap)
    → s.rq.lab6_run_pool ≡ node l p r
    → p ≢ 0
    → (stride_pick_next s).0 ≡ p
unfolding stride_pick_next
pick_lem s l p r e nz = ground (arith, ap root e)

module _ (key : ℕ → ℕ) (lo : ℕ) (s : Sched) (l : Heap) (p : ℕ) (r : Heap)
    (e : s.rq.lab6_run_pool ≡ node l p r) (inv : InOrder key lo s) (nz : p ≢ 0) where
  members : Every (λ q. (s.procs q).on_rq ≡ true) (node l p r)
  members = subst (Every _) e inv.members

  near : Every (Near key lo) (node l p r)
  near = subst (Every _) e inv.near

  once : (q : ℕ) → count q (node l p r) ≤ 1
  once = subst (λ a. (q : ℕ) → count q a ≤ 1) e inv.once

  ordered : IsHeap key (node l p r)
  ordered = subst (IsHeap key) e inv.ordered

  picked : root s.rq.lab6_run_pool ≡ p
  picked = ap root e

  counted : s.rq.proc_num ≡ size (node l p r)
  counted = inv.counted ∙ ap size e

  -- The process that the class has picked can be taken out, and the rest is merged.
  pub dequeue_lem : stride_dequeue (stride_pick_next s).1 p ≡ done (turned s p l r)
  unfolding stride_dequeue stride_pick_next skew_heap_remove
  dequeue_lem = ground (arith, e, picked, members.0, counted)

  -- The pool after the turn, over the strides after it.
  pub turned-InOrder : InOrder (charge key p (s.procs p).lab6_priority) (key p) (turned s p l r)
  turned-InOrder = record {
    keyed = keyed';
    ordered =
        merge-IsHeap (Near key' (key p)) key' _ agree l r near_l near_r
          (IsHeap-same key key' l (same l gone_l) ordered.2)
          (IsHeap-same key key' r (same r gone_r) ordered.3);
    near = merge-Every comp' (Near key' (key p)) l r near_l near_r;
    once = λ q. ground (arith, count-merge comp' q l r, once q);
    members =
        merge-Every comp' _ l r (Every-map _ _ l (λ q m. ground arith) members.1)
          (Every-map _ _ r (λ q m. ground arith) members.2);
    counted = omega (arith, size-merge comp' l r, counted);
  }
    where
      key' : ℕ → ℕ
      key' = charge key p (s.procs p).lab6_priority

      comp' : ℕ → ℕ → ℤ
      comp' = proc_stride_comp_f (turned s p l r).procs

      gone_l : count p l ≡ 0
      gone_l = ground (arith, once p)

      gone_r : count p r ≡ 0
      gone_r = ground (arith, once p)

      keyed' : Keyed key' (turned s p l r).procs
      keyed' q = ground (arith, inv.keyed q, inv.keyed p, pass-le (s.procs p).lab6_priority)

      agree : Agrees (Near key' (key p)) key' comp'
      agree = comp-Agrees key' (turned s p l r).procs keyed' (key p)

      same : (a : Heap) → count p a ≡ 0 → Every (λ x. key' x ≡ key x) a
      same a h = Every-map _ _ a (λ x ne. ground arith) (Every-ne p a h)

      nears :
          (a : Heap)
          → count p a ≡ 0
          → Every (λ y. key p ≤ key y) a
          → Every (Near key lo) a
          → Every (Near key' (key p)) a
      nears a h above close =
          Every-map _ _ a
            (λ y (ne, (up, in_reach)).
              let same_key : key' y ≡ key y = ground arith in (omega arith, omega (arith, near.0)))
            (Every-zip _ _ a (Every-ne p a h) (Every-zip _ _ a above close))

      near_l : Every (Near key' (key p)) l
      near_l = nears l gone_l ordered.0 near.1

      near_r : Every (Near key' (key p)) r
      near_r = nears r gone_r ordered.1 near.2

  -- The chosen process has the least stride of all that are queued.
  pub picked_least : Every (λ q. key p ≤ key q) (node l p r)
  picked_least = (omega arith, ordered.0, ordered.1)

  pub picked_near : (lo ≤ key p) × (key p ≤ lo + 2 ^ 30)
  picked_near = near.0

  -- It is not queued any more, and no other process has left.
  pub count-turned :
      (q : ℕ)
      → count q (turned s p l r).rq.lab6_run_pool
        ≡ (if q == p then 0 else count q s.rq.lab6_run_pool)
  count-turned q =
      ground (
        arith,
        count-merge (proc_stride_comp_f (turned s p l r).procs) q l r,
        once q,
        ap (count q) e,
      )
