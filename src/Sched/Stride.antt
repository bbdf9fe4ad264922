-- ===== src/Sched/Stride.antt =====
-- kern/schedule/default_sched_stride.c: the stride scheduling class.
use ucoreonrv.Prelude.{ℕ, ◌+◌, ◌-◌, ◌/◌, ◌%◌, ◌^◌, true, ◌&&◌, ◌||◌, ◌==◌, if◌then◌else◌, ltb}
use ucoreonrv.Prelude.Int.{ℤ, pos, negsuc, ltb_ℤ, eqb_ℤ}
use ucoreonrv.Prelude.Errors.{Run, done, assert, ◌>>◌}
use ucoreonrv.SkewHeap.{Heap, leaf, node, skew_heap_insert, skew_heap_remove}
use ucoreonrv.Sched.{Proc, RunQueue, Sched, null, set_proc, signed32, sub32}

abbrev pub big_stride : ℕ
big_stride = 2 ^ 30

unfoldable pub proc_stride_comp_f : (ℕ → Proc) → ℕ → ℕ → ℤ
proc_stride_comp_f procs p q =
    let c = signed32 (sub32 (procs p).lab6_stride (procs q).lab6_stride) in
    if ltb_ℤ (pos 0) c then pos 1 else if eqb_ℤ c (pos 0) then pos 0 else negsuc 0

unfoldable pub stride_init : RunQueue → RunQueue
stride_init rq = record rq { lab6_run_pool = leaf; proc_num = 0 }

-- The slice that a process enters the queue with.
abbrev pub fresh_slice : ℕ → ℕ → ℕ
fresh_slice max slice = if slice == 0 || ltb max slice then max else slice

unfoldable pub stride_enqueue : Sched → ℕ → Sched
stride_enqueue s p =
    let d = s.procs p in
    let q = s.rq in
    record (set_proc s p
      (record d { time_slice = fresh_slice q.max_time_slice d.time_slice; on_rq = true })) {
        rq = record q {
          lab6_run_pool = skew_heap_insert (proc_stride_comp_f s.procs) q.lab6_run_pool p;
          proc_num = (q.proc_num + 1) % 2 ^ 32;
        };
      }

-- `proc->rq` stays as it is.
unfoldable pub stride_dequeue : Sched → ℕ → Run Sched
stride_dequeue s p = do
  assert ((s.procs p).on_rq && ltb 0 s.rq.proc_num)
  let q = s.rq
  done (record s {
    rq = record q {
      lab6_run_pool = skew_heap_remove (proc_stride_comp_f s.procs) q.lab6_run_pool p;
      proc_num = q.proc_num - 1;
    };
  })

-- What one turn adds to a stride.
abbrev pub pass : ℕ → ℕ
pass priority = if priority == 0 then big_stride else big_stride / priority

abbrev pub root : Heap → ℕ
root leaf = null
root (node l x r) = x

-- The chosen process, NULL if there is none, and the state with its stride raised. The process
-- stays in the pool.
unfoldable pub stride_pick_next : Sched → ℕ × Sched
stride_pick_next s =
    let p = root s.rq.lab6_run_pool in
    let d = s.procs p in
    if p == null then (null, s) else (
      p,
      set_proc s p (record d { lab6_stride = (d.lab6_stride + pass d.lab6_priority) % 2 ^ 32 }),
    )

unfoldable pub stride_proc_tick : Sched → ℕ → Sched
stride_proc_tick s p =
    let d = s.procs p in
    let left = d.time_slice - 1 in
    set_proc s p
      (record d { time_slice = left; need_resched = if left == 0 then true else d.need_resched })
