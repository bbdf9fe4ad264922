-- ===== src/Procs/Birth.antt =====
-- kern/process/proc.c: `do_fork`, and the operations that a process applies to itself. The memory,
-- the stack and the files of a process are not part of the state: what allocating and copying them
-- answers is a parameter.
use ucoreonrv.Prelude.{
  ℕ, ◌-◌, ◌^◌, Bool, true, false, not, none, some, leb, map, ◌==◌, if◌then◌else◌,
}
use ucoreonrv.Prelude.Int.{ℤ, pos, eqb_ℤ}
use ucoreonrv.Prelude.Errors.{Run, fault, done, assert, ◌>>=◌, ◌>>◌, err, e_no_mem, e_no_free_proc}
use ucoreonrv.Sched.{Proc, null, sleeping, uninit, set_proc}
use ucoreonrv.Sched.Timers.{add_timer, del_timer}
use ucoreonrv.Procs.Pids.{max_process, get_pid}
use ucoreonrv.Procs.Kernel.{Kin, Kernel, set_kin, hash_proc, set_links}
use ucoreonrv.Procs.Life.{wake, wt_timer}

-- -1 as an `int`.
abbrev pub no_pid : ℕ
no_pid = 2 ^ 32 - 1

-- What the calls before the commitment return: the address from `kmalloc`, whether `setup_kstack`
-- has found pages, and what `copy_mm` and `copy_files` return.
pub record Grants : Type 0 where
  pub proc : ℕ
  pub kstack : Bool
  pub mm : ℤ
  pub files : ℤ

-- What `do_fork` has got for the child and not given back.
pub record Held : Type 0 where
  pub proc : Bool
  pub kstack : Bool
  pub mm : Bool
  pub files : Bool

abbrev pub holds_nothing : Held
holds_nothing = record { proc = false; kstack = false; mm = false; files = false }

-- `alloc_proc` where `kmalloc` returns `p`, and the assignment of the parent after it.
unfoldable pub alloc_proc : Kernel → (p : ℕ) → Kernel
alloc_proc k p =
    let blank : Proc = record {
      state = uninit;
      runs = 0;
      need_resched = false;
      wait_state = 0;
      on_rq = false;
      time_slice = 0;
      lab6_stride = 0;
      lab6_priority = 0;
    } in
    let kin : Kin = record {
      pid = no_pid;
      exiting = false;
      exit_code = (k.kin p).exit_code;
      parent = k.sched.current;
      cptr = null;
      yptr = null;
      optr = null;
    } in
    record (set_kin k p kin) { sched = set_proc k.sched p blank }

-- From `get_pid` on.
unfoldable pub commit_child : Kernel → (p : ℕ) → (pid next_safe : ℕ) → Run (ℤ × Kernel)
commit_child k p pid next_safe =
    let k1 = record (set_kin k p (record (k.kin p) { pid = pid })) {
      last_pid = pid;
      next_safe = next_safe;
    } in
    (do k2 ← wake (set_links (hash_proc k1 p) p) p; done (pos pid, k2))

unfoldable pub fork_child : Kernel → (p : ℕ) → Run (ℤ × Kernel)
unfolding commit_child
fork_child k p = elim (get_pid (map (λ q. (k.kin q).pid) k.proc_list) k.last_pid k.next_safe) [
  | none ↦ fault
  | some (pid, next) ↦ commit_child k p pid next
]

unfoldable pub do_fork : Grants → Kernel → Run (ℤ × Held × Kernel)
unfolding alloc_proc fork_child
do_fork g k =
    let k1 = alloc_proc k g.proc in
    if leb max_process k.nr_process
    then done (err e_no_free_proc, holds_nothing, k)
    else if g.proc == null
    then done (err e_no_mem, holds_nothing, k)
    else (do
      assert ((k1.sched.procs k1.sched.current).wait_state == 0)
      if not g.kstack
          then done (err e_no_mem, holds_nothing, k1)
          else if not (eqb_ℤ g.mm (pos 0))
          then done (err e_no_mem, holds_nothing, k1)
          else if not (eqb_ℤ g.files (pos 0))
          then done (err e_no_mem, record holds_nothing { mm = true }, k1)
          else (do
            (ret, k2) ← fork_child k1 g.proc
            done (ret, record { proc = true; kstack = true; mm = true; files = true }, k2)))

unfoldable pub do_yield : Kernel → Kernel
do_yield k =
    let c = k.sched.current in
    record k { sched = set_proc k.sched c (record (k.sched.procs c) { need_resched = true }) }

unfoldable pub lab6_set_priority : Kernel → (priority : ℕ) → Kernel
lab6_set_priority k priority =
    let c = k.sched.current in
    let raised = if priority == 0 then 1 else priority in
    record k { sched = set_proc k.sched c (record (k.sched.procs c) { lab6_priority = raised }) }

-- `do_sleep` up to the call of `schedule`; `timer` is the address of the local timer.
unfoldable pub do_sleep : Kernel → (timer time : ℕ) → Run Kernel
do_sleep k timer time =
    let c = k.sched.current in
    let asleep =
      set_proc k.sched c (record (k.sched.procs c) { state = sleeping; wait_state = wt_timer }) in
    if time == 0 then done k else (do
      s ← add_timer asleep (record { id = timer; expires = time; proc = c })
      done (record k { sched = s }))

-- `do_sleep` once the process runs again.
unfoldable pub end_sleep : Kernel → (timer : ℕ) → Kernel
end_sleep k timer = record k { sched = del_timer k.sched timer }
