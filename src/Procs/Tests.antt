-- ===== src/Procs/Tests.antt =====
-- Runs of kern/process/proc.c: process 20, a child of `initproc` 10, runs; its children are 30, which
-- is dead, and 31.
use ucoreonrv.Prelude.{ℕ, ◌≡◌, inl, refl, true, false, some, [], ◌∷◌, arith, ◌==◌, if◌then◌else◌}
use ucoreonrv.Prelude.Int.{pos}
use ucoreonrv.Prelude.Errors.{Ends}
use ucoreonrv.SkewHeap.{leaf}
use ucoreonrv.Sched.{Proc, sleeping, runnable, zombie}
use ucoreonrv.Procs.Pids.{max_pid, pid_pass, repeat, get_pid}
use ucoreonrv.Procs.Fresh.{IsFresh, get_pid-ends}
use ucoreonrv.Procs.Kernel.{
  Kin, Kernel, hash32, pid_hashfn, find_in_list, find_proc, hash_proc, unhash_proc, remove_links,
}
use ucoreonrv.Procs.Life.{
  wt_child, reaped, do_wait, look, look_from, wait_round, reap, do_exit, do_kill,
}
use ucoreonrv.Procs.Children.{Kids}
use ucoreonrv.Procs.Removal.{remove_links-Kids}
use ucoreonrv.Procs.Exit.{Exited, do_exit-Exited}
use ucoreonrv.Procs.Lookup.{find_proc-hash_proc, Killed, do_kill-Killed}
use ucoreonrv.Procs.Reaping.{Reaped, do_wait-Reaped}
use ucoreonrv.Procs.Birth.{Grants, do_fork}
use ucoreonrv.Procs.Forked.{Forked, do_fork-Forked}

abbrev proc : ℕ → Proc
proc i = record {
  state = if i == 30 then zombie else if i == 20 then runnable else sleeping;
  runs = 0;
  need_resched = false;
  wait_state = if i == 20 then 0 else wt_child;
  on_rq = false;
  time_slice = 5;
  lab6_stride = 0;
  lab6_priority = 1;
}

abbrev person : ℕ → Kin
person i = record {
  pid = if i == 10 then 1 else if i == 20 then 2 else if i == 30 then 3 else 4;
  exiting = false;
  exit_code = if i == 30 then pos 5 else pos 0;
  parent = if i == 10 then 9 else if i == 20 then 10 else 20;
  cptr = if i == 10 then 20 else if i == 20 then 30 else 0;
  yptr = if i == 31 then 30 else 0;
  optr = if i == 30 then 31 else 0;
}

abbrev demo : Kernel
demo = record {
  sched = record {
    procs = proc;
    rq = record { proc_num = 0; max_time_slice = 5; lab6_run_pool = leaf };
    timer_list = [];
    current = 20;
    idleproc = 9;
  };
  kin = person;
  proc_list = 31 ∷ 30 ∷ 20 ∷ 10 ∷ [];
  hash_list = λ i. if i == pid_hashfn 4 then 31 ∷ [] else [];
  nr_process = 5;
  last_pid = 4;
  next_safe = max_pid;
  initproc = 10;
}

get_pid-skips : get_pid (1 ∷ 3 ∷ 2 ∷ []) max_pid max_pid ≡ some (4, max_pid)
unfolding get_pid repeat pid_pass
get_pid-skips = refl

-- The child at 31 alone is left.
do_wait-first :
    Ends
      (λ (r, k). (r ≡ reaped 30 (pos 5)) × ((k.kin 20).cptr ≡ 31) × ((k.kin 31).yptr ≡ 0))
      (do_wait 3 true demo 0)
unfolding do_wait look look_from wait_round reap find_proc find_in_list unhash_proc remove_links
do_wait-first = (refl, refl, refl)

get_pid-ends_example : IsFresh (4 ∷ 2 ∷ []) (get_pid (4 ∷ 2 ∷ []) 4 5)
get_pid-ends_example =
    get_pid-ends (4 ∷ 2 ∷ []) 4 5
      (omega arith, omega arith, omega arith, (inl (omega arith), (inl (omega arith), tt)))
      (omega arith)

demo-Kids : Kids person 20 (30 ∷ 31 ∷ [])
demo-Kids = omega arith

do_exit-Exited_example :
    Ends (Exited demo (pos 7) (30 ∷ 31 ∷ []) (20 ∷ [])) (do_exit 3 demo (pos 7))
do_exit-Exited_example =
    do_exit-Exited 3 demo (pos 7) (30 ∷ 31 ∷ []) (20 ∷ []) (omega arith) (omega arith) (omega arith)
      refl refl demo-Kids (omega arith) (omega arith) (omega arith)

remove_links-Kids_example : Kids (remove_links demo 31).kin 20 (30 ∷ [])
remove_links-Kids_example = remove_links-Kids demo 31 (30 ∷ []) [] demo-Kids

do_wait-Reaped_example : Ends (Reaped demo (30 ∷ 31 ∷ [])) (do_wait 3 true demo 0)
do_wait-Reaped_example = do_wait-Reaped 3 demo (30 ∷ 31 ∷ []) demo-Kids (omega arith) (omega arith)

find_proc-hash_proc_example :
    (find_proc (hash_proc demo 30) 4 ≡ find_proc demo 4)
    × (find_proc (unhash_proc (hash_proc demo 30) 30) 4 ≡ find_proc demo 4)
find_proc-hash_proc_example = find_proc-hash_proc demo 30 4 (omega arith) (omega arith)

do_kill-Killed_example : Ends (Killed demo (find_proc demo 4)) (do_kill demo 4)
unfolding find_proc find_in_list pid_hashfn hash32
do_kill-Killed_example = do_kill-Killed demo 4 refl

abbrev grants : Grants
grants = record { proc = 40; kstack = true; mm = pos 0; files = pos 0 }

do_fork-Forked_example : Ends (Forked grants demo (30 ∷ 31 ∷ []) false) (do_fork grants demo)
do_fork-Forked_example =
    do_fork-Forked grants demo (30 ∷ 31 ∷ []) (omega arith) refl demo-Kids
      (
        omega arith,
        omega arith,
        omega arith,
        (inl (omega arith), (inl (omega arith), (inl (omega arith), (inl (omega arith), tt)))),
      )
      (omega arith)
