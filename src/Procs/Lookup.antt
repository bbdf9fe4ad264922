-- ===== src/Procs/Lookup.antt =====
-- kern/process/proc.c: the table of pids, and `do_kill`.
use ucoreonrv.Prelude.{
  ℕ, ◌<◌, ◌≡◌, ◌≢◌, refl, Bool, true, false, not, ◌&&◌, List, [], ◌∷◌, arith, ◌==◌, if◌then◌else◌,
}
use ucoreonrv.Prelude.Int.{ℤ, pos}
use ucoreonrv.Prelude.Errors.{Ends, err, e_inval, e_killed}
use ucoreonrv.Sched.{is_zombie, runnable}
use ucoreonrv.Sched.Core.{wakeup_proc, sched_class_enqueue}
use ucoreonrv.Sched.Stride.{stride_enqueue}
use ucoreonrv.Sched.Timers.{interruptible}
use ucoreonrv.Procs.Pids.{max_pid}
use ucoreonrv.Procs.Kernel.{
  Kin, Kernel, find_in_list, find_proc, hash_proc, unhash_proc, pid_hashfn,
}
use ucoreonrv.Procs.Life.{kill_proc, do_kill}

-- A process with a pid from 1 on below MAX_PID, put in the table, is found by it, and the table answers for all other pids as it
-- did; taken out again, it is as if it had not been there.
pub find_proc-hash_proc :
    (k : Kernel) (p q : ℕ)
    → 0 < (k.kin p).pid
    → (k.kin p).pid < max_pid
    → (find_proc (hash_proc k p) q ≡ (if q == (k.kin p).pid then p else find_proc k q))
      × (find_proc (unhash_proc (hash_proc k p) p) q ≡ find_proc k q)
unfolding find_proc hash_proc unhash_proc
find_proc-hash_proc k p q l h = (ground arith, ground arith)

found-pid :
    (kin : ℕ → Kin) (pid : ℕ) (ps : List ℕ)
    → find_in_list kin pid ps ≢ 0
    → (kin (find_in_list kin pid ps)).pid ≡ pid
unfolding find_in_list
found-pid kin pid [] h = absurd (h refl)
found-pid kin pid (p ∷ ps) h = ground (arith, found-pid kin pid ps)

pub find_proc-pid :
    (k : Kernel) (pid : ℕ) → find_proc k pid ≢ 0 → (k.kin (find_proc k pid)).pid ≡ pid
unfolding find_proc
find_proc-pid k pid h = ground (arith, found-pid k.kin pid (k.hash_list (pid_hashfn pid)))

-- `p` is not being killed yet, and its sleep can be interrupted.
abbrev kill_wakes : Kernel → ℕ → Bool
kill_wakes k p =
    not (p == 0) && (not (k.kin p).exiting && interruptible (k.sched.procs p).wait_state)

-- What `do_kill` does to the process `p` that it finds.
abbrev pub Killed : Kernel → ℕ → ℤ × Kernel → Type 0
Killed k p (ret, k') =
    (ret ≡ (if p == 0 then err e_inval else if (k.kin p).exiting then err e_killed else pos 0))
    × ((k'.kin p).exiting ≡ (if p == 0 then (k.kin p).exiting else true))
    × ((z : ℕ) → z ≢ p → k'.kin z ≡ k.kin z)
    × ((z : ℕ)
        → (k'.sched.procs z).state
          ≡ (if kill_wakes k p && z == p then runnable else (k.sched.procs z).state))
    × (k'.sched.current ≡ k.sched.current)

kill_proc-Killed :
    (k : Kernel) (p : ℕ)
    → is_zombie (k.sched.procs p).state ≡ false
    → Ends (Killed k p) (kill_proc k p)
unfolding kill_proc wakeup_proc sched_class_enqueue stride_enqueue
kill_proc-Killed k p h = ground arith

-- `do_kill` of a pid that is not taken answers -E_INVAL, of a process that is being killed
-- -E_KILLED, and else 0. A process with the pid is marked, and no other. It becomes runnable if it
-- was not marked before and its sleep can be interrupted; else it keeps its state, as all other
-- processes do, and the same process runs. No assertion fails if the process is not dead.
pub do_kill-Killed :
    (k : Kernel) (pid : ℕ)
    → is_zombie (k.sched.procs (find_proc k pid)).state ≡ false
    → Ends (Killed k (find_proc k pid)) (do_kill k pid)
unfolding do_kill
do_kill-Killed k pid h = kill_proc-Killed k (find_proc k pid) h
