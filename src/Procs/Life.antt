-- ===== src/Procs/Life.antt =====
-- kern/process/proc.c: creating, ending, waiting for and killing processes. The memory and the files
-- of a process are not part of the state: what allocating and copying them answers is a parameter.
use ucoreonrv.Prelude.{
  ℕ, zero, suc, ◌+◌, ◌^◌, Bool, true, false, not, ◌&&◌, ◌||◌, ◌==◌, if◌then◌else◌,
}
use ucoreonrv.Prelude.Int.{ℤ, pos}
use ucoreonrv.Prelude.Errors.{
  Run, fault, done, assert, ◌>>=◌, ◌>>◌, err, e_bad_proc, e_inval, e_killed,
}
use ucoreonrv.Sched.{null, sleeping, zombie, is_zombie, set_proc}
use ucoreonrv.Sched.Core.{wakeup_proc}
use ucoreonrv.Sched.Timers.{interruptible}
use ucoreonrv.Sync.{set_at}
use ucoreonrv.Procs.Kernel.{Kernel, set_kin, unhash_proc, find_proc, remove_links}

abbrev pub wt_child : ℕ
wt_child = 2 ^ 31 + 1

abbrev pub wt_timer : ℕ
wt_timer = 2 ^ 31 + 2

abbrev pub wake : Kernel → ℕ → Run Kernel
wake k p = do s ← wakeup_proc k.sched p; done (record k { sched = s })

-- Wakes `p` if it waits for a child.
unfoldable pub wake_parent : Kernel → ℕ → Run Kernel
wake_parent k p = if (k.sched.procs p).wait_state == wt_child then wake k p else done k

-- The body of the loop of `do_exit`: the youngest child of the current process, `p`, goes to
-- `initproc`.
unfoldable pub adopt : Kernel → ℕ → Kernel
adopt k p =
    let c = k.sched.current in
    let i = k.initproc in
    let kin1 = set_at k.kin c (record (k.kin c) { cptr = (k.kin p).optr }) in
    let older = (kin1 i).cptr in
    let kin2 = set_at kin1 p (record (kin1 p) { yptr = null; optr = older; parent = i }) in
    let kin3 =
      if older == null then kin2 else set_at kin2 older (record (kin2 older) { yptr = p }) in
    record k { kin = set_at kin3 i (record (kin3 i) { cptr = p }) }

-- One round: the move, and the call of `wakeup_proc` if the child is a zombie.
unfoldable pub adopt_first : Kernel → ℕ → Run Kernel
adopt_first k p =
    let k' = adopt k p in
    if is_zombie (k'.sched.procs p).state then wake_parent k' k.initproc else done k'

-- The loop; a fault also where the fuel is used up.
unfoldable pub adopt_all : (fuel : ℕ) → Kernel → Run Kernel
unfolding adopt_first
adopt_all zero k = fault
adopt_all (suc fuel) k = elim ((k.kin k.sched.current).cptr == null) [
  | true ↦ done k
  | false ↦ do k' ← adopt_first k (k.kin k.sched.current).cptr; adopt_all fuel k'
]

-- `do_exit` but for the release of memory and files, up to the call of `schedule`.
unfoldable pub do_exit : (fuel : ℕ) → Kernel → (error_code : ℤ) → Run Kernel
unfolding adopt_all wake_parent
do_exit fuel k error_code = do
  let c = k.sched.current
  assert (not (c == k.sched.idleproc))
  assert (not (c == k.initproc))
  let dead = set_kin k c (record (k.kin c) { exit_code = error_code })
  let k1 = record dead { sched = set_proc k.sched c (record (k.sched.procs c) { state = zombie }) }
  k2 ← wake_parent k1 (k1.kin c).parent
  adopt_all fuel k2

-- What one look at the children tells `do_wait`.
pub data Look : Type 0 where
  found : ℕ → Look
  has_kid : Look
  no_kid : Look

-- The loop over the children from `p` on; `seen` is `haskid`. It is cut off, as if the list ended,
-- where the fuel is used up.
unfoldable pub look_from : (fuel : ℕ) → Kernel → (p : ℕ) → (seen : Bool) → Look
look_from zero k p seen = if seen then has_kid else no_kid
look_from (suc fuel) k p seen =
    let rest = look_from fuel k (k.kin p).optr true in
    if p == null
    then (if seen then has_kid else no_kid)
    else if is_zombie (k.sched.procs p).state
    then found p
    else rest

-- From the label `repeat` on, up to the tests of what was found.
unfoldable pub look : (fuel : ℕ) → Kernel → (pid : ℕ) → Look
unfolding look_from
look fuel k pid =
    let p = find_proc k pid in
    let c = k.sched.current in
    if pid == 0
    then look_from fuel k (k.kin c).cptr false
    else if not (p == null) && (k.kin p).parent == c
    then (if is_zombie (k.sched.procs p).state then found p else has_kid)
    else no_kid

-- How one round of `do_wait` ends: with the return value and what `*code_store` receives, or at the
-- call of `schedule`.
pub data Waited : Type 0 where
  reaped : (child : ℕ) → (code : ℤ) → Waited
  failed : ℤ → Waited
  waits : Waited

-- The code at the label `found`. The stack and the descriptor are freed, which the state does not
-- show.
unfoldable pub reap : Kernel → ℕ → Run (Waited × Kernel)
reap k p = do
  assert (not (p == k.sched.idleproc || p == k.initproc))
  let k1 = unhash_proc k p
  done (reaped p (k.kin p).exit_code, remove_links k1 p)

unfoldable pub wait_round : Look → Kernel → Run (Waited × Kernel)
unfolding reap
wait_round (found p) k = reap k p
wait_round no_kid k = done (failed (err e_bad_proc), k)
wait_round has_kid k =
    let c = k.sched.current in
    let asleep = record (k.sched.procs c) { state = sleeping; wait_state = wt_child } in
    done (waits, record k { sched = set_proc k.sched c asleep })

-- `do_wait` up to its first call of `schedule`; `writable` is what the check of `code_store` says.
-- Woken up, a process that is not killed begins again behind that check.
unfoldable pub do_wait : (fuel : ℕ) → (writable : Bool) → Kernel → (pid : ℕ) → Run (Waited × Kernel)
unfolding look wait_round
do_wait fuel writable k pid =
    if writable then wait_round (look fuel k pid) k else done (failed (err e_inval), k)

-- `do_kill` from the test of what `find_proc` returns.
unfoldable pub kill_proc : Kernel → (p : ℕ) → Run (ℤ × Kernel)
kill_proc k p =
    let marked = set_kin k p (record (k.kin p) { exiting = true }) in
    if p == null
    then done (err e_inval, k)
    else if (k.kin p).exiting
    then done (err e_killed, k)
    else if interruptible (k.sched.procs p).wait_state
    then (do k' ← wake marked p; done (pos 0, k'))
    else done (pos 0, marked)

unfoldable pub do_kill : Kernel → (pid : ℕ) → Run (ℤ × Kernel)
unfolding kill_proc
do_kill k pid = kill_proc k (find_proc k pid)
