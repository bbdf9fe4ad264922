-- ===== src/Sync/WaitQueue.antt =====
-- kern/sync/wait.c
use ucoreonrv.Prelude.{
  ℕ, ◌^◌, Bool, true, false, not, ◌&&◌, Option, none, some, List, [], ◌∷◌, ◌++◌, ◌==◌,
  if◌then◌else◌,
}
use ucoreonrv.Prelude.Errors.{Run, done, assert, ◌>>=◌, ◌>>◌}
use ucoreonrv.Sched.{null, sleeping, set_proc}
use ucoreonrv.Sched.Core.{wakeup_proc}
use ucoreonrv.Sync.{World, set_wait, set_queue}

-- kern/process/proc.h
abbrev pub wt_interrupted : ℕ
wt_interrupted = 2 ^ 31

abbrev pub is_empty : List ℕ → Bool
is_empty [] = true
is_empty (x ∷ xs) = false

-- `list_del` on the link of `x`.
abbrev pub without : ℕ → List ℕ → List ℕ
without x [] = []
without x (y ∷ ys) = if y == x then ys else y ∷ without x ys

abbrev pub first : List ℕ → Option ℕ
first [] = none
first (x ∷ xs) = some x

abbrev pub last : List ℕ → Option ℕ
last [] = none
last (x ∷ xs) = elim (last xs) [ none ↦ some x | some y ↦ some y ]

-- The entry behind `x`.
abbrev pub after : ℕ → List ℕ → Option ℕ
after x [] = none
after x (y ∷ ys) = if y == x then first ys else after x ys

-- The entry before `x`, where `before` is the one before the list.
abbrev pub ahead : Option ℕ → ℕ → List ℕ → Option ℕ
ahead before x [] = none
ahead before x (y ∷ ys) = if y == x then before else ahead (some y) x ys

unfoldable pub wait_init : World → (wait proc : ℕ) → World
wait_init w x p =
    set_wait w x (record (w.waits x) { proc = p; wakeup_flags = wt_interrupted; linked = false })

unfoldable pub wait_queue_init : World → ℕ → World
wait_queue_init w q = set_queue w q []

unfoldable pub wait_queue_add : World → (queue wait : ℕ) → Run World
wait_queue_add w q x = do
  assert (not (w.waits x).linked && not ((w.waits x).proc == null))
  done (
      set_queue (set_wait w x (record (w.waits x) { wait_queue = q; linked = true })) q
        (w.queues q ++ (x ∷ [])))

-- The assertion of the operations on an entry of a queue.
abbrev pub is_entry : World → (queue wait : ℕ) → Bool
is_entry w q x = (w.waits x).linked && (w.waits x).wait_queue == q

unfoldable pub wait_queue_del : World → (queue wait : ℕ) → Run World
wait_queue_del w q x = do
  assert (is_entry w q x)
  done (set_queue (set_wait w x (record (w.waits x) { linked = false })) q (without x (w.queues q)))

unfoldable pub wait_queue_next : World → (queue wait : ℕ) → Run (Option ℕ)
wait_queue_next w q x = do assert (is_entry w q x); done (after x (w.queues q))

unfoldable pub wait_queue_prev : World → (queue wait : ℕ) → Run (Option ℕ)
wait_queue_prev w q x = do assert (is_entry w q x); done (ahead none x (w.queues q))

unfoldable pub wait_queue_first : World → ℕ → Option ℕ
wait_queue_first w q = first (w.queues q)

unfoldable pub wait_queue_last : World → ℕ → Option ℕ
wait_queue_last w q = last (w.queues q)

unfoldable pub wait_queue_empty : World → ℕ → Bool
wait_queue_empty w q = is_empty (w.queues q)

unfoldable pub wait_in_queue : World → ℕ → Bool
wait_in_queue w x = (w.waits x).linked

unfoldable pub wakeup_wait : World → (queue wait flags : ℕ) → (del : Bool) → Run World
unfolding wait_queue_del
wakeup_wait w q x flags del = do
  w' ← if del then wait_queue_del w q x else done w
  let flagged = set_wait w' x (record (w'.waits x) { wakeup_flags = flags })
  s ← wakeup_proc flagged.sched (flagged.waits x).proc
  done (record flagged { sched = s })

unfoldable pub wake_found : Option ℕ → World → (queue flags : ℕ) → (del : Bool) → Run World
wake_found none w q flags del = done w
wake_found (some x) w q flags del = wakeup_wait w q x flags del

unfoldable pub wakeup_first : World → (queue flags : ℕ) → (del : Bool) → Run World
unfolding wake_found wait_queue_first
wakeup_first w q flags del = wake_found (wait_queue_first w q) w q flags del

-- The loops of `wakeup_queue`, over the entries that are left. With `del` each entry is the first
-- one when its turn comes, and without it the next one: waking a process changes no link of the
-- others.
unfoldable pub wake_each : List ℕ → World → (queue flags : ℕ) → (del : Bool) → Run World
wake_each [] w q flags del = done w
wake_each (x ∷ xs) w q flags del = do w' ← wakeup_wait w q x flags del; wake_each xs w' q flags del

unfoldable pub wakeup_queue : World → (queue flags : ℕ) → (del : Bool) → Run World
unfolding wake_each
wakeup_queue w q flags del = wake_each (w.queues q) w q flags del

unfoldable pub wait_current_set : World → (queue wait wait_state : ℕ) → Run World
unfolding wait_init
wait_current_set w q x wait_state = do
  assert (not (w.sched.current == null))
  let begun = wait_init w x w.sched.current
  let s = begun.sched
  let asleep = record (s.procs s.current) { state = sleeping; wait_state = wait_state }
  wait_queue_add (record begun { sched = set_proc s s.current asleep }) q x

unfoldable pub wait_current_del : World → (queue wait : ℕ) → Run World
unfolding wait_in_queue
wait_current_del w q x = if wait_in_queue w x then wait_queue_del w q x else done w
