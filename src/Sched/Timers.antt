-- ===== src/Sched/Timers.antt =====
-- kern/schedule/sched.c: the timers. Each entry of the list holds the ticks that it waits for after
-- the entry before it.
use ucoreonrv.Prelude.{
  ℕ, ◌+◌, ◌-◌, ◌/◌, ◌%◌, ◌^◌, Bool, true, false, not, ◌&&◌, ◌||◌, List, [], ◌∷◌, ◌==◌,
  if◌then◌else◌, ltb,
}
use ucoreonrv.Prelude.Errors.{Run, done, assert, ◌>>=◌, ◌>>◌}
use ucoreonrv.Sched.{Timer, Sched, null}
use ucoreonrv.Sched.Core.{wakeup_proc, sched_class_proc_tick}

-- `timer->timer_link` is not empty.
unfoldable pub is_linked : ℕ → List Timer → Bool
is_linked i [] = false
is_linked i (t ∷ ts) = t.id == i || is_linked i ts

-- The loop of `add_timer`, and the insertion before the entry where it stops.
unfoldable pub place : Timer → List Timer → List Timer
place t [] = t ∷ []
place t (next ∷ ts) =
    if ltb t.expires next.expires
    then t ∷ record next { expires = next.expires - t.expires } ∷ ts
    else next ∷ place (record t { expires = t.expires - next.expires }) ts

unfoldable pub add_timer : Sched → Timer → Run Sched
add_timer s t = do
  assert (ltb 0 t.expires && not (t.proc == null))
  assert (not (is_linked t.id s.timer_list))
  done (record s { timer_list = place t s.timer_list })

-- The entry behind a deleted one takes over its ticks, an `unsigned int` sum.
unfoldable pub hand_on : ℕ → List Timer → List Timer
hand_on ticks [] = []
hand_on ticks (next ∷ ts) =
    if ticks == 0 then next ∷ ts else record next { expires = (next.expires + ticks) % 2 ^ 32 } ∷ ts

unfoldable pub unlink : ℕ → List Timer → List Timer
unfolding hand_on
unlink i [] = []
unlink i (t ∷ ts) = if t.id == i then hand_on t.expires ts else t ∷ unlink i ts

unfoldable pub del_timer : Sched → ℕ → Sched
unfolding is_linked unlink
del_timer s i =
    if is_linked i s.timer_list then record s { timer_list = unlink i s.timer_list } else s

-- `wait_state & WT_INTERRUPTED`
abbrev pub interruptible : ℕ → Bool
interruptible w = (w / 2 ^ 31) % 2 == 1

-- The `while` loop of `run_timer_list`, over the entries from `timer` on. Deleting an entry with no
-- ticks left changes none of the others.
unfoldable pub run_expired : List Timer → Sched → Run Sched
run_expired [] s = done s
run_expired (t ∷ ts) s = elim (t.expires == 0) [
  | false ↦ done s
  | true ↦ do
    assert ((s.procs t.proc).wait_state == 0 || interruptible (s.procs t.proc).wait_state)
    woken ← wakeup_proc s t.proc
    run_expired ts (del_timer woken t.id)
]

-- The first entry loses a tick.
unfoldable pub count_down : List Timer → Run (List Timer)
count_down [] = done []
count_down (t ∷ ts) = do
  assert (not (t.expires == 0))
  done (record t { expires = t.expires - 1 } ∷ ts)

unfoldable pub run_timer_list : Sched → Run Sched
unfolding count_down run_expired
run_timer_list s = do
  ts ← count_down s.timer_list
  s' ← run_expired ts (record s { timer_list = ts })
  done (if s'.current == null then s' else sched_class_proc_tick s' s'.current)
