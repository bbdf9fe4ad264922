-- ===== src/Procs/Pids.antt =====
-- kern/process/proc.c: `get_pid`. The list of processes is the list of their pids here.
use ucoreonrv.Prelude.{
  ℕ, zero, suc, ◌+◌, ◌*◌, ◌&&◌, Option, none, some, List, [], ◌∷◌, ltb, leb, ◌==◌, if◌then◌else◌,
}

abbrev pub max_process : ℕ
max_process = 4096

abbrev pub max_pid : ℕ
max_pid = max_process * 2

-- How the loop over the processes ends: by `goto repeat`, or at the end of the list.
pub data Pass : Type 0 where
  again : (last_pid : ℕ) → Pass
  settled : (last_pid next_safe : ℕ) → Pass

unfoldable pub pid_pass : List ℕ → (last_pid next_safe : ℕ) → Pass
pid_pass [] last next = settled last next
pid_pass (p ∷ ps) last next =
    let bumped = pid_pass ps (last + 1) next in
    let kept = pid_pass ps last (if ltb last p && ltb p next then p else next) in
    if p == last
    then (if leb next (last + 1)
        then again (if leb max_pid (last + 1) then 1 else last + 1)
        else bumped)
    else kept

-- The code at the label `repeat`, `none` if the fuel is used up.
unfoldable pub repeat : (fuel : ℕ) → List ℕ → (last_pid : ℕ) → Option (ℕ × ℕ)
unfolding pid_pass
repeat zero ps last = none
repeat (suc fuel) ps last = elim (pid_pass ps last max_pid) [
  | again last' ↦ repeat fuel ps last'
  | settled last' next' ↦ some (last', next')
]

-- The new `last_pid`, which is the result, and the new `next_safe`. No pid is tried twice, so that
-- `max_pid` rounds are enough.
unfoldable pub get_pid : List ℕ → (last_pid next_safe : ℕ) → Option (ℕ × ℕ)
unfolding repeat
get_pid ps last next =
    if leb max_pid (last + 1)
    then repeat max_pid ps 1
    else if leb next (last + 1)
    then repeat max_pid ps (last + 1)
    else some (last + 1, next)
