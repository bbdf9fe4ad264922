-- ===== src/Sched/Deadlines.antt =====
-- kern/schedule/sched.c: what adding and deleting a timer do to the time that is left of each one.
use ucoreonrv.Prelude.{
  ℕ, ◌+◌, ◌%◌, ◌^◌, ◌≤◌, ◌<◌, ◌≡◌, ◌⊎◌, refl, true, false, Option, none, some, List, [], ◌∷◌, arith,
  ◌==◌, if◌then◌else◌,
}
use ucoreonrv.Prelude.Errors.{fault}
use ucoreonrv.Sched.{Timer, Sched}
use ucoreonrv.Sched.Timers.{is_linked, add_timer, hand_on, unlink, del_timer}

abbrev pub delay : ℕ → Option ℕ → Option ℕ
delay d none = none
delay d (some n) = some (d + n)

-- The ticks until timer `i` runs out, if it is linked.
abbrev pub deadline : ℕ → List Timer → Option ℕ
deadline i [] = none
deadline i (t ∷ ts) = if t.id == i then some t.expires else delay t.expires (deadline i ts)

-- The ticks until the last timer runs out.
abbrev pub total : List Timer → ℕ
total [] = 0
total (t ∷ ts) = t.expires + total ts

abbrev pub NoneDue : List Timer → Type 0
NoneDue [] = Unit
NoneDue (t ∷ ts) = 0 < t.expires

abbrev pub Distinct : List Timer → Type 0
Distinct [] = Unit
Distinct (t ∷ ts) = (is_linked t.id ts ≡ false) × Distinct ts

-- The timer list is in order: no timer is linked twice, the first has ticks left, and all sums of
-- ticks fit an `unsigned int`.
pub record IsTimerList (ts : List Timer) : Type 0 where
  pub distinct : Distinct ts
  pub none_due : NoneDue ts
  pub fits : total ts < 2 ^ 32

-- A timer that is linked already is refused by an assertion, and so is one with no ticks.
pub add_timer-fault :
    (s : Sched) (t : Timer)
    → (is_linked t.id s.timer_list ≡ true) ⊎ (t.expires ≡ 0)
    → add_timer s t ≡ fault
unfolding add_timer
add_timer-fault s t h = ground arith

pub deadline-absent : (j : ℕ) (ts : List Timer) → is_linked j ts ≡ false → deadline j ts ≡ none
unfolding is_linked
deadline-absent j [] h = refl
deadline-absent j (t ∷ ts) h = ground (arith, deadline-absent j ts)

deadline-hand_on :
    (j d : ℕ) (ts : List Timer)
    → d + total ts < 2 ^ 32
    → deadline j (hand_on d ts) ≡ delay d (deadline j ts)
unfolding hand_on
deadline-hand_on j d [] h = refl
deadline-hand_on j d (t ∷ ts) h = ground (arith, fits)
  where
    fits : (t.expires + d) % 2 ^ 32 ≡ t.expires + d
    fits = omega arith

is_linked-hand_on : (j d : ℕ) (ts : List Timer) → is_linked j (hand_on d ts) ≡ is_linked j ts
unfolding is_linked hand_on
is_linked-hand_on j d [] = refl
is_linked-hand_on j d (t ∷ ts) = ground arith

is_linked-unlink :
    (j i : ℕ) (ts : List Timer)
    → Distinct ts
    → is_linked j (unlink i ts) ≡ (if i == j then false else is_linked j ts)
unfolding is_linked unlink
is_linked-unlink j i [] d = ground arith
is_linked-unlink j i (t ∷ ts) d =
    ground (arith, is_linked-hand_on j t.expires ts, is_linked-unlink j i ts)

pub deadline-unlink :
    (j i : ℕ) (ts : List Timer)
    → Distinct ts
    → total ts < 2 ^ 32
    → deadline j (unlink i ts) ≡ (if i == j then none else deadline j ts)
unfolding is_linked unlink
deadline-unlink j i [] d h = ground arith
deadline-unlink j i (t ∷ ts) d h =
    ground (arith, deadline-hand_on j t.expires ts, deadline-unlink j i ts, deadline-absent t.id ts)

hand_on-IsTimerList : (d : ℕ) (ts : List Timer) → Distinct ts → Distinct (hand_on d ts)
unfolding is_linked hand_on
hand_on-IsTimerList d [] h = h
hand_on-IsTimerList d (t ∷ ts) h = ground arith

unlink-Distinct : (i : ℕ) (ts : List Timer) → Distinct ts → Distinct (unlink i ts)
unfolding unlink is_linked
unlink-Distinct i [] h = h
unlink-Distinct i (t ∷ ts) h =
    ground
      (arith, hand_on-IsTimerList t.expires ts, unlink-Distinct i ts, is_linked-unlink t.id i ts)

total-hand_on : (d : ℕ) (ts : List Timer) → total (hand_on d ts) ≤ d + total ts
unfolding hand_on
total-hand_on d [] = omega arith
total-hand_on d (t ∷ ts) = ground arith

total-unlink : (i : ℕ) (ts : List Timer) → total (unlink i ts) ≤ total ts
unfolding unlink
total-unlink i [] = omega arith
total-unlink i (t ∷ ts) = ground (arith, total-hand_on t.expires ts, total-unlink i ts)

hand_on-NoneDue : (d : ℕ) (ts : List Timer) → 0 < d → d + total ts < 2 ^ 32 → NoneDue (hand_on d ts)
unfolding hand_on
hand_on-NoneDue d [] h k = tt
hand_on-NoneDue d (t ∷ ts) h k = ground arith

unlink-NoneDue : (i : ℕ) (ts : List Timer) → NoneDue ts → total ts < 2 ^ 32 → NoneDue (unlink i ts)
unfolding unlink
unlink-NoneDue i [] h k = tt
unlink-NoneDue i (t ∷ ts) h k = ground (arith, hand_on-NoneDue t.expires ts)

-- `del_timer` takes the timer off the list, leaves the time of every other one as it was, and keeps
-- the list in order. A timer that is not linked is left alone.
pub del_timer-deadline :
    (s : Sched) (i : ℕ)
    → IsTimerList s.timer_list
    → ((j : ℕ)
        → deadline j (del_timer s i).timer_list
          ≡ (if i == j then none else deadline j s.timer_list))
      × IsTimerList (del_timer s i).timer_list
unfolding del_timer
del_timer-deadline s i ok = (
  λ j. ground (arith, deadline-unlink j i s.timer_list ok.distinct, deadline-absent i s.timer_list),
  ground (
    arith,
    unlink-Distinct i s.timer_list,
    unlink-NoneDue i s.timer_list,
    total-unlink i s.timer_list,
  ),
)
