-- ===== src/Sched/Tick.antt =====
-- kern/schedule/sched.c: `run_timer_list` on a clock tick.
use ucoreonrv.Prelude.{
  ℕ, ◌+◌, ◌-◌, ◌^◌, ◌≤◌, ◌<◌, ◌≡◌, refl, sym, ◌∙◌, inl, inr, Bool-cases, subst, true, false, Option,
  none, some, List, [], ◌∷◌, arith, ◌==◌, leb, if◌then◌else◌, All,
}
use ucoreonrv.Prelude.Errors.{done, Ends, Ends-bind}
use ucoreonrv.Sched.{Timer, Sched, is_runnable, null}
use ucoreonrv.Sched.Stride.{stride_proc_tick}
use ucoreonrv.Sched.Core.{sched_class_proc_tick}
use ucoreonrv.Sched.Timers.{is_linked, run_expired, count_down, run_timer_list}
use ucoreonrv.Sched.Deadlines.{deadline, total, NoneDue, Distinct, IsTimerList, deadline-absent}
use ucoreonrv.Sched.Wakeup.{CanWake, Wakes}
use ucoreonrv.Sched.Sweep.{
  All-CanWake, drop_due, DueRun, Wakes-trans, DueRun-Wakes, Sweeps, run_expired_lem,
}

-- What a tick leaves of the time of a timer: one tick less, and none of a timer that runs out.
abbrev pub ticked : Option ℕ → Option ℕ
ticked none = none
ticked (some n) = if leb n 1 then none else some (n - 1)

-- The process that timer `i` wakes.
abbrev pub owner : ℕ → List Timer → Option ℕ
owner i [] = none
owner i (t ∷ ts) = if t.id == i then some t.proc else owner i ts

abbrev less : List Timer → List Timer
less [] = []
less (t ∷ ts) = record t { expires = t.expires - 1 } ∷ ts

abbrev live : Option ℕ → Option ℕ
live none = none
live (some n) = if n == 0 then none else some n

count_down_lem : (ts : List Timer) → NoneDue ts → count_down ts ≡ done (less ts)
unfolding count_down
count_down_lem [] h = refl
count_down_lem (t ∷ ts) h = ground arith

deadline-drop_due :
    (j : ℕ) (ts : List Timer) → Distinct ts → deadline j (drop_due ts) ≡ live (deadline j ts)
unfolding is_linked
deadline-drop_due j [] d = refl
deadline-drop_due j (t ∷ ts) d =
    ground (arith, deadline-drop_due j ts d.1, deadline-absent t.id ts d.0)

deadline-less :
    (j : ℕ) (ts : List Timer)
    → Distinct ts
    → NoneDue ts
    → live (deadline j (less ts)) ≡ ticked (deadline j ts)
deadline-less j [] d h = refl
deadline-less j (t ∷ ts) d h = ground arith

-- A timer with more than one tick left is not removed.
owner-drop_due :
    (j k : ℕ) (ts : List Timer) → deadline j ts ≡ some (k + 1) → owner j (drop_due ts) ≡ owner j ts
owner-drop_due j k [] h = refl
owner-drop_due j k (t ∷ ts) h = ground (arith, h, owner-drop_due j k ts)

deadline-less_more :
    (j k : ℕ) (ts : List Timer)
    → deadline j ts ≡ some (k + 2)
    → NoneDue ts
    → deadline j (less ts) ≡ some (k + 1)
deadline-less_more j k [] h d = absurd (cc)
deadline-less_more j k (t ∷ ts) h d = ground (arith, h, d)

owner-less_same : (j : ℕ) (ts : List Timer) → owner j (less ts) ≡ owner j ts
owner-less_same j [] = refl
owner-less_same j (t ∷ ts) = ground arith

drop_due-All :
    (s : Sched) (ts : List Timer)
    → All (λ t. CanWake s t.proc) ts
    → All (λ t. CanWake s t.proc) (drop_due ts)
drop_due-All s [] a = tt
drop_due-All s (t ∷ ts) (a, b) = elim (Bool-cases (t.expires == 0)) [
  | inl e ↦ rw e (drop_due-All s ts b)
  | inr e ↦ rw e (a, b)
]

drop_due-is_linked :
    (j : ℕ) (ts : List Timer) → is_linked j ts ≡ false → is_linked j (drop_due ts) ≡ false
unfolding is_linked
drop_due-is_linked j [] h = h
drop_due-is_linked j (t ∷ ts) h = ground (arith, drop_due-is_linked j ts)

drop_due-IsTimerList :
    (ts : List Timer) → Distinct ts → total ts < 2 ^ 32 → IsTimerList (drop_due ts)
drop_due-IsTimerList [] d h = record { distinct = tt; none_due = tt; fits = h }
drop_due-IsTimerList (t ∷ ts) d h = ground (arith, drop_due-IsTimerList ts)

less-Distinct : (ts : List Timer) → Distinct ts → Distinct (less ts)
less-Distinct [] d = d
less-Distinct (t ∷ ts) d = d

less-total : (ts : List Timer) → total (less ts) ≤ total ts
less-total [] = omega arith
less-total (t ∷ ts) = omega arith

less-CanWake :
    (s : Sched) (ts : List Timer)
    → All (λ t. CanWake s t.proc) ts
    → All (λ t. CanWake s t.proc) (less ts)
less-CanWake s [] a = a
less-CanWake s (t ∷ ts) a = a

-- Of a list that has been swept, every timer that had run out has woken its process.
DueRun-owner :
    (s : Sched) (ts : List Timer) (j p : ℕ)
    → DueRun s ts
    → deadline j ts ≡ some 0
    → owner j ts ≡ some p
    → is_runnable (s.procs p).state ≡ true
DueRun-owner s [] j p d h o = absurd (ground arith)
DueRun-owner s (t ∷ ts) j p d h o = ground (arith, DueRun-owner s ts j p)

owner-less :
    (j : ℕ) (ts : List Timer)
    → deadline j ts ≡ some 1
    → NoneDue ts
    → (deadline j (less ts) ≡ some 0) × (owner j (less ts) ≡ owner j ts)
owner-less j [] h n = absurd (ground arith)
owner-less j (t ∷ ts) h n = ground arith

proc_tick-Wakes : (s : Sched) (p : ℕ) → Wakes s (sched_class_proc_tick s p)
unfolding sched_class_proc_tick stride_proc_tick
proc_tick-Wakes s p = ground arith

proc_tick-timer_list : (s : Sched) (p : ℕ) → (sched_class_proc_tick s p).timer_list ≡ s.timer_list
unfolding sched_class_proc_tick stride_proc_tick
proc_tick-timer_list s p = ground arith

-- What a clock tick promises of the timers and of the processes that they wake.
pub record Ticks (s s' : Sched) : Type 0 where
  pub deadlines : (j : ℕ) → deadline j s'.timer_list ≡ ticked (deadline j s.timer_list)
  pub in_order : IsTimerList s'.timer_list
  pub woken :
      (j p : ℕ)
      → deadline j s.timer_list ≡ some 1
      → owner j s.timer_list ≡ some p
      → is_runnable (s'.procs p).state ≡ true
  pub others : Wakes s s'
  pub still : All (λ t. CanWake s' t.proc) s'.timer_list
  pub owners :
      (j k : ℕ)
      → deadline j s.timer_list ≡ some (k + 2)
      → owner j s'.timer_list ≡ owner j s.timer_list

abbrev ticking : Sched → Sched
ticking s = record s { timer_list = less s.timer_list }

module _ (s : Sched) (ok : IsTimerList s.timer_list)
    (can : All (λ t. CanWake s t.proc) s.timer_list) where
  swept :
      Ends (Sweeps (less s.timer_list) (ticking s)) (run_expired (less s.timer_list) (ticking s))
  swept = run_expired_lem (less s.timer_list) (ticking s) refl (less-CanWake s s.timer_list can)

  fewer : IsTimerList (drop_due (less s.timer_list))
  fewer =
      drop_due-IsTimerList (less s.timer_list) (less-Distinct s.timer_list ok.distinct)
        (omega (arith, less-total s.timer_list, ok.fits))

  Sweeps-Ticks : (s' : Sched) → Sweeps (less s.timer_list) (ticking s) s' → Ticks s s'
  Sweeps-Ticks s' (w, l, d) = record {
    deadlines = λ j. rw l (
        deadline-drop_due j (less s.timer_list) (less-Distinct s.timer_list ok.distinct)
        ∙ deadline-less j s.timer_list ok.distinct ok.none_due);
    in_order = subst IsTimerList (sym l) fewer;
    woken = λ j p due own.
        let (due', own') = owner-less j s.timer_list due ok.none_due in
        DueRun-owner s' (less s.timer_list) j p d due' (own' ∙ own);
    others = record {
      runnable_stays = w.runnable_stays;
      can_wake = w.can_wake;
      same_current = w.same_current;
    };
    still = All-CanWake (ticking s) s' s'.timer_list w (
        subst (All (λ t. CanWake s t.proc)) (sym l)
          (drop_due-All s (less s.timer_list) (less-CanWake s s.timer_list can)));
    owners = λ j k due. rw l (
        owner-drop_due j k (less s.timer_list) (deadline-less_more j k s.timer_list due ok.none_due)
        ∙ owner-less_same j s.timer_list);
  }

  then_tick :
      (s' : Sched)
      → Sweeps (less s.timer_list) (ticking s) s'
      → Ticks s (if s'.current == null then s' else sched_class_proc_tick s' s'.current)
  then_tick s' (w, l, d) = elim (Bool-cases (s'.current == null)) [
    | inl idle ↦ rw idle (Sweeps-Ticks s' (w, l, d))
    | inr busy ↦ rw busy (
        let v = proc_tick-Wakes s' s'.current in
        Sweeps-Ticks (sched_class_proc_tick s' s'.current) (
          Wakes-trans (ticking s) s' _ w v,
          proc_tick-timer_list s' s'.current ∙ l,
          DueRun-Wakes s' _ (less s.timer_list) v d,
        ))
  ]

  pub run_timer_list-Ticks : Ends (Ticks s) (run_timer_list s)
  unfolding run_timer_list
  run_timer_list-Ticks =
      rw (count_down_lem s.timer_list ok.none_due) (Ends-bind _ (Ticks s) _ _ swept then_tick)
