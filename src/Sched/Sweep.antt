-- ===== src/Sched/Sweep.antt =====
-- kern/schedule/sched.c: the loop of `run_timer_list` that wakes the owners of expired timers.
use ucoreonrv.Prelude.{
  ◌≡◌, ◌≢◌, refl, sym, ◌∙◌, subst, ℕ_discrete, true, List, [], ◌∷◌, arith, ◌==◌, if◌then◌else◌, All,
}
use ucoreonrv.Prelude.Errors.{◌>>=◌, done, Ends, Ends-bind, Ends-mono}
use ucoreonrv.Sched.{Timer, Sched, is_runnable}
use ucoreonrv.Sched.Core.{wakeup_proc}
use ucoreonrv.Sched.Timers.{is_linked, unlink, hand_on, del_timer, run_expired}
use ucoreonrv.Sched.Wakeup.{CanWake, Wakes, wakeup_lem}

-- The timers that are left when those with no ticks at the front are gone.
abbrev pub drop_due : List Timer → List Timer
drop_due [] = []
drop_due (t ∷ ts) = if t.expires == 0 then drop_due ts else t ∷ ts

abbrev pub DueRun : Sched → List Timer → Type 0
DueRun s [] = Unit
DueRun s (t ∷ ts) = t.expires ≡ 0 → (is_runnable (s.procs t.proc).state ≡ true) × DueRun s ts

pub DueRun-Wakes : (s s' : Sched) (ts : List Timer) → Wakes s s' → DueRun s ts → DueRun s' ts
DueRun-Wakes s s' [] w d = tt
DueRun-Wakes s s' (t ∷ ts) w d =
    λ e. (w.runnable_stays t.proc (d e).0, DueRun-Wakes s s' ts w (d e).1)

pub All-CanWake :
    (s s' : Sched) (ts : List Timer)
    → Wakes s s'
    → All (λ t. CanWake s t.proc) ts
    → All (λ t. CanWake s' t.proc) ts
All-CanWake s s' [] w a = tt
All-CanWake s s' (t ∷ ts) w (a, b) = (w.can_wake t.proc a, All-CanWake s s' ts w b)

pub Wakes-trans : (a b c : Sched) → Wakes a b → Wakes b c → Wakes a c
Wakes-trans a b c v w = record {
  runnable_stays = λ q h. w.runnable_stays q (v.runnable_stays q h);
  can_wake = λ q h. w.can_wake q (v.can_wake q h);
  same_current = w.same_current ∙ v.same_current;
}

Wakes-rest : (s s' : Sched) (ts : List Timer) → Wakes s s' → Wakes s (record s' { timer_list = ts })
Wakes-rest s s' ts w = record {
  runnable_stays = w.runnable_stays;
  can_wake = w.can_wake;
  same_current = w.same_current;
}

-- Deleting the first timer, which has no ticks left, leaves the rest as they are.
del_due :
    (s : Sched) (t : Timer) (ts : List Timer)
    → s.timer_list ≡ t ∷ ts
    → t.expires ≡ 0
    → del_timer s t.id ≡ record s { timer_list = ts }
unfolding del_timer is_linked unlink hand_on
del_due s t [] e z = ground (arith, e)
del_due s t (n ∷ ts) e z = ground (arith, e)

abbrev pub Sweeps : List Timer → Sched → Sched → Type 0
Sweeps ts s s' = Wakes s s' × (s'.timer_list ≡ drop_due ts) × DueRun s' ts

run_expired-more :
    (t : Timer) (ts : List Timer) (s : Sched) → t.expires ≢ 0 → run_expired (t ∷ ts) s ≡ done s
unfolding run_expired
run_expired-more t ts s h = ground arith

run_expired-due :
    (t : Timer) (ts : List Timer) (s : Sched)
    → t.expires ≡ 0
    → CanWake s t.proc
    → run_expired (t ∷ ts) s
      ≡ (wakeup_proc s t.proc >>= λ woken. run_expired ts (del_timer woken t.id))
unfolding run_expired
run_expired-due t ts s h c = ground arith

pub run_expired_lem :
    (ts : List Timer) (s : Sched)
    → s.timer_list ≡ ts
    → All (λ t. CanWake s t.proc) ts
    → Ends (Sweeps ts s) (run_expired ts s)
unfolding run_expired
run_expired_lem [] s e a = (ground arith, e, tt)
run_expired_lem (t ∷ ts) s e (c, a) = elim (ℕ_discrete t.expires 0) [
  | no more ↦ rw (run_expired-more t ts s more) (ground arith, ground arith, λ z. absurd (more z))
  | yes gone ↦ rw (run_expired-due t ts s gone c) (
      Ends-bind _ (Sweeps (t ∷ ts) s) (wakeup_proc s t.proc) _ (wakeup_lem s t.proc c.0)
        λ woken (w, r, l).
          let rest : Sched = record woken { timer_list = ts } in
          let v = Wakes-rest s woken ts w in
          subst (λ u. Ends (Sweeps (t ∷ ts) s) (run_expired ts u))
            (sym (del_due woken t ts (l ∙ e) gone))
            (Ends-mono (Sweeps ts rest) _ _
              (run_expired_lem ts rest refl (All-CanWake s rest ts v a))
              λ s' (w', d, r').
                (Wakes-trans s rest s' v w', ground arith, λ _. (w'.runnable_stays t.proc r, r'))))
]
