-- ===== src/Sync/WakeAll.antt =====
-- kern/sync/wait.c and kern/sync/sem.c: `wakeup_queue`, and `down` after `schedule`.
use ucoreonrv.Prelude.{ℕ, ◌≡◌, ◌≢◌, refl, sym, subst, ◌∙◌, true, false, List, [], ◌∷◌, All, arith}
use ucoreonrv.Prelude.Errors.{done, Ends, Ends-bind, Ends-mono}
use ucoreonrv.Sched.{is_runnable}
use ucoreonrv.Sync.{World}
use ucoreonrv.Sync.WaitQueue.{wake_each, wakeup_queue, wait_current_del, wait_in_queue}
use ucoreonrv.Sync.Sem.{wt_ksem, up, down_resume}
use ucoreonrv.Sync.Waiters.{Waiter, Apart, IsSem, Woken, All-mono, wakeup_wait-Woken}
use ucoreonrv.Sync.Up.{Upped, up-Upped}

-- The process of `x` is awake.
abbrev pub IsAwake : World → World → ℕ → Type 0
IsAwake w w' x = is_runnable (w'.sched.procs (w.waits x).proc).state ≡ true

abbrev pub AllAwake : World → (queue : ℕ) → List ℕ → World → Type 0
AllAwake w q xs w' =
    (w'.queues q ≡ [])
    × All (IsAwake w w') xs
    × (w'.values ≡ w.values)
    × (w'.sched.current ≡ w.sched.current)

-- A process that is not in the queue stays awake.
abbrev Stays : World → List ℕ → World → Type 0
Stays w xs w' =
    (i : ℕ)
    → All (λ y. (w.waits y).proc ≢ i) xs
    → is_runnable (w.sched.procs i).state ≡ true
    → is_runnable (w'.sched.procs i).state ≡ true

wake_each-AllAwake :
    (xs : List ℕ) (ws : ℕ) (w : World) (q flags : ℕ)
    → w.queues q ≡ xs
    → All (Waiter ws w q) xs
    → Apart w xs
    → Ends (λ w'. AllAwake w q xs w' × Stays w xs w') (wake_each xs w q flags true)
unfolding wake_each
wake_each-AllAwake [] ws w q flags e h a = ((e, tt, refl, refl), λ i f r. r)
wake_each-AllAwake (x ∷ xs) ws w q flags e h (a, rest) =
    Ends-bind (Woken ws w q x xs flags) (λ w'. AllAwake w q (x ∷ xs) w' × Stays w (x ∷ xs) w') _ _
      (wakeup_wait-Woken ws w q x xs flags e h (a, rest))
      (λ u k.
        Ends-mono _ _ (wake_each xs u q flags true)
          (wake_each-AllAwake xs ws u q flags k.rest k.waiting k.apart) (gather u k))
  where
    back :
        (u : World)
        → Woken ws w q x xs flags u
        → (i : ℕ) → All (λ y. (w.waits y).proc ≢ i) xs
        → All (λ y. (u.waits y).proc ≢ i) xs
    back u k i f = All-mono _ _ _ xs f f (λ y ne _ z. ne (sym (k.same_procs y) ∙ z))

    gather :
        (u : World)
        → Woken ws w q x xs flags u
        → (w' : World) → AllAwake u q xs w' × Stays u xs w'
        → AllAwake w q (x ∷ xs) w' × Stays w (x ∷ xs) w'
    gather u k w' ((none_left, awake, values, current), stays) = (
      (
        none_left,
        (
          stays (w.waits x).proc (back u k (w.waits x).proc a) k.awake,
          All-mono _ _ _ xs awake awake (λ y r _.
              subst (λ p. is_runnable (w'.sched.procs p).state ≡ true) (k.same_procs y) r),
        ),
        values ∙ k.same_values,
        current ∙ k.same_current,
      ),
      λ i f r. stays i (back u k i f.1) (k.others i (λ z. f.0 (sym z)) ∙ r),
    )

-- `wakeup_queue` with `del` set, on a queue of different processes that sleep, empties
-- the queue and makes every one of them runnable.
pub wakeup_queue-AllAwake :
    (ws : ℕ) (w : World) (q flags : ℕ)
    → All (Waiter ws w q) (w.queues q)
    → Apart w (w.queues q)
    → Ends (AllAwake w q (w.queues q)) (wakeup_queue w q flags true)
unfolding wakeup_queue
wakeup_queue-AllAwake ws w q flags h a =
    Ends-mono _ _ (wake_each (w.queues q) w q flags true)
      (wake_each-AllAwake (w.queues q) ws w q flags refl h a) (λ w' k. k.0)

pub down_resume_lem :
    (w : World) (q x : ℕ)
    → (w.waits x).linked ≡ false
    → (w.waits x).wakeup_flags ≡ wt_ksem
    → down_resume w q x ≡ done w
unfolding down_resume wait_current_del wait_in_queue
down_resume_lem w q x l f = ground arith

-- On a semaphore in order, the process that has waited longest returns from `down`, with no assertion failed and nothing
-- changed, once `up` has woken it.
up-down_resume :
    (w : World) (q x : ℕ) (xs : List ℕ)
    → IsSem w q
    → w.queues q ≡ x ∷ xs
    → Ends (λ w'. (w'.queues q ≡ xs) × (down_resume w' q x ≡ done w')) (up w q)
up-down_resume w q x xs ok e =
    Ends-mono (λ w'. IsSem w' q × Upped w q (x ∷ xs) w') _ (up w q)
      (subst (λ l. Ends (λ w'. IsSem w' q × Upped w q l w') (up w q)) e (up-Upped w q ok))
      (λ w' h. (h.1.0, down_resume_lem w' q x h.1.3 h.1.4))
