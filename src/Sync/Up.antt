-- ===== src/Sync/Up.antt =====
-- kern/sync/sem.c: `up`.
use ucoreonrv.Prelude.{
  ℕ, ◌+◌, ◌≡◌, inl, inr, refl, sym, ap, subst, ◌∙◌, true, false, List, [], ◌∷◌, All, arith,
}
use ucoreonrv.Prelude.Errors.{done, Ends, Ends-mono}
use ucoreonrv.Sched.{is_runnable}
use ucoreonrv.Sync.{World}
use ucoreonrv.Sync.WaitQueue.{wakeup_wait, wait_queue_first}
use ucoreonrv.Sync.Sem.{wt_ksem, set_value, up, up_first}
use ucoreonrv.Sync.Waiters.{Waiter, Apart, IsSem, Woken, wakeup_wait-Woken}

-- What `up` does: with nobody waiting the value grows by one. Else the first to wait gets the unit:
-- its process is awake, with the flags that let its `down` return, and the value stays.
abbrev pub Upped : World → ℕ → List ℕ → World → Type 0
Upped w q [] w' = (w'.queues q ≡ []) × (w'.values q ≡ w.values q + 1)
Upped w q (x ∷ xs) w' =
    (w'.queues q ≡ xs)
    × (w'.values q ≡ w.values q)
    × (is_runnable (w'.sched.procs (w.waits x).proc).state ≡ true)
    × ((w'.waits x).linked ≡ false)
    × ((w'.waits x).wakeup_flags ≡ wt_ksem)

up-cases :
    (w : World) (q : ℕ) (l : List ℕ)
    → w.queues q ≡ l
    → IsSem w q
    → Ends (λ w'. IsSem w' q × Upped w q l w') (up w q)
unfolding up up_first wait_queue_first
up-cases w q [] e ok =
    subst (Ends (λ w'. IsSem w' q × Upped w q [] w')) (sym adds)
      (record { waiting = ok.waiting; apart = ok.apart; idle = inr e }, (e, ground arith))
  where
    adds : up w q ≡ done (set_value w q (w.values q + 1))
    adds = ground (arith, e)
up-cases w q (x ∷ xs) e ok = subst (Ends (λ w'. IsSem w' q × Upped w q (x ∷ xs) w')) (sym wakes) (
    Ends-mono (Woken wt_ksem w q x xs wt_ksem) (λ w'. IsSem w' q × Upped w q (x ∷ xs) w')
      (wakeup_wait w q x wt_ksem true) (wakeup_wait-Woken wt_ksem w q x xs wt_ksem e all apart)
      gives)
  where
    all : All (Waiter wt_ksem w q) (x ∷ xs)
    all = subst (All (Waiter wt_ksem w q)) e ok.waiting

    apart : Apart w (x ∷ xs)
    apart = subst (Apart w) e ok.apart

    none_left : w.values q ≡ 0
    none_left = ground (arith, e, ok.idle)

    wakes : up w q ≡ wakeup_wait w q x wt_ksem true
    wakes = ground (arith, e, all.0)

    gives : (w' : World) → Woken wt_ksem w q x xs wt_ksem w' → IsSem w' q × Upped w q (x ∷ xs) w'
    gives w' h = (
      record {
        waiting = subst (All (Waiter wt_ksem w' q)) (sym h.rest) h.waiting;
        apart = subst (Apart w') (sym h.rest) h.apart;
        idle = inl (ap (λ f. f q) h.same_values ∙ none_left);
      },
      (h.rest, ap (λ f. f q) h.same_values, h.awake, h.unlinked, h.flagged),
    )

-- On a semaphore in order `up` fails no assertion and keeps it in order; it adds a unit or gives it to the
-- process that has waited longest.
pub up-Upped :
    (w : World) (q : ℕ) → IsSem w q → Ends (λ w'. IsSem w' q × Upped w q (w.queues q) w') (up w q)
up-Upped w q ok = up-cases w q (w.queues q) refl ok
