-- ===== src/Sync/Down.antt =====
-- kern/sync/sem.c: `down`, up to the call of `schedule`.
use ucoreonrv.Prelude.{
  ℕ, ◌-◌, ◌≡◌, ◌≢◌, inl, inr, refl, sym, ap, subst, ◌∙◌, Bool, true, false, Bool-cases, List, [],
  ◌∷◌, ◌++◌, All, arith, ltb, if◌then◌else◌,
}
use ucoreonrv.Prelude.Errors.{done, Ends}
use ucoreonrv.Sched.{sleeping, set_proc, is_runnable}
use ucoreonrv.Sync.{World, set_wait, set_queue}
use ucoreonrv.Sync.WaitQueue.{wt_interrupted, wait_init, wait_queue_add, wait_current_set}
use ucoreonrv.Sync.Sem.{wt_ksem, set_value, down_enter}
use ucoreonrv.Sync.Waiters.{Waiter, Apart, IsSem, All-mono}

-- The caller of `down` runs, and the `wait_t` on its stack is in no queue.
pub record CanWait (w : World) (q x : ℕ) : Type 0 where
  pub real : w.sched.current ≢ 0
  pub runs : is_runnable (w.sched.procs w.sched.current).state ≡ true
  pub fresh : All (λ y. y ≢ x) (w.queues q)

-- What `down` does up to the call of `schedule`.
abbrev pub Entered : World → (sem wait : ℕ) → Bool × World → Type 0
Entered w q x (got, w') =
    IsSem w' q
    × (got ≡ ltb 0 (w.values q))
    × (w'.values q ≡ w.values q - 1)
    × (w'.queues q ≡ (if got then w.queues q else w.queues q ++ (x ∷ [])))
    × (is_runnable (w'.sched.procs w.sched.current).state ≡ got)

All-snoc : (P : ℕ → Type 0) (xs : List ℕ) (x : ℕ) → All P xs → P x → All P (xs ++ (x ∷ []))
All-snoc P [] x h k = (k, tt)
All-snoc P (y ∷ ys) x (h, hs) k = (h, All-snoc P ys x hs k)

Apart-snoc :
    (w : World) (xs : List ℕ) (x : ℕ)
    → Apart w xs
    → All (λ y. (w.waits x).proc ≢ (w.waits y).proc) xs
    → Apart w (xs ++ (x ∷ []))
Apart-snoc w [] x a h = (tt, tt)
Apart-snoc w (y ∷ ys) x (a, rest) (h, hs) =
    (All-snoc (λ z. (w.waits z).proc ≢ (w.waits y).proc) ys x a h, Apart-snoc w ys x rest hs)

Apart-fresh :
    (w w' : World) (x : ℕ) (ys : List ℕ)
    → ((y : ℕ) → y ≢ x → (w'.waits y).proc ≡ (w.waits y).proc)
    → All (λ y. y ≢ x) ys
    → Apart w ys
    → Apart w' ys
Apart-fresh w w' x [] h f a = tt
Apart-fresh w w' x (y ∷ ys) h (f, fs) (a, rest) = (
  All-mono _ _ _ ys a fs (λ z ne new e. ne (sym (h z new) ∙ e ∙ h y f)),
  Apart-fresh w w' x ys h fs rest,
)

-- The process of `x` asleep, and `x` at the end of the queue.
abbrev joined : World → (sem wait : ℕ) → World
joined w q x =
    let c = w.sched.current in
    let begun =
      set_wait w x
        (record (w.waits x) { proc = c; wakeup_flags = wt_interrupted; linked = false }) in
    let slept = record begun {
      sched =
          set_proc w.sched c (record (w.sched.procs c) { state = sleeping; wait_state = wt_ksem });
    } in
    set_queue (set_wait slept x (record (slept.waits x) { wait_queue = q; linked = true })) q
      (w.queues q ++ (x ∷ []))

module _ (w : World) (q x : ℕ) (ok : IsSem w q) (can : CanWait w q x) where
  waits : wait_current_set w q x wt_ksem ≡ done (joined w q x)
  unfolding wait_current_set wait_init wait_queue_add
  waits = ground (arith, can.real)

  apart-current : (y : ℕ) → Waiter wt_ksem w q y → w.sched.current ≢ (w.waits y).proc
  apart-current y h e = absurd (ground (arith, ap (λ p. (w.sched.procs p).state) e, can.runs))

  queue : (joined w q x).queues q ≡ w.queues q ++ (x ∷ [])
  queue = ground arith

  newest : Waiter wt_ksem (joined w q x) q x
  newest = ground arith

  kept : (y : ℕ) → Waiter wt_ksem w q y → y ≢ x → Waiter wt_ksem (joined w q x) q y
  kept y h ne = ground (arith, apart-current y h)

  apart-new :
      (y : ℕ)
      → Waiter wt_ksem w q y
      → y ≢ x
      → ((joined w q x).waits x).proc ≢ ((joined w q x).waits y).proc
  apart-new y h ne = ground (arith, apart-current y h)

  same_procs : (y : ℕ) → y ≢ x → ((joined w q x).waits y).proc ≡ (w.waits y).proc
  same_procs y ne = ground arith

  joined-IsSem : w.values q ≡ 0 → IsSem (joined w q x) q
  joined-IsSem z = record {
    waiting = subst (All (Waiter wt_ksem (joined w q x) q)) (sym queue) (
        All-snoc (Waiter wt_ksem (joined w q x) q) (w.queues q) x
          (All-mono (Waiter wt_ksem w q) (λ y. y ≢ x) (Waiter wt_ksem (joined w q x) q) (w.queues q)
            ok.waiting can.fresh kept)
          newest);
    apart = subst (Apart (joined w q x)) (sym queue) (
        Apart-snoc (joined w q x) (w.queues q) x
          (Apart-fresh w (joined w q x) x (w.queues q) same_procs can.fresh ok.apart)
          (All-mono (Waiter wt_ksem w q) (λ y. y ≢ x) _ (w.queues q) ok.waiting can.fresh
            apart-new));
    idle = inl z;
  }

-- On a semaphore in order, for a running process with a fresh `wait_t`, `down` fails no assertion up
-- to the call of `schedule`, and keeps the semaphore in order. It takes
-- a unit if there is one; else its process sleeps, at the end of the queue.
pub down_enter-Entered :
    (w : World) (q x : ℕ) → IsSem w q → CanWait w q x → Ends (Entered w q x) (down_enter w q x)
unfolding down_enter
down_enter-Entered w q x ok can = elim (Bool-cases (ltb 0 (w.values q))) [
  | inl t ↦ subst (Ends (Entered w q x)) (sym (takes t)) (
    record { waiting = ok.waiting; apart = ok.apart; idle = inr (ground (arith, ok.idle)) },
    sym t,
    ground arith,
    refl,
    can.runs,
  )
  | inr t ↦ subst (Ends (Entered w q x)) (sym (joins t)) (
    joined-IsSem w q x ok can (ground arith),
    sym t,
    ground arith,
    queue w q x ok can,
    ground arith,
  )
]
  where
    takes :
        ltb 0 (w.values q) ≡ true → down_enter w q x ≡ done (true, set_value w q (w.values q - 1))
    takes t = ground arith

    joins : ltb 0 (w.values q) ≡ false → down_enter w q x ≡ done (false, joined w q x)
    joins t = ground (arith, waits w q x ok can)
