-- ===== src/Sync/Waiters.antt =====
-- kern/sync/sem.c: what `up`, `down` and `try_down` do to the processes that wait.
use ucoreonrv.Prelude.{
  ℕ, ◌≡◌, ◌≢◌, ◌⊎◌, refl, sym, ap, subst, ◌∙◌, true, false, List, [], ◌∷◌, All, arith,
}
use ucoreonrv.Prelude.Errors.{done, Ends, Ends-bind, ◌>>=◌}
use ucoreonrv.Sched.{Sched, is_runnable, is_zombie}
use ucoreonrv.Sched.Core.{wakeup_proc, sched_class_enqueue}
use ucoreonrv.Sched.Stride.{stride_enqueue}
use ucoreonrv.Sync.{World, set_wait, set_queue}
use ucoreonrv.Sync.WaitQueue.{without, wait_queue_del, wakeup_wait}
use ucoreonrv.Sync.Sem.{wt_ksem}

-- `x` waits in the queue `q`, and its process sleeps with the wait state `ws`.
abbrev pub Waiter : (ws : ℕ) → World → (queue wait : ℕ) → Type 0
Waiter ws w q x =
    ((w.waits x).linked ≡ true)
    × ((w.waits x).wait_queue ≡ q)
    × (is_zombie (w.sched.procs (w.waits x).proc).state ≡ false)
    × (is_runnable (w.sched.procs (w.waits x).proc).state ≡ false)
    × ((w.sched.procs (w.waits x).proc).wait_state ≡ ws)

-- No process waits twice.
abbrev pub Apart : World → List ℕ → Type 0
Apart w [] = Unit
Apart w (x ∷ xs) = All (λ y. (w.waits y).proc ≢ (w.waits x).proc) xs × Apart w xs

-- All entries of the queue wait, and none does while the semaphore has a unit left.
pub record IsSem (w : World) (q : ℕ) : Type 0 where
  pub waiting : All (Waiter wt_ksem w q) (w.queues q)
  pub apart : Apart w (w.queues q)
  pub idle : (w.values q ≡ 0) ⊎ (w.queues q ≡ [])

pub All-mono :
    {A : Type 0} (P Q R : A → Type 0) (xs : List A)
    → All P xs
    → All Q xs
    → ((x : A) → P x → Q x → R x)
    → All R xs
All-mono P Q R [] h k f = tt
All-mono P Q R (x ∷ xs) (h, hs) (k, ks) f = (f x h k, All-mono P Q R xs hs ks f)

-- What `wakeup_proc` does to the processes.
abbrev pub Wakened : Sched → ℕ → Sched → Type 0
Wakened s p s' =
    (is_runnable (s'.procs p).state ≡ true)
    × (s'.current ≡ s.current)
    × ((i : ℕ)
        → i ≢ p
        → (is_zombie (s'.procs i).state ≡ is_zombie (s.procs i).state)
          × (is_runnable (s'.procs i).state ≡ is_runnable (s.procs i).state)
          × ((s'.procs i).wait_state ≡ (s.procs i).wait_state))

pub wakeup_proc-Wakened :
    (s : Sched) (p : ℕ) → is_zombie (s.procs p).state ≡ false → Ends (Wakened s p) (wakeup_proc s p)
unfolding wakeup_proc sched_class_enqueue stride_enqueue
wakeup_proc-Wakened s p h = ground arith

-- The world with `x` off the queue and its flags set.
abbrev pub released : World → (queue wait flags : ℕ) → World
released w q x flags =
    let w' =
      set_queue (set_wait w x (record (w.waits x) { linked = false })) q (without x (w.queues q)) in
    set_wait w' x (record (w'.waits x) { wakeup_flags = flags })

pub wakeup_wait_del :
    (ws : ℕ) (w : World) (q x flags : ℕ)
    → Waiter ws w q x
    → wakeup_wait w q x flags true ≡ (
        wakeup_proc w.sched (w.waits x).proc >>= λ s.
        done (record (released w q x flags) { sched = s }))
unfolding wakeup_wait wait_queue_del
wakeup_wait_del ws w q x flags h = ground arith

pub Apart-same :
    (w w' : World) (xs : List ℕ)
    → ((y : ℕ) → (w'.waits y).proc ≡ (w.waits y).proc)
    → Apart w xs
    → Apart w' xs
Apart-same w w' [] h a = tt
Apart-same w w' (x ∷ xs) h (a, rest) =
    (All-mono _ _ _ xs a a (λ y ne _ e. ne (sym (h y) ∙ e ∙ h x)), Apart-same w w' xs h rest)

-- The entry `x` at the head of the queue is taken off and its process is awake.
pub record Woken (ws : ℕ) (w : World) (q x : ℕ) (xs : List ℕ) (flags : ℕ) (w' : World)
    : Type 0 where
  pub rest : w'.queues q ≡ xs
  pub waiting : All (Waiter ws w' q) xs
  pub apart : Apart w' xs
  pub flagged : (w'.waits x).wakeup_flags ≡ flags
  pub unlinked : (w'.waits x).linked ≡ false
  pub awake : is_runnable (w'.sched.procs (w.waits x).proc).state ≡ true
  pub same_values : w'.values ≡ w.values
  pub same_current : w'.sched.current ≡ w.sched.current
  pub same_procs : (y : ℕ) → (w'.waits y).proc ≡ (w.waits y).proc
  pub others :
      (i : ℕ)
      → i ≢ (w.waits x).proc
      → is_runnable (w'.sched.procs i).state ≡ is_runnable (w.sched.procs i).state

wake-first :
    (ws : ℕ) (w : World) (q x : ℕ) (xs : List ℕ) (flags : ℕ)
    → w.queues q ≡ x ∷ xs
    → All (Waiter ws w q) (x ∷ xs)
    → Apart w (x ∷ xs)
    → (s : Sched) → Wakened w.sched (w.waits x).proc s
    → Woken ws w q x xs flags (record (released w q x flags) { sched = s })
wake-first ws w q x xs flags e (h, hs) (a, rest) s (run, cur, others) = record {
  rest = ground (arith, ap (without x) e);
  waiting = All-mono (Waiter ws w q) (λ y. (w.waits y).proc ≢ (w.waits x).proc) _ xs hs a kept;
  apart = Apart-same w w' xs procs rest;
  flagged = ground arith;
  unlinked = ground arith;
  awake = run;
  same_values = refl;
  same_current = cur;
  same_procs = procs;
  others = λ i ne. (others i ne).1;
}
  where
    w' : World
    w' = record (released w q x flags) { sched = s }

    procs : (y : ℕ) → (w'.waits y).proc ≡ (w.waits y).proc
    procs y = ground arith

    differs : (y : ℕ) → (w.waits y).proc ≢ (w.waits x).proc → y ≢ x
    differs y ne z = ne (ap (λ i. (w.waits i).proc) z)

    kept : (y : ℕ) → Waiter ws w q y → (w.waits y).proc ≢ (w.waits x).proc → Waiter ws w' q y
    kept y k ne = ground (arith, others (w.waits y).proc ne, differs y ne)

pub wakeup_wait-Woken :
    (ws : ℕ) (w : World) (q x : ℕ) (xs : List ℕ) (flags : ℕ)
    → w.queues q ≡ x ∷ xs
    → All (Waiter ws w q) (x ∷ xs)
    → Apart w (x ∷ xs)
    → Ends (Woken ws w q x xs flags) (wakeup_wait w q x flags true)
wakeup_wait-Woken ws w q x xs flags e (h, hs) a =
    subst (Ends (Woken ws w q x xs flags)) (sym (wakeup_wait_del ws w q x flags h)) (
      Ends-bind (Wakened w.sched (w.waits x).proc) (Woken ws w q x xs flags) _ _
        (wakeup_proc-Wakened w.sched (w.waits x).proc h.2)
        (wake-first ws w q x xs flags e (h, hs) a))
