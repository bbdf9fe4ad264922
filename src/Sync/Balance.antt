-- ===== src/Sync/Balance.antt =====
-- kern/sync/sem.c: a semaphore over any sequence of steps of any processes.
use ucoreonrv.Prelude.{
  ℕ, ◌+◌, ◌-◌, ◌≡◌, inl, inr, refl, sym, ap, subst, Bool-cases, Bool, true, false, List, [], ◌∷◌,
  All, arith, ltb, not, ◌&&◌, ◌==◌, if◌then◌else◌,
}
use ucoreonrv.Prelude.Errors.{done, Ends}
use ucoreonrv.Sched.{is_runnable}
use ucoreonrv.Sync.{World}
use ucoreonrv.Sync.Sem.{wt_ksem, set_value, up, down_enter, try_down}
use ucoreonrv.Sync.Waiters.{Waiter, Apart, IsSem, All-mono, Apart-same}
use ucoreonrv.Sync.Up.{Upped, up-Upped}
use ucoreonrv.Sync.Down.{CanWait, Entered, down_enter-Entered}

-- A step of the rest of the kernel: it leaves the semaphore and its waits alone, and their
-- processes asleep.
pub record Elsewhere (w w' : World) (q : ℕ) : Type 0 where
  pub same_value : w'.values q ≡ w.values q
  pub same_queue : w'.queues q ≡ w.queues q
  pub same_waits : (x : ℕ) → w'.waits x ≡ w.waits x
  pub asleep : (x : ℕ) → Waiter wt_ksem w q x → Waiter wt_ksem w' q x

-- The process of `x`, which was waiting in `w`, now runs with the flags that let its `down` return.
abbrev is_handed : World → World → ℕ → Bool
is_handed w w' x =
    is_runnable (w'.sched.procs (w.waits x).proc).state
    && (not (w'.waits x).linked && (w'.waits x).wakeup_flags == wt_ksem)

-- How many of those that waited have been handed a unit.
abbrev pub handed : World → World → List ℕ → ℕ
handed w w' [] = 0
handed w w' (x ∷ xs) = (if is_handed w w' x then 1 else 0) + handed w w' xs

-- The runs of a kernel from `w0` on. `ups` counts the calls of `up`, and `downs` the units given
-- out: the calls of `down` and `try_down` that return with one, and the waiting processes that a call
-- of `up` has woken with the flags of the semaphore.
pub data Runs (q : ℕ) (w0 : World) : (ups downs : ℕ) → World → Type 0 where
  start : Runs q w0 0 0 w0
  upped :
      {n m : ℕ} {w w' : World}
      → Runs q w0 n m w
      → up w q ≡ done w'
      → Runs q w0 (n + 1) (m + handed w w' (w.queues q)) w'
  entered :
      {n m : ℕ} {w w' : World} {got : Bool} (x : ℕ)
      → Runs q w0 n m w
      → CanWait w q x
      → down_enter w q x ≡ done (got, w')
      → Runs q w0 n (if got then m + 1 else m) w'
  tried :
      {n m : ℕ} {w : World}
      → Runs q w0 n m w
      → Runs q w0 n (if (try_down w q).0 then m + 1 else m) (try_down w q).1
  elsewhere : {n m : ℕ} {w w' : World} → Runs q w0 n m w → Elsewhere w w' q → Runs q w0 n m w'

Elsewhere-IsSem : (w w' : World) (q : ℕ) → IsSem w q → Elsewhere w w' q → IsSem w' q
Elsewhere-IsSem w w' q ok h = record {
  waiting = subst (All (Waiter wt_ksem w' q)) (sym h.same_queue) (
      All-mono (Waiter wt_ksem w q) (Waiter wt_ksem w q) (Waiter wt_ksem w' q) (w.queues q)
        ok.waiting ok.waiting (λ x k _. h.asleep x k));
  apart =
      subst (Apart w') (sym h.same_queue)
        (Apart-same w w' (w.queues q) (λ x. ap (λ v. v.proc) (h.same_waits x)) ok.apart);
  idle = ground (arith, ok.idle, h.same_value, h.same_queue);
}

try_down-IsSem : (w : World) (q : ℕ) → IsSem w q → IsSem (try_down w q).1 q
unfolding try_down
try_down-IsSem w q ok = elim (Bool-cases (ltb 0 (w.values q))) [
  | inl t ↦
      subst (λ r. IsSem r.1 q) (sym (takes t))
        (record { waiting = ok.waiting; apart = ok.apart; idle = inr (ground (arith, ok.idle)) })
  | inr t ↦ subst (λ r. IsSem r.1 q) (sym (fails t)) ok
]
  where
    takes : ltb 0 (w.values q) ≡ true → try_down w q ≡ (true, set_value w q (w.values q - 1))
    takes t = ground arith

    fails : ltb 0 (w.values q) ≡ false → try_down w q ≡ (false, w)
    fails t = ground arith

-- Nobody who still waits has been handed a unit.
handed_none :
    (w w' : World) (q : ℕ) (xs : List ℕ) → All (Waiter wt_ksem w' q) xs → handed w w' xs ≡ 0
handed_none w w' q [] h = refl
handed_none w w' q (x ∷ xs) (h, hs) = ground (arith, handed_none w w' q xs hs, h.0)

-- The balance of the units over one step.
Upped-balance :
    (w w' : World) (q m : ℕ) (l : List ℕ)
    → IsSem w' q
    → Upped w q l w'
    → w'.values q + (m + handed w w' l) ≡ w.values q + m + 1
Upped-balance w w' q m [] ok h = omega (arith, h.1)
Upped-balance w w' q m (x ∷ xs) ok (rest, same, awake, off, flags) = ground (
  arith,
  same,
  awake,
  off,
  flags,
  handed_none w w' q xs (subst (All (Waiter wt_ksem w' q)) rest ok.waiting),
)

Entered-balance :
    (w w' : World) (q x m : ℕ) (got : Bool)
    → Entered w q x (got, w')
    → w'.values q + (if got then m + 1 else m) ≡ w.values q + m
Entered-balance w w' q x m got h = ground (arith, h.1, h.2)

tried-balance :
    (w : World) (q m : ℕ)
    → (try_down w q).1.values q + (if (try_down w q).0 then m + 1 else m) ≡ w.values q + m
unfolding try_down
tried-balance w q m = ground arith

-- In any run from a semaphore in order, whose callers of `down` run and wait on a fresh `wait_t`,
-- the units are neither lost nor made: what is left of the semaphore and what has been given out is
-- what it began with and what the calls of `up` have added, where a unit that `up` gives counts as
-- given out only if the process that waited for it is awake with its flags set. A process waits only while no unit is left.
pub Runs-balance :
    (q : ℕ) (w0 w : World) (n m : ℕ)
    → IsSem w0 q
    → Runs q w0 n m w
    → IsSem w q × (w.values q + m ≡ w0.values q + n)
Runs-balance q w0 w n m ok start = (ok, refl)
Runs-balance q w0 w n m ok (upped {n = n'} {m = m'} {w = v} r e) =
    let (ok', same) = Runs-balance q w0 v n' m' ok r in
    let (held, gives) =
      subst (Ends (λ w'. IsSem w' q × Upped v q (v.queues q) w')) e (up-Upped v q ok') in
    (held, omega (arith, same, Upped-balance v w q m' (v.queues q) held gives))
Runs-balance q w0 w n m ok (entered {m = m'} {w = v} {got = got} x r can e) =
    let (ok', same) = Runs-balance q w0 v n m' ok r in
    let enters = subst (Ends (Entered v q x)) e (down_enter-Entered v q x ok' can) in
    (enters.0, omega (arith, same, Entered-balance v w q x m' got enters))
Runs-balance q w0 w n m ok (tried {m = m'} {w = v} r) =
    let (ok', same) = Runs-balance q w0 v n m' ok r in
    (try_down-IsSem v q ok', omega (arith, same, tried-balance v q m'))
Runs-balance q w0 w n m ok (elsewhere {w = v} r h) =
    let (ok', same) = Runs-balance q w0 v n m ok r in
    (Elsewhere-IsSem v w q ok' h, omega (arith, same, h.same_value))
