-- ===== src/Sync/Sem.antt =====
-- kern/sync/sem.c. A call of `down` that has to wait is two steps, up to the call of `schedule` and
-- from there on: what other processes do comes between them.
use ucoreonrv.Prelude.{
  ℕ, ◌+◌, ◌-◌, Bool, true, false, ◌||◌, Option, none, some, ◌==◌, ltb, if◌then◌else◌,
}
use ucoreonrv.Prelude.Errors.{Run, done, assert, ◌>>=◌, ◌>>◌}
use ucoreonrv.Sync.{World, set_at}
use ucoreonrv.Sync.WaitQueue.{
  wait_queue_init, wait_queue_first, wakeup_wait, wait_current_set, wait_current_del,
}

abbrev pub wt_ksem : ℕ
wt_ksem = 256

abbrev pub set_value : World → ℕ → ℕ → World
set_value w q n = record w { values = set_at w.values q n }

unfoldable pub sem_init : World → (sem value : ℕ) → World
unfolding wait_queue_init
sem_init w q n = wait_queue_init (set_value w q n) q

-- `__up`, for the first waiting process.
unfoldable pub up_first : Option ℕ → World → (sem wait_state : ℕ) → Run World
up_first none w q wait_state = done (set_value w q (w.values q + 1))
up_first (some x) w q wait_state = do
  assert ((w.sched.procs (w.waits x).proc).wait_state == wait_state)
  wakeup_wait w q x wait_state true

unfoldable pub up : World → ℕ → Run World
unfolding up_first wait_queue_first
up w q = up_first (wait_queue_first w q) w q wt_ksem

-- `down` up to the call of `schedule`: true if it returns at once, false if the process now waits.
unfoldable pub down_enter : World → (sem wait : ℕ) → Run (Bool × World)
down_enter w q x =
    if ltb 0 (w.values q)
    then done (true, set_value w q (w.values q - 1))
    else (do w' ← wait_current_set w q x wt_ksem; done (false, w'))

-- `down` from the return of `schedule` on, with the assertion that its flags are 0.
unfoldable pub down_resume : World → (sem wait : ℕ) → Run World
down_resume w q x = do
  w' ← wait_current_del w q x
  assert ((w'.waits x).wakeup_flags == wt_ksem || (w'.waits x).wakeup_flags == 0)
  done w'

unfoldable pub try_down : World → ℕ → Bool × World
try_down w q = if ltb 0 (w.values q) then (true, set_value w q (w.values q - 1)) else (false, w)
