-- ===== src/Pipes/Reads.antt =====
-- kern/fs/pipe/pipe.c: `pipe_read` against a queue of bytes.
use ucoreonrv.Prelude.{
  ℕ, zero, suc, ◌+◌, ◌%◌, ◌≡◌, ◌≢◌, refl, sym, ap, ◌∙◌, subst, true, List, [], ◌∷◌, arith,
  if◌then◌else◌, length, ltb, take, drop, All,
}
use ucoreonrv.Prelude.Errors.{done, Ends, Ends-bind, Ends-mono, ◌>>=◌}
use ucoreonrv.Files.State.{Iobuf}
use ucoreonrv.Sched.{null}
use ucoreonrv.Sync.{World}
use ucoreonrv.Sync.WaitQueue.{
  wait_queue_empty, wait_queue_add, wait_init, wait_current_set, wakeup_queue,
}
use ucoreonrv.Sync.Waiters.{Waiter, Apart}
use ucoreonrv.Sync.WakeAll.{AllAwake, wakeup_queue-AllAwake}
use ucoreonrv.Strings.{Memory, store}
use ucoreonrv.Pipes.{pipe_buffer_size, Pipe, State}
use ucoreonrv.Pipes.Calls.{
  wt_ipc, Stop, returned, sleeps, wake_others, take_byte, next_base, read_loop, pipe_read,
}
use ucoreonrv.Pipes.Fifo.{Valid, contents, size, length-ring, contents-take}

-- The process that runs exists, and those in the queue `q` sleep there, each of them once.
abbrev pub Ready : World → (q : ℕ) → Type 0
Ready w q = (w.sched.current ≢ null) × All (Waiter wt_ipc w q) (w.queues q) × Apart w (w.queues q)

pub wake_others-Ready : (w : World) (q : ℕ) → Ready w q → Ends (λ w'. Ready w' q) (wake_others w q)
unfolding wake_others wait_queue_empty
wake_others-Ready w q (c, h, a) = by_queue (w.queues q) refl
  where
    woken : Ends (λ w'. Ready w' q) (wakeup_queue w q wt_ipc true)
    woken =
        Ends-mono (AllAwake w q (w.queues q)) (λ w'. Ready w' q) (wakeup_queue w q wt_ipc true)
          (wakeup_queue-AllAwake wt_ipc w q wt_ipc h a)
          (λ w' (e, _, _, same). (
            λ z. c (sym same ∙ z),
            subst (All (Waiter wt_ipc w' q)) (sym e) tt,
            subst (Apart w') (sym e) tt,
          ))

    by_queue : (l : List ℕ) → w.queues q ≡ l → Ends (λ w'. Ready w' q) (wake_others w q)
    by_queue [] e =
        subst (Ends (λ w'. Ready w' q))
          (sym (let r : wake_others w q ≡ done w = ground (arith, e) in r)) (c, h, a)
    by_queue (x ∷ xs) e =
        subst (Ends (λ w'. Ready w' q))
          (sym (let r : wake_others w q ≡ wakeup_queue w q wt_ipc true = ground (arith, e) in r))
          woken

pub wait_current_set-Ends :
    (w : World) (q x ws : ℕ)
    → w.sched.current ≢ null
    → Ends (λ w'. Unit {0}) (wait_current_set w q x ws)
unfolding wait_current_set wait_queue_add wait_init
wait_current_set-Ends w q x ws h = ground arith

-- The bytes of a list, stored from the address `a` on.
abbrev pub store_all : Memory → (a : ℕ) → List ℕ → Memory
store_all m a [] = m
store_all m a (x ∷ xs) = store_all (store m a x) (a + 1) xs

-- What reading `n` bytes does where the pipe holds `xs` and `ret` bytes have been read.
abbrev pub Took : (n ret : ℕ) → List ℕ → State → Iobuf → Stop × State × Iobuf → Type 0
Took n ret xs s iob (stop, s', iob') =
    (stop ≡ (if ltb (length xs) n then sleeps (ret + length xs) else returned (ret + n)))
    × (s'.memory ≡ store_all s.memory iob.io_base (take n xs))
    × (contents s'.pipe ≡ drop n xs)
    × Valid s'.pipe
    × (iob'.io_base ≡ iob.io_base + length (take n xs))

abbrev Taken : State → Iobuf → State → Type 0
Taken s iob s' =
    (s'.memory ≡ store s.memory iob.io_base (s.pipe.p_buffer s.pipe.p_head))
    × (s'.pipe ≡ record (s.pipe) { p_head = (s.pipe.p_head + 1) % pipe_buffer_size })
    × Ready s'.world s'.pipe.p_write_queue

take_byte-Taken :
    (s : State) (iob : Iobuf)
    → Ready s.world s.pipe.p_write_queue
    → Ends (Taken s iob) (take_byte s iob)
unfolding take_byte
take_byte-Taken s iob r =
    Ends-bind (λ w'. Ready w' s.pipe.p_write_queue) (Taken s iob) _ _
      (wake_others-Ready s.world s.pipe.p_write_queue r) (λ w' r'. (refl, refl, r'))

emptied : (p : Pipe) → Valid p → contents p ≡ [] → p.p_head ≡ p.p_tail
emptied p v e = omega (arith, ap length e, length-ring p.p_buffer p.p_head (size p))

filled : (p : Pipe) (y : ℕ) (ys : List ℕ) → contents p ≡ y ∷ ys → p.p_head ≢ p.p_tail
filled p y ys e z = absurd (omega (arith, ap length e, length-ring p.p_buffer p.p_head (size p)))

read_loop_empty :
    (n x : ℕ) (s : State) (iob : Iobuf) (ret : ℕ)
    → s.pipe.p_head ≡ s.pipe.p_tail
    → read_loop (suc n) x s iob ret ≡ (
        wait_current_set s.world s.pipe.p_read_queue x wt_ipc >>= λ w.
        done (sleeps ret, record s { world = w }, iob))
unfolding read_loop
read_loop_empty n x s iob ret e = ground arith

read_loop_filled :
    (n x : ℕ) (s : State) (iob : Iobuf) (ret : ℕ)
    → s.pipe.p_head ≢ s.pipe.p_tail
    → read_loop (suc n) x s iob ret
      ≡ (take_byte s iob >>= λ s'. read_loop n x s' (next_base iob) (ret + 1))
unfolding read_loop
read_loop_filled n x s iob ret ne = ground arith

-- A byte more at the front.
Took-cons :
    (n ret y : ℕ) (ys : List ℕ) (s s1 : State) (iob : Iobuf) (r : Stop × State × Iobuf)
    → s1.memory ≡ store s.memory iob.io_base y
    → Took n (ret + 1) ys s1 (next_base iob) r
    → Took (suc n) ret (y ∷ ys) s iob r
Took-cons n ret y ys s s1 iob (stop, s', iob') m (hs, hm, hc, hv, hb) = (
  hs ∙ ground arith,
  hm ∙ ap (λ t. store_all t (iob.io_base + 1) (take n ys)) m,
  hc,
  hv,
  omega (arith, hb),
)

read_loop-Took :
    (n : ℕ) (x : ℕ) (s : State) (iob : Iobuf) (ret : ℕ) (xs : List ℕ)
    → Valid s.pipe
    → contents s.pipe ≡ xs
    → Ready s.world s.pipe.p_write_queue
    → Ends (Took n ret xs s iob) (read_loop n x s iob ret)
unfolding read_loop
read_loop-Took zero x s iob ret xs v e r = (ground arith, refl, e, v, omega arith)
read_loop-Took (suc n) x s iob ret [] v e r =
    subst (Ends (Took (suc n) ret [] s iob))
      (sym (read_loop_empty n x s iob ret (emptied s.pipe v e)))
      (Ends-bind (λ w. Unit {0}) (Took (suc n) ret [] s iob) _ _
        (wait_current_set-Ends s.world s.pipe.p_read_queue x wt_ipc r.0)
        (λ w' _. (ground arith, refl, e, v, omega arith)))
read_loop-Took (suc n) x s iob ret (y ∷ ys) v e r =
    let ne = filled s.pipe y ys e in
    let split = sym (contents-take s.pipe v ne) ∙ e in
    let later = record (s.pipe) { p_head = (s.pipe.p_head + 1) % pipe_buffer_size } in
    let here : s.pipe.p_buffer s.pipe.p_head ≡ y = cc in
    let behind : contents later ≡ ys = cc in
    subst (Ends (Took (suc n) ret (y ∷ ys) s iob)) (sym (read_loop_filled n x s iob ret ne)) (
      Ends-bind (Taken s iob) (Took (suc n) ret (y ∷ ys) s iob) _ _ (take_byte-Taken s iob r)
        (λ s1 (m, p, r1).
          Ends-mono (Took n (ret + 1) ys s1 (next_base iob)) _
            (read_loop n x s1 (next_base iob) (ret + 1))
            (read_loop-Took n x s1 (next_base iob) (ret + 1) ys
              (subst Valid (sym p) (omega arith, v.1)) (ap contents p ∙ behind) r1)
            (λ t h. Took-cons n ret y ys s s1 iob t (m ∙ ap (store s.memory iob.io_base) here) h)))

-- With head and tail in range, `pipe_read` refines taking bytes from the front of a queue: with `xs` in the pipe it stores the
-- first bytes of `xs`, in order, and leaves the rest. It returns the number asked for if there are
-- so many, and else sleeps with what there was. No assertion fails if the writers that wait sleep.
pub pipe_read-Took :
    (s : State) (iob : Iobuf) (x : ℕ)
    → Valid s.pipe
    → Ready s.world s.pipe.p_write_queue
    → Ends (Took iob.io_resid 0 (contents s.pipe) s iob) (pipe_read s iob x)
unfolding pipe_read
pipe_read-Took s iob x v r = read_loop-Took iob.io_resid x s iob 0 (contents s.pipe) v refl r
