-- ===== src/Pipes/Writes.antt =====
-- kern/fs/pipe/pipe.c: `pipe_write` against a queue of bytes.
use ucoreonrv.Prelude.{
  ℕ, zero, suc, ◌+◌, ◌-◌, ◌%◌, ◌<◌, ◌≡◌, ◌≢◌, refl, sym, ap, ◌∙◌, subst, List, [], ◌∷◌, ◌++◌, arith,
  if◌then◌else◌, length, ltb, ℕ_discrete, length-append,
}
use mathlib.Core.List.{append-nil, append_assoc}
use ucoreonrv.Prelude.Errors.{done, Ends, Ends-bind, Ends-mono, ◌>>=◌}
use ucoreonrv.Files.State.{Iobuf}
use ucoreonrv.Sync.{set_at}
use ucoreonrv.Sync.WaitQueue.{wait_current_set}
use ucoreonrv.Strings.{bytes}
use ucoreonrv.Pipes.{pipe_buffer_size, Pipe, State}
use ucoreonrv.Pipes.Calls.{
  wt_ipc, Stop, returned, sleeps, put_byte, next_base, write_loop, pipe_write,
}
use ucoreonrv.Pipes.Fifo.{Valid, contents, size, length-ring, contents-put}
use ucoreonrv.Pipes.Reads.{Ready, wake_others-Ready, wait_current_set-Ends}

-- The bytes that a pipe holds at most.
abbrev pub capacity : ℕ
capacity = pipe_buffer_size - 1

abbrev pub fitting : (held n : ℕ) → ℕ
fitting held n = if ltb (capacity - held) n then capacity - held else n

-- What writing `n` bytes does where the pipe holds `xs` and `ret` bytes have been written.
abbrev pub Gave : (n ret : ℕ) → List ℕ → State → Iobuf → Stop × State × Iobuf → Type 0
Gave n ret xs s iob (stop, s', iob') =
    (stop ≡ (
      if ltb (capacity - length xs) n
      then sleeps (ret + (capacity - length xs))
      else returned (ret + n)))
    × (contents s'.pipe ≡ xs ++ bytes s.memory iob.io_base (fitting (length xs) n))
    × (s'.memory ≡ s.memory)
    × Valid s'.pipe
    × (iob'.io_base ≡ iob.io_base + fitting (length xs) n)

abbrev put_in : Pipe → (byte : ℕ) → Pipe
put_in p v = record p {
  p_buffer = set_at p.p_buffer p.p_tail v;
  p_tail = (p.p_tail + 1) % pipe_buffer_size;
}

abbrev Given : State → Iobuf → State → Type 0
Given s iob s' =
    (s'.memory ≡ s.memory)
    × (s'.pipe ≡ put_in s.pipe (s.memory iob.io_base))
    × Ready s'.world s'.pipe.p_read_queue

put_byte-Given :
    (s : State) (iob : Iobuf)
    → Ready s.world s.pipe.p_read_queue
    → Ends (Given s iob) (put_byte s iob)
unfolding put_byte
put_byte-Given s iob r =
    Ends-bind (λ w'. Ready w' s.pipe.p_read_queue) (Given s iob) _ _
      (wake_others-Ready s.world s.pipe.p_read_queue r) (λ w' r'. (refl, refl, r'))

write_loop_full :
    (n x : ℕ) (s : State) (iob : Iobuf) (ret : ℕ)
    → s.pipe.p_head ≡ (s.pipe.p_tail + 1) % pipe_buffer_size
    → write_loop (suc n) x s iob ret ≡ (
        wait_current_set s.world s.pipe.p_write_queue x wt_ipc >>= λ w.
        done (sleeps ret, record s { world = w }, iob))
unfolding write_loop
write_loop_full n x s iob ret e = ground arith

write_loop_free :
    (n x : ℕ) (s : State) (iob : Iobuf) (ret : ℕ)
    → s.pipe.p_head ≢ (s.pipe.p_tail + 1) % pipe_buffer_size
    → write_loop (suc n) x s iob ret
      ≡ (put_byte s iob >>= λ s'. write_loop n x s' (next_base iob) (ret + 1))
unfolding write_loop
write_loop_free n x s iob ret ne = ground arith

held_full :
    (p : Pipe) (xs : List ℕ)
    → Valid p
    → contents p ≡ xs
    → p.p_head ≡ (p.p_tail + 1) % pipe_buffer_size
    → length xs ≡ capacity
held_full p xs v e h = omega (arith, ap length e, length-ring p.p_buffer p.p_head (size p))

held_free :
    (p : Pipe) (xs : List ℕ)
    → Valid p
    → contents p ≡ xs
    → p.p_head ≢ (p.p_tail + 1) % pipe_buffer_size
    → length xs < capacity
held_free p xs v e h = omega (arith, ap length e, length-ring p.p_buffer p.p_head (size p), h)

-- A byte more, behind `xs`.
Gave-cons :
    (n ret : ℕ) (xs : List ℕ) (s s1 : State) (iob : Iobuf) (r : Stop × State × Iobuf)
    → length xs < capacity
    → s1.memory ≡ s.memory
    → Gave n (ret + 1) (xs ++ (s.memory iob.io_base ∷ [])) s1 (next_base iob) r
    → Gave (suc n) ret xs s iob r
Gave-cons n ret xs s s1 iob (stop, s', iob') l m (hs, hc, hm, hv, hb) = (
  hs ∙ ground (arith, more),
  hc
      ∙ append_assoc xs (s.memory iob.io_base ∷ []) _
      ∙ ap (λ l. xs ++ l)
          (ap (λ f. s.memory iob.io_base ∷ bytes f (iob.io_base + 1) rest) m
            ∙ ap (bytes s.memory iob.io_base) fits),
  hm ∙ m,
  hv,
  hb ∙ ground (arith, more),
)
  where
    more : length (xs ++ (s.memory iob.io_base ∷ [])) ≡ length xs + 1
    more = length-append xs (s.memory iob.io_base ∷ [])

    rest : ℕ
    rest = fitting (length (xs ++ (s.memory iob.io_base ∷ []))) n

    fits : suc rest ≡ fitting (length xs) (suc n)
    fits = ground (arith, more, l)

write_loop-Gave :
    (n : ℕ) (x : ℕ) (s : State) (iob : Iobuf) (ret : ℕ) (xs : List ℕ)
    → Valid s.pipe
    → contents s.pipe ≡ xs
    → Ready s.world s.pipe.p_read_queue
    → Ends (Gave n ret xs s iob) (write_loop n x s iob ret)
unfolding write_loop
write_loop-Gave zero x s iob ret xs v e r = (
  ground arith,
  e
      ∙ sym (append-nil xs)
      ∙ ap (λ k. xs ++ bytes s.memory iob.io_base k)
          (let z : 0 ≡ fitting (length xs) 0 = ground arith in z),
  refl,
  v,
  ground arith,
)
write_loop-Gave (suc n) x s iob ret xs v e r =
    elim (ℕ_discrete s.pipe.p_head ((s.pipe.p_tail + 1) % pipe_buffer_size)) [
      | yes h ↦
          let l = held_full s.pipe xs v e h in
          subst (Ends (Gave (suc n) ret xs s iob)) (sym (write_loop_full n x s iob ret h)) (
            Ends-bind (λ w. Unit {0}) (Gave (suc n) ret xs s iob) _ _
              (wait_current_set-Ends s.world s.pipe.p_write_queue x wt_ipc r.0)
              (λ w' _. (
                ground (arith, l),
                e
                    ∙ sym (append-nil xs)
                    ∙ ap (λ k. xs ++ bytes s.memory iob.io_base k)
                        (let z : 0 ≡ fitting (length xs) (suc n) = ground (arith, l) in z),
                refl,
                v,
                ground (arith, l),
              )))
      | no ne ↦
          let l = held_free s.pipe xs v e ne in
          subst (Ends (Gave (suc n) ret xs s iob)) (sym (write_loop_free n x s iob ret ne)) (
            Ends-bind (Given s iob) (Gave (suc n) ret xs s iob) _ _ (put_byte-Given s iob r)
              (λ s1 (m, p, r1).
                Ends-mono (Gave n (ret + 1) (xs ++ (s.memory iob.io_base ∷ [])) s1 (next_base iob))
                  _ (write_loop n x s1 (next_base iob) (ret + 1))
                  (write_loop-Gave n x s1 (next_base iob) (ret + 1)
                    (xs ++ (s.memory iob.io_base ∷ [])) (subst Valid (sym p) (v.0, omega arith))
                    (ap contents p
                      ∙ contents-put s.pipe (s.memory iob.io_base) v ne
                      ∙ ap (λ l. l ++ (s.memory iob.io_base ∷ [])) e)
                    r1)
                  (λ t h. Gave-cons n ret xs s s1 iob t l m h)))
    ]

-- With head and tail in range, `pipe_write` refines putting bytes at the end of a queue of PIPE_BUFFER_SIZE - 1 bytes: it puts
-- the bytes of the buffer, in order, behind those in the pipe, as many as fit. It returns the
-- number asked for if all fit, and else sleeps with the number that did. Memory stays as it was, and
-- no assertion fails if the readers that wait sleep.
pub pipe_write-Gave :
    (s : State) (iob : Iobuf) (x : ℕ)
    → Valid s.pipe
    → Ready s.world s.pipe.p_read_queue
    → Ends (Gave iob.io_resid 0 (contents s.pipe) s iob) (pipe_write s iob x)
unfolding pipe_write
pipe_write-Gave s iob x v r = write_loop-Gave iob.io_resid x s iob 0 (contents s.pipe) v refl r
