-- ===== src/Pipes/Fifo.antt =====
-- kern/fs/pipe/pipe.c: the bytes in the ring buffer as a queue.
use ucoreonrv.Prelude.{
  ℕ, zero, suc, ◌+◌, ◌-◌, ◌%◌, ◌<◌, ◌≡◌, ◌≢◌, refl, ap, ◌∙◌, List, [], ◌∷◌, ◌++◌, arith, length,
}
use ucoreonrv.Sync.{set_at}
use ucoreonrv.Pipes.{pipe_buffer_size, Pipe}

abbrev pub Valid : Pipe → Type 0
Valid p = (p.p_head < pipe_buffer_size) × (p.p_tail < pipe_buffer_size)

-- `n` bytes of the ring from the index `h` on.
abbrev pub ring : (ℕ → ℕ) → (h n : ℕ) → List ℕ
ring b h zero = []
ring b h (suc n) = b h ∷ ring b ((h + 1) % pipe_buffer_size) n

abbrev pub size : Pipe → ℕ
size p = (p.p_tail + pipe_buffer_size - p.p_head) % pipe_buffer_size

-- The bytes written and not yet read, in their order.
abbrev pub contents : Pipe → List ℕ
contents p = ring p.p_buffer p.p_head (size p)

pub length-ring : (b : ℕ → ℕ) (h n : ℕ) → length (ring b h n) ≡ n
length-ring b h zero = refl
length-ring b h (suc n) = ap suc (length-ring b ((h + 1) % pipe_buffer_size) n)

-- One more byte behind the last.
ring-snoc :
    (b : ℕ → ℕ) (h n t v : ℕ)
    → h < pipe_buffer_size
    → suc n < pipe_buffer_size
    → t ≡ (h + n) % pipe_buffer_size
    → ring (set_at b t v) h (suc n) ≡ ring b h n ++ (v ∷ [])
ring-snoc b h zero t v lh ln e = ap (λ x. x ∷ []) (let r : set_at b t v h ≡ v = ground (arith) in r)
ring-snoc b h (suc n) t v lh ln e =
    ap (λ x. x ∷ ring (set_at b t v) ((h + 1) % pipe_buffer_size) (suc n))
      (let r : set_at b t v h ≡ b h = ground (arith) in r)
    ∙ ap (◌∷◌ (b h)) (
        ring-snoc b ((h + 1) % pipe_buffer_size) n t v (omega arith) (omega arith)
          (e ∙ omega arith))

pub contents-take :
    (p : Pipe)
    → Valid p
    → p.p_head ≢ p.p_tail
    → contents p
      ≡ p.p_buffer p.p_head ∷ contents (record p { p_head = (p.p_head + 1) % pipe_buffer_size })
contents-take p (a, b) ne = ap (ring p.p_buffer p.p_head) (
    let e : size p ≡ suc (size (record p { p_head = (p.p_head + 1) % pipe_buffer_size })) =
      omega (arith, ne) in
    e)

pub contents-put :
    (p : Pipe) (v : ℕ)
    → Valid p
    → p.p_head ≢ (p.p_tail + 1) % pipe_buffer_size
    → contents (record p {
      p_buffer = set_at p.p_buffer p.p_tail v;
      p_tail = (p.p_tail + 1) % pipe_buffer_size;
    })
      ≡ contents p ++ (v ∷ [])
contents-put p v (a, b) ne =
    ap (ring (set_at p.p_buffer p.p_tail v) p.p_head) (
      let e : ((p.p_tail + 1) % pipe_buffer_size + pipe_buffer_size - p.p_head) % pipe_buffer_size
          ≡ suc (size p) =
        omega (arith, ne) in
      e)
    ∙ ring-snoc p.p_buffer p.p_head (size p) p.p_tail v a (omega (arith, ne)) (omega arith)
