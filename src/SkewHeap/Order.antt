-- ===== src/SkewHeap/Order.antt =====
-- libs/skew_heap.h: the operations keep heap order, for every comparison function that agrees
-- with the order of some key on the entries in hand.
use ucoreonrv.Prelude.{ℕ, ◌+◌, ◌≤◌, ◌≡◌, true, false, inl, inr, arith, ◌==◌, Bool-cases}
use ucoreonrv.Prelude.Int.{ℤ}
use ucoreonrv.SkewHeap.Contents.{count-merge, merge-Every, remove-Every}
use ucoreonrv.SkewHeap.{
  Heap, leaf, node, count, precedes, skew_heap_merge, skew_heap_insert, skew_heap_remove, Every,
  IsHeap,
}

-- On entries that satisfy `P` the comparison answers -1 only where the first key is at most the
-- second, and another value only where it is at least the second.
abbrev pub Agrees : (ℕ → Type 0) → (ℕ → ℕ) → (ℕ → ℕ → ℤ) → Type 0
Agrees P key comp =
    (x y : ℕ)
    → P x
    → P y
    → (precedes comp x y ≡ true → key x ≤ key y) × (precedes comp x y ≡ false → key y ≤ key x)

-- A heap of just the entries of `a` and `b`.
abbrev pub Merged : (ℕ → ℕ) → (a b : Heap) → Heap → Type 0
Merged key a b m = IsHeap key m × ((i : ℕ) → count i m ≡ count i a + count i b)

module _ (key : ℕ → ℕ) where
  Every-mono : (j k : ℕ) (a : Heap) → j ≤ k → Every (λ y. k ≤ key y) a → Every (λ y. j ≤ key y) a
  Every-mono j k leaf h p = tt
  Every-mono j k (node l x r) h (p, q, s) =
      (omega arith, Every-mono j k l h q, Every-mono j k r h s)

module _ (P : ℕ → Type 0) (key : ℕ → ℕ) (comp : ℕ → ℕ → ℤ) (agree : Agrees P key comp) where
  pub merge-IsHeap :
      (a b : Heap)
      → Every P a
      → Every P b
      → IsHeap key a
      → IsHeap key b
      → IsHeap key (skew_heap_merge comp a b)
  unfolding skew_heap_merge
  merge-IsHeap leaf b p q h k = k
  merge-IsHeap (node l x r) leaf p q h k = h
  merge-IsHeap (node l x r) (node l' y r') (px, pl, pr) (qy, ql, qr) h k =
      elim (Bool-cases (precedes comp x y)) [
        | inl e ↦
            let le : key x ≤ key y = (agree x y px qy).0 e in
            rw (e, IsHeap)
              (
                merge-Every comp (λ z. key x ≤ key z) r (node l' y r') h.1
                    (le, Every-mono key _ _ l' le k.0, Every-mono key _ _ r' le k.1),
                h.0,
                merge-IsHeap r (node l' y r') pr (qy, ql, qr) h.3 k,
                h.2,
              )
        | inr e ↦
            let le : key y ≤ key x = (agree x y px qy).1 e in
            rw (e, IsHeap)
              (
                merge-Every comp (λ z. key y ≤ key z) (node l x r) r'
                    (le, Every-mono key _ _ l le h.0, Every-mono key _ _ r le h.1) k.1,
                k.0,
                merge-IsHeap (node l x r) r' (px, pl, pr) qr h k.3,
                k.2,
              )
      ]

  -- Where the comparison agrees with a key on the entries, the merge of two heaps is a heap, and it
  -- holds every entry as often as the two together.
  pub merge-Merged :
      (a b : Heap)
      → Every P a
      → Every P b
      → IsHeap key a
      → IsHeap key b
      → Merged key a b (skew_heap_merge comp a b)
  merge-Merged a b p q h k = (merge-IsHeap a b p q h k, λ i. count-merge comp i a b)

  -- Inserting an entry keeps a heap a heap.
  pub insert-IsHeap :
      (a : Heap) (b : ℕ) → Every P a → P b → IsHeap key a → IsHeap key (skew_heap_insert comp a b)
  unfolding skew_heap_insert
  insert-IsHeap a b p q h = merge-IsHeap a (node leaf b leaf) p (q, tt, tt) h (tt, tt, tt, tt)

  -- Removing an entry keeps a heap a heap.
  remove-IsHeap :
      (a : Heap) (b : ℕ) → Every P a → IsHeap key a → IsHeap key (skew_heap_remove comp a b)
  unfolding skew_heap_remove
  remove-IsHeap leaf b p h = tt
  remove-IsHeap (node l x r) b (px, pl, pr) (hl, hr, il, ir) = elim (Bool-cases (x == b)) [
    | inl e ↦ rw e (merge-IsHeap l r pl pr il ir)
    | inr e ↦ rw e (
      remove-Every comp (λ z. key x ≤ key z) l b hl,
      remove-Every comp (λ z. key x ≤ key z) r b hr,
      remove-IsHeap l b pl il,
      remove-IsHeap r b pr ir,
    )
  ]
