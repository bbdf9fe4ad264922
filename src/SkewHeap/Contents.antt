-- ===== src/SkewHeap/Contents.antt =====
-- libs/skew_heap.h: what the operations do to the contents of a heap.
use ucoreonrv.Prelude.{
  ℕ, ◌+◌, ◌≤◌, ◌<◌, ◌≢◌, ◌≡◌, refl, subst, inl, inr, arith, if◌then◌else◌, ltb, ◌==◌, ==_iff,
  Bool-cases,
}
use ucoreonrv.Prelude.Int.{ℤ}
use ucoreonrv.SkewHeap.{
  Heap, leaf, node, skew_heap_merge, skew_heap_insert, skew_heap_remove, count, size, Every, IsHeap,
}

module _ (comp : ℕ → ℕ → ℤ) where
  -- A merge holds every entry as often as its two heaps together.
  pub count-merge :
      (i : ℕ) (a b : Heap) → count i (skew_heap_merge comp a b) ≡ count i a + count i b
  unfolding skew_heap_merge
  count-merge i leaf b = ground arith
  count-merge i (node l x r) leaf = ground arith
  count-merge i (node l x r) (node l' y r') =
      ground (arith, count-merge i r (node l' y r'), count-merge i (node l x r) r')

  -- An insertion adds one occurrence of its entry.
  pub count-insert :
      (i : ℕ) (a : Heap) (b : ℕ)
      → count i (skew_heap_insert comp a b) ≡ count i a + (if b == i then 1 else 0)
  unfolding skew_heap_insert
  count-insert i a b = ground (arith, count-merge i a (node leaf b leaf))

  -- Removing an entry that is not there changes nothing.
  pub remove_absent : (a : Heap) (b : ℕ) → count b a ≡ 0 → skew_heap_remove comp a b ≡ a
  unfolding skew_heap_remove
  remove_absent leaf b h = refl
  remove_absent (node l x r) b h = ground (arith, remove_absent l b, remove_absent r b)

  -- A removal takes out the one occurrence of its entry, and no other.
  count-remove :
      (i : ℕ) (a : Heap) (b : ℕ)
      → count b a ≤ 1
      → count i (skew_heap_remove comp a b) ≡ (if b == i then 0 else count i a)
  unfolding skew_heap_remove
  count-remove i leaf b h = ground arith
  count-remove i (node l x r) b h =
      ground (arith, count-merge i l r, count-remove i l b, count-remove i r b)

  pub size-merge : (a b : Heap) → size (skew_heap_merge comp a b) ≡ size a + size b
  unfolding skew_heap_merge
  size-merge leaf b = ground arith
  size-merge (node l x r) leaf = ground arith
  size-merge (node l x r) (node l' y r') =
      ground (arith, size-merge r (node l' y r'), size-merge (node l x r) r')

  pub size-insert : (a : Heap) (b : ℕ) → size (skew_heap_insert comp a b) ≡ size a + 1
  unfolding skew_heap_insert
  size-insert a b = ground (arith, size-merge a (node leaf b leaf))

  module _ (P : ℕ → Type 0) where
    pub merge-Every : (a b : Heap) → Every P a → Every P b → Every P (skew_heap_merge comp a b)
    unfolding skew_heap_merge
    merge-Every leaf b p q = q
    merge-Every (node l x r) leaf p q = p
    merge-Every (node l x r) (node l' y r') p q =
        ground (arith, merge-Every r (node l' y r'), merge-Every (node l x r) r')

    pub insert-Every : (a : Heap) (b : ℕ) → Every P a → P b → Every P (skew_heap_insert comp a b)
    unfolding skew_heap_insert
    insert-Every a b p q = merge-Every a (node leaf b leaf) p (q, tt, tt)

    pub remove-Every : (a : Heap) (b : ℕ) → Every P a → Every P (skew_heap_remove comp a b)
    unfolding skew_heap_remove
    remove-Every leaf b p = p
    remove-Every (node l x r) b p =
        ground (arith, merge-Every l r, remove-Every l b, remove-Every r b)

pub Every-map : (P Q : ℕ → Type 0) (a : Heap) → ((x : ℕ) → P x → Q x) → Every P a → Every Q a
Every-map P Q leaf f p = tt
Every-map P Q (node l x r) f (px, pl, pr) = (f x px, Every-map P Q l f pl, Every-map P Q r f pr)

pub Every-zip : (P Q : ℕ → Type 0) (a : Heap) → Every P a → Every Q a → Every (λ x. P x × Q x) a
Every-zip P Q leaf p q = tt
Every-zip P Q (node l x r) (px, pl, pr) (qx, ql, qr) =
    ((px, qx), Every-zip P Q l pl ql, Every-zip P Q r pr qr)

-- What an absent entry differs from.
pub Every-ne : (b : ℕ) (a : Heap) → count b a ≡ 0 → Every (λ x. x ≢ b) a
Every-ne b leaf h = tt
Every-ne b (node l x r) h = (ground arith, Every-ne b l (ground arith), Every-ne b r (ground arith))

-- Heap order looks only at the keys of the entries.
pub IsHeap-same :
    (key key' : ℕ → ℕ) (a : Heap) → Every (λ x. key' x ≡ key x) a → IsHeap key a → IsHeap key' a
IsHeap-same key key' leaf e h = tt
IsHeap-same key key' (node l x r) (ex, el, er) (hl, hr, il, ir) =
    (below l el hl, below r er hr, IsHeap-same key key' l el il, IsHeap-same key key' r er ir)
  where
    below :
        (b : Heap)
        → Every (λ y. key' y ≡ key y) b
        → Every (λ y. key x ≤ key y) b
        → Every (λ y. key' x ≤ key' y) b
    below b e h =
        Every-map (λ y. (key' y ≡ key y) × (key x ≤ key y)) (λ y. key' x ≤ key' y) b
          (λ y (p, q). omega arith) (Every-zip _ _ b e h)

pub Every-at : (P : ℕ → Type 0) (q : ℕ) (a : Heap) → Every P a → 0 < count q a → P q
Every-at P q leaf p h = absurd (omega arith)
Every-at P q (node l x r) (px, pl, pr) h = elim (Bool-cases (x == q)) [
  | inl e ↦ subst P ((==_iff x q).0 e) px
  | inr e ↦ elim (Bool-cases (ltb 0 (count q l))) [
    | inl m ↦ Every-at P q l pl (ground arith)
    | inr m ↦ Every-at P q r pr (ground arith)
  ]
]
