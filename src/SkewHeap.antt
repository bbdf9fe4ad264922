-- ===== src/SkewHeap.antt =====
-- libs/skew_heap.h: the skew heap of the run queue. An entry is named by the object that it is
-- embedded in, a number; `parent` pointers are the tree's own shape.
pub mod Contents
pub mod Order
pub mod Tests
use ucoreonrv.Prelude.{ℕ, ◌+◌, ◌≤◌, Bool, true, false, if◌then◌else◌, ◌==◌}
use ucoreonrv.Prelude.Int.{ℤ, negsuc, eqb_ℤ}

pub data Heap : Type 0 where
  leaf : Heap
  node : (left : Heap) (item : ℕ) (right : Heap) → Heap

-- `comp(a, b) == -1`
abbrev pub precedes : (ℕ → ℕ → ℤ) → ℕ → ℕ → Bool
precedes comp x y = eqb_ℤ (comp x y) (negsuc 0)

unfoldable pub skew_heap_merge : (ℕ → ℕ → ℤ) → Heap → Heap → Heap
skew_heap_merge comp leaf b = b
skew_heap_merge comp (node l x r) leaf = node l x r
skew_heap_merge comp (node l x r) (node l' y r') = elim (precedes comp x y) [
  | true ↦ node (skew_heap_merge comp r (node l' y r')) x l
  | false ↦ node (skew_heap_merge comp (node l x r) r') y l'
]

unfoldable pub skew_heap_insert : (ℕ → ℕ → ℤ) → Heap → ℕ → Heap
unfolding skew_heap_merge
skew_heap_insert comp a b = skew_heap_merge comp a (node leaf b leaf)

-- The entry `b` gives its place to the merge of its two subtrees.
unfoldable pub skew_heap_remove : (ℕ → ℕ → ℤ) → Heap → ℕ → Heap
unfolding skew_heap_merge
skew_heap_remove comp leaf b = leaf
skew_heap_remove comp (node l x r) b =
    if x == b
    then skew_heap_merge comp l r
    else node (skew_heap_remove comp l b) x (skew_heap_remove comp r b)

-- How often an object is in a heap.
abbrev pub count : ℕ → Heap → ℕ
count a leaf = 0
count a (node l x r) = (if x == a then 1 else 0) + count a l + count a r

abbrev pub size : Heap → ℕ
size leaf = 0
size (node l x r) = 1 + size l + size r

abbrev pub Every : (ℕ → Type 0) → Heap → Type 0
Every P leaf = Unit
Every P (node l x r) = P x × Every P l × Every P r

-- No entry's key is below that of an entry above it.
abbrev pub IsHeap : (ℕ → ℕ) → Heap → Type 0
IsHeap key leaf = Unit
IsHeap key (node l x r) =
    Every (λ y. key x ≤ key y) l × Every (λ y. key x ≤ key y) r × IsHeap key l × IsHeap key r
