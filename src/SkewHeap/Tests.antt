-- ===== src/SkewHeap/Tests.antt =====
-- Runs of libs/skew_heap.h on a small heap of numbers, compared as such.
use ucoreonrv.Prelude.{ℕ, ◌≡◌, refl, arith, ltb, if◌then◌else◌}
use ucoreonrv.Prelude.Int.{ℤ, pos, negsuc}
use ucoreonrv.SkewHeap.{Heap, leaf, node, skew_heap_merge, skew_heap_remove}
use ucoreonrv.SkewHeap.Order.{Agrees, Merged, merge-Merged}

abbrev by_number : ℕ → ℕ → ℤ
by_number x y = if ltb x y then negsuc 0 else if ltb y x then pos 1 else pos 0

abbrev one : ℕ → Heap
one x = node leaf x leaf

abbrev small : Heap
small = node (one 5) 2 (one 9)

merge_run : skew_heap_merge by_number small (one 3) ≡ node (node (one 9) 3 leaf) 2 (one 5)
unfolding skew_heap_merge
merge_run = refl

remove_run : skew_heap_remove by_number small 2 ≡ node (one 9) 5 leaf
unfolding skew_heap_remove
remove_run = refl

by_number-Agrees : Agrees (λ _. Unit) (λ x. x) by_number
by_number-Agrees x y _ _ = ground arith

merge-Merged_example : Merged (λ x. x) small (one 3) (skew_heap_merge by_number small (one 3))
merge-Merged_example =
    merge-Merged (λ _. Unit) (λ x. x) by_number by_number-Agrees small (one 3)
      (tt, (tt, tt, tt), (tt, tt, tt)) (tt, tt, tt) (omega arith) (omega arith)
