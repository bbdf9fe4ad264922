-- ===== src/Pages/Insertion.antt =====
-- kern/mm/default_pmm.c: where a block goes into the free list.
use ucoreonrv.Prelude.{
  ℕ, zero, suc, ◌+◌, ◌<◌, ◌≤◌, ◌≡◌, ◌≢◌, sym, ◌∙◌, subst, List, [], ◌∷◌, ◌++◌, All, arith, length,
}
use ucoreonrv.Prelude.Errors.{done, Ends}
use ucoreonrv.Links.{
  Links, link_between, join, list_add, list_add_after, list_add_before, list_del, list_empty,
}
use ucoreonrv.Links.Rings.{PathOf, Ring, last_of, last_of-All, All-left, All-right, All-both}
use ucoreonrv.Links.Adding.{list_add-Ring}
use ucoreonrv.Pages.{free_list, insert_loop, insert_block}

-- Entries below `base`, none of them the head.
abbrev pub Beneath : (base : ℕ) → List ℕ → Type 0
Beneath base = All (λ z. (z < base) × (z ≢ 0))

next_real :
    (s : Links) (le : ℕ) (base : ℕ) (pre : List ℕ) (y : ℕ) (ys : List ℕ)
    → PathOf s le (pre ++ (y ∷ ys)) 0
    → Beneath base pre
    → y ≢ 0
    → s.next le ≢ 0
next_real s le base [] y ys (n, _, _) h ny z = ny (sym n ∙ z)
next_real s le base (x ∷ pre) y ys (n, _, _) ((_, nx), h) ny z = nx (sym n ∙ z)

insert_loop_stop :
    (fuel : ℕ) (s : Links) (base le : ℕ) → s.next le ≡ 0 → insert_loop (suc fuel) s base le ≡ done s
unfolding insert_loop
insert_loop_stop fuel s base le e = ground arith

insert_loop_on :
    (fuel : ℕ) (s : Links) (base le x : ℕ)
    → s.next le ≡ x
    → x ≢ 0
    → x ≤ base
    → s.next x ≢ 0
    → insert_loop (suc fuel) s base le ≡ insert_loop fuel s base x
insert_loop_on fuel s base le x n nx l real =
    subst (λ z. insert_loop (suc fuel) s base le ≡ insert_loop fuel s base z) n
      (steps (λ z. nx (sym n ∙ z)) (subst (λ z. z ≤ base) (sym n) l)
        (subst (λ z. s.next z ≢ 0) (sym n) real))
  where
    steps :
        s.next le ≢ 0
        → s.next le ≤ base
        → s.next (s.next le) ≢ 0
        → insert_loop (suc fuel) s base le ≡ insert_loop fuel s base (s.next le)
    steps nx l real = unfold insert_loop in (ground arith)

-- The entry at `x` is the last.
insert_loop_last :
    (fuel : ℕ) (s : Links) (base le x : ℕ)
    → s.next le ≡ x
    → x ≢ 0
    → x ≤ base
    → s.next x ≡ 0
    → insert_loop (suc fuel) s base le ≡ insert_loop fuel (list_add s x base) base x
insert_loop_last fuel s base le x n nx l last =
    subst (λ z. insert_loop (suc fuel) s base le ≡ insert_loop fuel (list_add s z base) base z) n
      (steps (λ z. nx (sym n ∙ z)) (subst (λ z. z ≤ base) (sym n) l)
        (subst (λ z. s.next z ≡ 0) (sym n) last))
  where
    steps :
        s.next le ≢ 0
        → s.next le ≤ base
        → s.next (s.next le) ≡ 0
        → insert_loop (suc fuel) s base le
          ≡ insert_loop fuel (list_add s (s.next le) base) base (s.next le)
    steps nx l last = unfold insert_loop in (ground arith)

insert_loop_before :
    (fuel : ℕ) (s : Links) (base le : ℕ) (pre : List ℕ) (y : ℕ) (ys : List ℕ)
    → PathOf s le (pre ++ (y ∷ ys)) 0
    → Beneath base pre
    → y ≢ 0
    → base < y
    → length pre < fuel
    → insert_loop fuel s base le ≡ done (list_add_before s y base)
unfolding insert_loop
insert_loop_before zero s base le pre y ys path h ny by f = absurd (omega arith)
insert_loop_before (suc fuel) s base le [] y ys (n, p, _) h ny by f = ground (arith)
insert_loop_before (suc fuel) s base le (x ∷ pre) y ys (n, p, path) ((xb, nx), h) ny by f =
    insert_loop_on fuel s base le x n nx (omega (arith, xb)) (next_real s x base pre y ys path h ny)
    ∙ insert_loop_before fuel s base x pre y ys path h ny by (omega arith)

-- The pointers after the insertion at the end, which is done twice.
abbrev pub twice : Links → (last base : ℕ) → Links
twice s x base = list_add (list_add s x base) base base

twice-next :
    (s : Links) (x base : ℕ)
    → s.next x ≡ 0
    → x ≢ base
    → base ≢ 0
    → ((list_add s x base).next x ≡ base)
      × ((list_add s x base).next base ≡ 0)
      × ((twice s x base).next base ≡ 0)
      × ((twice s x base).prev base ≡ base)
      × ((twice s x base).next x ≡ base)
      × ((list_del (twice s x base) base).next x ≡ base)
unfolding list_add list_add_after link_between list_del join
twice-next s x base n xb nb = ground arith

insert_loop_end :
    (fuel : ℕ) (s : Links) (base x : ℕ)
    → s.next x ≡ 0
    → x ≢ base
    → base ≢ 0
    → insert_loop (suc (suc fuel)) (list_add s x base) base x ≡ done (twice s x base)
insert_loop_end fuel s base x n xb nb =
    let (n1, n2, n3, _, _, _) = twice-next s x base n xb nb in
    insert_loop_last (suc fuel) (list_add s x base) base x base n1 nb (omega arith) n2
    ∙ insert_loop_stop fuel (twice s x base) base base n3

insert_loop_behind :
    (fuel : ℕ) (s : Links) (base le x : ℕ) (xs : List ℕ)
    → PathOf s le (x ∷ xs) 0
    → Beneath base (x ∷ xs)
    → base ≢ 0
    → length xs + 3 ≤ fuel
    → (insert_loop fuel s base le ≡ done (twice s (last_of x xs) base))
      × (s.next (last_of x xs) ≡ 0)
insert_loop_behind zero s base le x xs path h nb f = absurd (omega arith)
insert_loop_behind (suc zero) s base le x xs path h nb f = absurd (omega arith)
insert_loop_behind (suc (suc zero)) s base le x xs path h nb f = absurd (omega arith)
insert_loop_behind (suc (suc (suc fuel))) s base le x [] (n, p, (n', p')) ((xb, nx), h) nb f = (
  insert_loop_last (suc (suc fuel)) s base le x n nx (omega (arith, xb)) n'
      ∙ insert_loop_end fuel s base x n' (omega (arith, xb)) nb,
  n',
)
insert_loop_behind (suc (suc (suc fuel))) s base le x (x2 ∷ xs) (n, p, path) ((xb, nx), h) nb f =
    let (rest, last) = insert_loop_behind (suc (suc fuel)) s base x x2 xs path h nb (omega arith) in
    (
      insert_loop_on (suc (suc fuel)) s base le x n nx (omega (arith, xb))
            (λ z. h.0.1 (sym path.0 ∙ z))
          ∙ rest,
      last,
    )

Beneath-of :
    (base : ℕ) (xs : List ℕ) → All (λ z. z < base) xs → All (λ z. z ≢ 0) xs → Beneath base xs
Beneath-of base [] h k = tt
Beneath-of base (x ∷ xs) (h, hs) (k, ks) = ((h, k), Beneath-of base xs hs ks)

-- In a free list that has a greater block, a block goes right before the first such, if those before
-- are smaller: the list has it there, with all pointers right.
pub insert_block-Ring :
    (fuel : ℕ) (s : Links) (base : ℕ) (pre : List ℕ) (y : ℕ) (ys : List ℕ)
    → Ring s free_list (pre ++ (y ∷ ys))
    → base ≢ free_list
    → All (λ z. z ≢ base) (pre ++ (y ∷ ys))
    → All (λ z. z < base) pre
    → base < y
    → length pre < fuel
    → Ends (λ t. Ring t free_list (pre ++ (base ∷ y ∷ ys))) (insert_block fuel s base)
unfolding insert_block list_empty
insert_block-Ring fuel s base pre y ys ring nb fresh below by f =
    let nz = ring.1.0 in
    let ny = (All-right _ pre (y ∷ ys) nz).0 in
    let runs : insert_block fuel s base ≡ done (list_add_before s y base) = ground (
      arith,
      next_real s 0 base pre y ys ring.0 (Beneath-of base pre below (All-left _ pre (y ∷ ys) nz))
          ny,
      insert_loop_before fuel s base 0 pre y ys ring.0
          (Beneath-of base pre below (All-left _ pre (y ∷ ys) nz)) ny by f,
    ) in
    subst (Ends (λ t. Ring t free_list (pre ++ (base ∷ y ∷ ys)))) (sym runs)
      (list_add-Ring s 0 base pre (y ∷ ys) ring nb fresh).1

-- A block greater than all in a free list that is not empty gets itself as the entry before it.
-- Deleting it then leaves the pointer of its neighbour as it was: the block stays in the list.
pub insert_block-list_del :
    (fuel : ℕ) (s : Links) (base x : ℕ) (xs : List ℕ)
    → Ring s free_list (x ∷ xs)
    → All (λ z. z < base) (x ∷ xs)
    → length xs + 3 ≤ fuel
    → Ends
        (λ t.
          (t.prev base ≡ base)
          × (t.next (last_of x xs) ≡ base)
          × ((list_del t base).next (last_of x xs) ≡ base))
        (insert_block fuel s base)
unfolding insert_block list_empty
insert_block-list_del fuel s base x xs ring below f =
    let all = Beneath-of base (x ∷ xs) below ring.1.0 in
    let nb : base ≢ 0 = omega (arith, below.0) in
    let (loop, last) = insert_loop_behind fuel s base 0 x xs ring.0 all nb f in
    let runs : insert_block fuel s base ≡ done (twice s (last_of x xs) base) =
      ground (arith, loop, ring.0.0, ring.1.0.0) in
    let (_, _, _, own, linked, stays) =
      twice-next s (last_of x xs) base last
        (last_of-All (λ z. z ≢ base) x xs (omega (arith, below.0))
          (All-both _ _ _ xs below.1 below.1 (λ z h _. omega (arith, h))))
        nb in
    subst
      (Ends (λ t.
        (t.prev base ≡ base)
        × (t.next (last_of x xs) ≡ base)
        × ((list_del t base).next (last_of x xs) ≡ base)))
      (sym runs) (own, linked, stays)
