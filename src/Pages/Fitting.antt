-- ===== src/Pages/Fitting.antt =====
-- kern/mm/default_pmm.c: `default_alloc_pages`.
use ucoreonrv.Prelude.{
  ℕ, zero, suc, ◌+◌, ◌-◌, ◌<◌, ◌≤◌, ◌≡◌, ◌≢◌, ◌⊎◌, inl, inr, refl, sym, ap, ◌∙◌, subst, Bool, true,
  false, List, [], ◌∷◌, ◌++◌, All, arith, ◌==◌, ◌&&◌, ◌%◌, ◌^◌, if◌then◌else◌, length, ltb, dec_lt,
  Bool-cases,
}
use ucoreonrv.Prelude.Errors.{done, Ends, Ends-bind, Ends-mono, ◌>>=◌}
use ucoreonrv.Links.{Links, list_add, list_del}
use ucoreonrv.Links.Rings.{PathOf, Ring, All-right, All-remove, All-both}
use ucoreonrv.Links.Adding.{list_add-Ring}
use ucoreonrv.Links.Deleting.{list_del-Ring, around-entry}
use ucoreonrv.Pages.{Area, free_list, find_fit, cut_block, default_alloc_pages}

-- `p` is the first of the blocks `xs` with `n` pages, or NULL if there is none.
abbrev pub Fits : Area → (n : ℕ) → List ℕ → (p : ℕ) → Type 0
Fits a n xs p =
    ((p ≡ 0) × All (λ z. a.property z < n) xs)
    ⊎ ((pre : List ℕ) × (ys : List ℕ) × (xs ≡ pre ++ (p ∷ ys))
        × All (λ z. a.property z < n) pre
        × (n ≤ a.property p)
        × (p ≢ 0))

Fits-cons :
    (a : Area) (n x : ℕ) (xs : List ℕ) (p : ℕ)
    → a.property x < n
    → Fits a n xs p
    → Fits a n (x ∷ xs) p
Fits-cons a n x xs p h (inl (e, k)) = inl (e, (h, k))
Fits-cons a n x xs p h (inr (pre, ys, e, k, l, nz)) = inr (x ∷ pre, ys, ap (◌∷◌ x) e, (h, k), l, nz)

find_fit_stop :
    (fuel : ℕ) (a : Area) (n le : ℕ) → a.links.next le ≡ 0 → find_fit (suc fuel) a n le ≡ done 0
unfolding find_fit
find_fit_stop fuel a n le e = ground arith

find_fit_here :
    (fuel : ℕ) (a : Area) (n le x : ℕ)
    → a.links.next le ≡ x
    → x ≢ 0
    → n ≤ a.property x
    → find_fit (suc fuel) a n le ≡ done x
find_fit_here fuel a n le x e nz h =
    subst (λ z. find_fit (suc fuel) a n le ≡ done z) e
      (step (λ z. nz (sym e ∙ z)) (subst (λ z. n ≤ a.property z) (sym e) h))
  where
    step :
        a.links.next le ≢ 0
        → n ≤ a.property (a.links.next le)
        → find_fit (suc fuel) a n le ≡ done (a.links.next le)
    step nz h = unfold find_fit in (ground arith)

find_fit_on :
    (fuel : ℕ) (a : Area) (n le x : ℕ)
    → a.links.next le ≡ x
    → x ≢ 0
    → a.property x < n
    → find_fit (suc fuel) a n le ≡ find_fit fuel a n x
find_fit_on fuel a n le x e nz h =
    subst (λ z. find_fit (suc fuel) a n le ≡ find_fit fuel a n z) e
      (step (λ z. nz (sym e ∙ z)) (subst (λ z. a.property z < n) (sym e) h))
  where
    step :
        a.links.next le ≢ 0
        → a.property (a.links.next le) < n
        → find_fit (suc fuel) a n le ≡ find_fit fuel a n (a.links.next le)
    step nz h = unfold find_fit in (ground arith)

find_fit-Fits :
    (fuel : ℕ) (a : Area) (n le : ℕ) (xs : List ℕ)
    → PathOf a.links le xs 0
    → All (λ z. z ≢ 0) xs
    → length xs < fuel
    → Ends (Fits a n xs) (find_fit fuel a n le)
find_fit-Fits zero a n le xs path nz f = absurd (omega arith)
find_fit-Fits (suc fuel) a n le [] (e, _) nz f =
    subst (Ends (Fits a n [])) (sym (find_fit_stop fuel a n le e)) (inl (refl, tt))
find_fit-Fits (suc fuel) a n le (x ∷ xs) (e, _, path) (nx, nz) f = elim (dec_lt (a.property x) n) [
  | yes h ↦ subst (Ends (Fits a n (x ∷ xs))) (sym (find_fit_on fuel a n le x e nx h)) (
      Ends-mono (Fits a n xs) (Fits a n (x ∷ xs)) (find_fit fuel a n x)
        (find_fit-Fits fuel a n x xs path nz (omega arith)) (λ p k. Fits-cons a n x xs p h k))
  | no h ↦
      subst (Ends (Fits a n (x ∷ xs))) (sym (find_fit_here fuel a n le x e nx (omega (arith, h))))
        (inr ([], xs, refl, tt, omega (arith, h), nx))
]

-- What stays of a block of `m` pages at `p` when `n` are taken.
abbrev pub left_over : (m p n : ℕ) → List ℕ → List ℕ
left_over m p n ys = if ltb n m then (p + n) ∷ ys else ys

-- The sizes and the flags of the pages where `n` were taken at `page`: what the block has beyond is a
-- block of its own.
abbrev pub Labels : Area → (page n : ℕ) → Area → Type 0
Labels a page n a' =
    ((z : ℕ)
      → a'.property z ≡ (
          if z == page + n && ltb n (a.property page)
          then (a.property page - n) % 2 ^ 32
          else a.property z))
    × ((z : ℕ)
        → a'.has_property z ≡ (
            if z == page
            then false
            else if z == page + n && ltb n (a.property page)
            then true
            else a.has_property z))

-- What `default_alloc_pages` does where the free list is `xs`.
abbrev pub Allocated : Area → (n : ℕ) → List ℕ → ℕ × Area → Type 0
Allocated a n xs (page, a') =
    ((page ≡ 0) × (a' ≡ a) × ((a.nr_free < n) ⊎ All (λ z. a.property z < n) xs))
    ⊎ ((pre : List ℕ) × (ys : List ℕ) × (xs ≡ pre ++ (page ∷ ys))
        × All (λ z. a.property z < n) pre
        × (n ≤ a.property page)
        × Ring a'.links free_list (pre ++ left_over (a.property page) page n ys)
        × (a'.nr_free + n ≡ a.nr_free)
        × Labels a page n a')

-- No block begins inside another.
abbrev pub Disjoint : Area → List ℕ → Type 0
Disjoint a xs = All (λ p. All (λ z. (z ≤ p) ⊎ (p + a.property p ≤ z)) xs) xs

cut_facts :
    (a : Area) (page n : ℕ)
    → 0 < n
    → ((cut_block a page n).links ≡ (
        if ltb n (a.property page)
        then list_add (list_del a.links page) (a.links.prev page) (page + n)
        else list_del a.links page))
      × ((cut_block a page n).nr_free ≡ a.nr_free - n)
      × Labels a page n (cut_block a page n)
unfolding cut_block
cut_facts a page n h = (ground arith, ground arith, ((λ z. ground arith), (λ z. ground arith)))

cut_block-Ring :
    (a : Area) (n p : ℕ) (pre ys : List ℕ)
    → 0 < n
    → Ring a.links free_list (pre ++ (p ∷ ys))
    → Disjoint a (pre ++ (p ∷ ys))
    → Ring (cut_block a p n).links free_list (pre ++ left_over (a.property p) p n ys)
cut_block-Ring a n p pre ys pos ring dis =
    subst (λ l. Ring l free_list (pre ++ left_over (a.property p) p n ys))
      (sym (cut_facts a p n pos).0)
      (elim (Bool-cases (ltb n (a.property p))) [
        | inl t ↦ subst left (sym t) (added (ground arith))
        | inr t ↦ subst left (sym t) gone
      ])
  where
    linked : Bool → Links
    linked b =
        if b then list_add (list_del a.links p) (a.links.prev p) (p + n) else list_del a.links p

    left : Bool → Type 0
    left b = Ring (linked b) free_list (pre ++ (if b then (p + n) ∷ ys else ys))

    gone : Ring (list_del a.links p) free_list (pre ++ ys)
    gone = list_del-Ring a.links free_list p pre ys ring

    free_number : n < a.property p → All (λ z. z ≢ p + n) (pre ++ ys)
    free_number l =
        let near = All-remove _ pre p ys (All-right _ pre (p ∷ ys) dis).0 in
        All-both _ _ _ (pre ++ ys) near near (λ z h _ e. ground (arith, h, e, pos))

    added : n < a.property p → Ring (linked true) free_list (pre ++ ((p + n) ∷ ys))
    added l =
        subst
          (λ b. Ring (list_add (list_del a.links p) b (p + n)) free_list (pre ++ ((p + n) ∷ ys)))
          (sym (around-entry a.links p 0 pre ys 0 ring.0).0)
          (list_add-Ring (list_del a.links p) 0 (p + n) pre ys gone (omega (arith, pos))
            (free_number l)).0

page_taken :
    (a : Area) (n : ℕ) (xs : List ℕ) (p : ℕ)
    → 0 < n
    → n ≤ a.nr_free
    → Ring a.links free_list xs
    → Disjoint a xs
    → Fits a n xs p
    → Allocated a n xs (p, if p == 0 then a else cut_block a p n)
page_taken a n xs p pos few ring dis (inl (e, small)) = inl (e, ground arith, inr small)
page_taken a n xs p pos few ring dis (inr (pre, ys, e, small, fit, nz)) =
    let (_, nr, labels) = cut_facts a p n pos in
    subst (λ c. Allocated a n xs (p, c))
      (let r : cut_block a p n ≡ (if p == 0 then a else cut_block a p n) = ground arith in r)
      (inr (
        pre,
        ys,
        e,
        small,
        fit,
        cut_block-Ring a n p pre ys pos (subst (Ring a.links free_list) e ring)
            (subst (Disjoint a) e dis),
        omega (arith, nr),
        labels,
      ))

-- Where the free list is a ring of blocks apart from each other, with fuel for it, a call for `n`
-- pages, `n` not 0, fails no assertion. It returns NULL and changes nothing if there are too few
-- pages or every block is smaller; else it returns the first block that is large enough, and what
-- that has beyond `n` pages takes its place in the list, which stays a ring, as a block of that
-- size modulo 2^32, flagged as one. The block returned loses its flag, and no other page's size or flag
-- changes.
pub default_alloc_pages-Allocated :
    (fuel : ℕ) (a : Area) (n : ℕ) (xs : List ℕ)
    → 0 < n
    → Ring a.links free_list xs
    → Disjoint a xs
    → length xs < fuel
    → Ends (Allocated a n xs) (default_alloc_pages fuel a n)
unfolding default_alloc_pages
default_alloc_pages-Allocated fuel a n xs pos ring dis f = elim (dec_lt a.nr_free n) [
  | yes h ↦ subst (Ends (Allocated a n xs)) (sym (refuses h)) (inl (refl, refl, inl h))
  | no h ↦ subst (Ends (Allocated a n xs)) (sym (looks (omega (arith, h)))) (
      Ends-bind (Fits a n xs) (Allocated a n xs) (find_fit fuel a n free_list) _
        (find_fit-Fits fuel a n free_list xs ring.0 ring.1.0 f)
        (λ p k. page_taken a n xs p pos (omega (arith, h)) ring dis k))
]
  where
    refuses : a.nr_free < n → default_alloc_pages fuel a n ≡ done (0, a)
    refuses h = ground (arith, pos)

    looks :
        n ≤ a.nr_free
        → default_alloc_pages fuel a n ≡ (
            find_fit fuel a n free_list >>= λ page.
            done (page, if page == 0 then a else cut_block a page n))
    looks h = ground (arith, pos)
