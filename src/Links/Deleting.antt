-- ===== src/Links/Deleting.antt =====
-- libs/list.h: deleting an entry.
use ucoreonrv.Prelude.{ℕ, ◌≡◌, ◌≢◌, sym, ◌∙◌, subst, List, [], ◌∷◌, ◌++◌, All, arith}
use ucoreonrv.Links.{Links, link_between, join, list_add, list_add_after, list_del}
use ucoreonrv.Links.Rings.{
  PathOf, Different, Ring, last_of, first_of, last_of-All, first_of-All, All-left, All-right,
  All-remove, PathOf-frame, All-both,
}

module _ (s : Links) (p n : ℕ) where
  abbrev joined : Links
  joined = join s p n

  joined-ends : (joined.next p ≡ n) × (joined.prev n ≡ p)
  unfolding join
  joined-ends = ground arith

  joined-next : (z : ℕ) → z ≢ p → joined.next z ≡ s.next z
  unfolding join
  joined-next z zp = ground arith

  joined-prev : (z : ℕ) → z ≢ n → joined.prev z ≡ s.prev z
  unfolding join
  joined-prev z zn = ground arith

del-PathOf :
    (s : Links) (e a : ℕ) (pre ys : List ℕ) (b : ℕ)
    → All (λ z. z ≢ b) (pre ++ ys)
    → Different (a ∷ (pre ++ ys))
    → PathOf s a (pre ++ (e ∷ ys)) b
    → PathOf (join s (last_of a pre) (first_of ys b)) a (pre ++ ys) b
del-PathOf s e a [] [] b nb d path = joined-ends s a b
del-PathOf s e a [] (y ∷ ys) b (yb, nb) ((ya, da), (dy, d)) (_, _, (_, _, rest)) =
    let (n1, p1) = joined-ends s a y in
    (
      n1,
      p1,
      PathOf-frame s (join s a y) y ys b (joined-next s a y y ya)
          (All-both _ _ _ ys da dy (λ z za zy. (joined-next s a y z za, joined-prev s a y z zy)))
          (joined-prev s a y b (λ z. yb (sym z))) rest,
    )
del-PathOf s e a (x ∷ pre) ys b (xb, nb) ((xa, da), (dx, d)) (hn, hp, rest) =
    let last = last_of x pre in
    let first = first_of ys b in
    (
      joined-next s last first a (
            last_of-All (λ z. a ≢ z) x pre (λ z. xa (sym z))
              (All-both _ _ _ pre (All-left _ pre ys da) (All-left _ pre ys da)
                (λ z u v w. u (sym w))))
          ∙ hn,
      joined-prev s last first x (
            first_of-All (λ z. x ≢ z) ys b
              (All-both _ _ _ ys (All-right _ pre ys dx) (All-right _ pre ys dx)
                (λ z u v w. u (sym w)))
              xb)
          ∙ hp,
      del-PathOf s e x pre ys b nb (dx, d) rest,
    )

Different-remove :
    (pre : List ℕ) (e : ℕ) (ys : List ℕ) → Different (pre ++ (e ∷ ys)) → Different (pre ++ ys)
Different-remove [] e ys (_, d) = d
Different-remove (x ∷ pre) e ys (h, d) = (All-remove _ pre e ys h, Different-remove pre e ys d)

pub around-entry :
    (s : Links) (e a : ℕ) (pre ys : List ℕ) (b : ℕ)
    → PathOf s a (pre ++ (e ∷ ys)) b
    → (s.prev e ≡ last_of a pre) × (s.next e ≡ first_of ys b)
around-entry s e a [] [] b (_, p, (n, _)) = (p, n)
around-entry s e a [] (y ∷ ys) b (_, p, (n, _, _)) = (p, n)
around-entry s e a (x ∷ pre) ys b (_, _, rest) = around-entry s e x pre ys b rest

-- In a list with all pointers right, deleting an entry, wherever it stands, leaves the list of the others, in their order.
pub list_del-Ring :
    (s : Links) (h e : ℕ) (pre ys : List ℕ)
    → Ring s h (pre ++ (e ∷ ys))
    → Ring (list_del s e) h (pre ++ ys)
unfolding list_del
list_del-Ring s h e pre ys (path, (dh, d)) =
    let (before, after) = around-entry s e h pre ys h path in
    let dh' = All-remove _ pre e ys dh in
    let d' = Different-remove pre e ys d in
    (
      subst (λ p. PathOf (join s p (s.next e)) h (pre ++ ys) h) (sym before)
          (subst (λ n. PathOf (join s (last_of h pre) n) h (pre ++ ys) h) (sym after)
            (del-PathOf s e h pre ys h dh' (dh', d') path)),
      (dh', d'),
    )

-- Deleting an entry just added behind `l` sets all pointers of the others back.
list_del-list_add :
    (s : Links) (l e z : ℕ)
    → e ≢ l
    → e ≢ s.next l
    → s.prev (s.next l) ≡ l
    → z ≢ e
    → ((list_del (list_add s l e) e).next z ≡ s.next z)
      × ((list_del (list_add s l e) e).prev z ≡ s.prev z)
unfolding list_del list_add list_add_after link_between join
list_del-list_add s l e z el en ok ze = ground arith
