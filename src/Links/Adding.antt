-- ===== src/Links/Adding.antt =====
-- libs/list.h: adding an entry.
use ucoreonrv.Prelude.{ℕ, ◌≡◌, ◌≢◌, sym, ◌∙◌, subst, List, [], ◌∷◌, ◌++◌, All, arith}
use ucoreonrv.Links.{Links, link_between, list_add, list_add_after, list_add_before}
use ucoreonrv.Links.Rings.{
  PathOf, Different, Ring, last_of, first_of, last_of-All, first_of-All, All-left, All-right,
  All-insert, PathOf-frame, All-both, PathOf-at,
}

module _ (s : Links) (e p n : ℕ) (ep : e ≢ p) (en : e ≢ n) where
  abbrev between : Links
  between = link_between s e p n

  between-ends :
      (between.next p ≡ e) × (between.prev e ≡ p) × (between.next e ≡ n) × (between.prev n ≡ e)
  unfolding link_between
  between-ends = ground (arith, ep, en)

  between-next : (z : ℕ) → z ≢ e → z ≢ p → between.next z ≡ s.next z
  unfolding link_between
  between-next z ze zp = ground arith

  between-prev : (z : ℕ) → z ≢ e → z ≢ n → between.prev z ≡ s.prev z
  unfolding link_between
  between-prev z ze zn = ground arith

-- `p` is the last of `a ∷ pre` and `n` the first of `ys`, or `b` behind it.
add-PathOf :
    (s : Links) (e a : ℕ) (pre ys : List ℕ) (b : ℕ)
    → e ≢ a
    → e ≢ b
    → All (λ z. z ≢ e) (pre ++ ys)
    → All (λ z. z ≢ b) (pre ++ ys)
    → Different (a ∷ (pre ++ ys))
    → PathOf s a (pre ++ ys) b
    → PathOf (link_between s e (last_of a pre) (first_of ys b)) a (pre ++ (e ∷ ys)) b
add-PathOf s e a [] [] b ea eb fresh nb d (h, k) =
    let (n1, p1, n2, p2) = between-ends s e a b ea eb in (n1, p1, (n2, p2))
add-PathOf s e a [] (y ∷ ys) b ea eb (fy, fresh) (yb, nb) ((ya, da), (dy, d)) (hn, hp, rest) =
    let (n1, p1, n2, p2) = between-ends s e a y ea (λ z. fy (sym z)) in
    (
      n1,
      p1,
      (
        n2,
        p2,
        PathOf-frame s (link_between s e a y) y ys b
            (between-next s e a y ea (λ z. fy (sym z)) y fy ya)
            (All-both _ _ _ ys (All-both _ _ (λ z. (z ≢ e) × (z ≢ a)) ys fresh da (λ z u v. (u, v)))
              dy
              (λ z (ze, za) zy. (
                between-next s e a y ea (λ w. fy (sym w)) z ze za,
                between-prev s e a y ea (λ w. fy (sym w)) z ze zy,
              )))
            (between-prev s e a y ea (λ z. fy (sym z)) b (λ z. eb (sym z)) (λ z. yb (sym z))) rest,
      ),
    )
add-PathOf s e a (x ∷ pre) ys b ea eb (fx, fresh) (xb, nb) ((xa, da), (dx, d)) (hn, hp, rest) =
    let ex = λ (z : e ≡ x). fx (sym z) in
    let el =
      last_of-All (λ z. e ≢ z) x pre ex
        (All-both _ _ _ pre (All-left _ pre ys fresh) (All-left _ pre ys fresh)
          (λ z u v w. u (sym w))) in
    let ef =
      first_of-All (λ z. e ≢ z) ys b
        (All-both _ _ _ ys (All-right _ pre ys fresh) (All-right _ pre ys fresh)
          (λ z u v w. u (sym w)))
        eb in
    (
      between-next s e (last_of x pre) (first_of ys b) el ef a (λ z. ea (sym z))
            (last_of-All (λ z. a ≢ z) x pre (λ z. xa (sym z))
              (All-both _ _ _ pre (All-left _ pre ys da) (All-left _ pre ys da)
                (λ z u v w. u (sym w))))
          ∙ hn,
      between-prev s e (last_of x pre) (first_of ys b) el ef x fx (
            first_of-All (λ z. x ≢ z) ys b
              (All-both _ _ _ ys (All-right _ pre ys dx) (All-right _ pre ys dx)
                (λ z u v w. u (sym w)))
              xb)
          ∙ hp,
      add-PathOf s e x pre ys b ex eb fresh nb (dx, d) rest,
    )

Different-insert :
    (pre : List ℕ) (e : ℕ) (ys : List ℕ)
    → All (λ z. z ≢ e) (pre ++ ys)
    → Different (pre ++ ys)
    → Different (pre ++ (e ∷ ys))
Different-insert [] e ys h d = (h, d)
Different-insert (x ∷ pre) e ys (h, hs) (dx, d) =
    (All-insert _ pre e ys (λ z. h (sym z)) dx, Different-insert pre e ys hs d)

-- In a list with all pointers right, a new entry `e` added behind the last of `h ∷ pre`, or before the first of `ys` and then `h`,
-- stands between them, and the rest of the list is as it was.
pub list_add-Ring :
    (s : Links) (h e : ℕ) (pre ys : List ℕ)
    → Ring s h (pre ++ ys)
    → e ≢ h
    → All (λ z. z ≢ e) (pre ++ ys)
    → Ring (list_add s (last_of h pre) e) h (pre ++ (e ∷ ys))
      × Ring (list_add_before s (first_of ys h) e) h (pre ++ (e ∷ ys))
unfolding list_add list_add_after list_add_before
list_add-Ring s h e pre ys (path, (dh, d)) eh fresh =
    let (after, before) = PathOf-at s h pre ys h path in
    let apart : Different (h ∷ (pre ++ (e ∷ ys))) =
      (All-insert _ pre e ys eh dh, Different-insert pre e ys fresh d) in
    let added = add-PathOf s e h pre ys h eh eh fresh dh (dh, d) path in
    (
      (
        subst (λ n. PathOf (link_between s e (last_of h pre) n) h (pre ++ (e ∷ ys)) h) (sym after)
            added,
        apart,
      ),
      (
        subst (λ p. PathOf (link_between s e p (first_of ys h)) h (pre ++ (e ∷ ys)) h) (sym before)
            added,
        apart,
      ),
    )
