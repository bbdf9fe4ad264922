-- ===== src/Procs/Removal.antt =====
-- kern/process/proc.c: the list of children after `remove_links`.
use ucoreonrv.Prelude.{ℕ, ◌≡◌, ◌≢◌, refl, sym, ap, ◌∙◌, subst, List, [], ◌∷◌, ◌++◌, All, arith}
use ucoreonrv.Procs.Kernel.{Kin, Kernel}
use ucoreonrv.Procs.Children.{Siblings, Apart, Kids, Siblings-frame, All-map, All-map2}
use ucoreonrv.Procs.Family.{
  All-right, All-left, All-drop, Apart-right, Apart-drop, before-ne, last_of-All, pointer-All,
  from-Siblings, older, younger, mother, rest, rest-other, rest-older, rest-younger, rest-mother,
}

module _ (k : Kernel) (p : ℕ) (m : ℕ) (no : older k p ≢ p) (ny : younger k p ≢ p) where
  -- The children behind `p`.
  behind :
      (ys : List ℕ)
      → Siblings k.kin m p (older k p) ys
      → Apart ys
      → All (λ z. z ≢ younger k p) ys
      → Siblings (rest k p) m (younger k p) (older k p) ys
  behind [] s a h = s
  behind (x ∷ xs) (e, nz, ey, ep, s) (a, _) (h, hs) =
      let (ry, rp, ro) = rest-older k p no ny (λ z. nz (sym e ∙ z)) (λ z. h (sym e ∙ z)) in
      (
        e,
        nz,
        ap (λ c. (rest k p c).yptr) (sym e) ∙ ry,
        ap (λ c. (rest k p c).parent) (sym e) ∙ rp ∙ ap (λ c. (k.kin c).parent) e ∙ ep,
        subst (λ o. Siblings (rest k p) m x o xs)
            (sym (ap (λ c. (rest k p c).optr) (sym e) ∙ ro ∙ ap (λ c. (k.kin c).optr) e))
            (Siblings-frame k.kin (rest k p) m x (k.kin x).optr xs
              (All-map2 _ _ _ xs a hs (λ z nx nq. rest-other k p no ny z (λ w. nx (w ∙ e)) nq)) s),
      )

  -- The children from `x` on, where `p` is not the first of them.
  around :
      (a c x : ℕ) (pre ys : List ℕ)
      → Siblings k.kin m a c (x ∷ (pre ++ (p ∷ ys)))
      → Apart (x ∷ (pre ++ (p ∷ ys)))
      → Siblings (rest k p) m a c (x ∷ (pre ++ ys))
  around a c x [] ys (e, nz, ey, ep, s) (h, (h', b)) =
      let (fy, fp, fz, fs) = from-Siblings k.kin m x (k.kin x).optr p [] ys s in
      let ne = pointer-All (λ o. o ≢ x) k.kin m p (older k p) ys fs (λ z. nz (sym z)) h.1 in
      let (ry, rp, ro) = rest-younger k p no ny (λ z. nz (sym fy ∙ z)) (λ z. ne (z ∙ fy)) in
      (
        e,
        nz,
        ap (λ z. (rest k p z).yptr) (sym fy) ∙ ry ∙ ap (λ z. (k.kin z).yptr) fy ∙ ey,
        ap (λ z. (rest k p z).parent) (sym fy) ∙ rp ∙ ap (λ z. (k.kin z).parent) fy ∙ ep,
        subst (λ o. Siblings (rest k p) m x o ys) (sym (ap (λ z. (rest k p z).optr) (sym fy) ∙ ro))
            (subst (λ z. Siblings (rest k p) m z (older k p) ys) fy
              (behind ys fs b (subst (λ z. All (λ w. w ≢ z) ys) (sym fy) h.1))),
      )
  around a c x (x2 ∷ pre) ys (e, nz, ey, ep, s) (h, h') =
      let (fy, fp, fz, fs) = from-Siblings k.kin m x (k.kin x).optr p (x2 ∷ pre) ys s in
      let ne =
        pointer-All (λ o. o ≢ x) k.kin m p (older k p) ys fs (λ z. nz (sym z))
          (All-right (λ z. z ≢ x) (x2 ∷ pre) (p ∷ ys) h).1 in
      let ne' = last_of-All (λ z. z ≢ x) x2 pre h.0 (All-left (λ z. z ≢ x) pre (p ∷ ys) h.1) in
      let (ry, rp, ro) = rest-other k p no ny x (λ z. ne (sym z)) (λ z. ne' (sym fy ∙ sym z)) in
      (
        e,
        nz,
        ry ∙ ey,
        rp ∙ ep,
        subst (λ o. Siblings (rest k p) m x o (x2 ∷ (pre ++ ys))) (sym ro)
            (around x (k.kin x).optr x2 pre ys s h'),
      )

real : (kin : ℕ → Kin) (par y c : ℕ) (xs : List ℕ) → Siblings kin par y c xs → All (λ z. z ≢ 0) xs
real kin par y c [] s = tt
real kin par y c (x ∷ xs) (e, nz, ey, ep, s) = (nz, real kin par x (kin x).optr xs s)

-- A child is neither its own older nor its own younger sibling.
not_own :
    (k : Kernel) (p m : ℕ) (pre ys : List ℕ)
    → Siblings k.kin m 0 (k.kin m).cptr (pre ++ (p ∷ ys))
    → Apart (pre ++ (p ∷ ys))
    → (older k p ≢ p) × (younger k p ≢ p)
not_own k p m pre ys s a =
    let (fy, fp, fz, fs) = from-Siblings k.kin m 0 (k.kin m).cptr p pre ys s in
    (
      pointer-All (λ o. o ≢ p) k.kin m p (older k p) ys fs (λ z. fz (sym z))
          (Apart-right pre (p ∷ ys) a).0,
      subst (λ y. y ≢ p) (sym fy)
          (last_of-All (λ z. z ≢ p) 0 pre (λ z. fz (sym z))
            (All-map (λ z. p ≢ z) (λ z. z ≢ p) pre (before-ne pre p ys a) (λ z ne e. ne (sym e)))),
    )

kept :
    (k : Kernel) (p m : ℕ) (pre ys : List ℕ)
    → m ≡ mother k p
    → Siblings k.kin m 0 (k.kin m).cptr (pre ++ (p ∷ ys))
    → Apart (pre ++ (p ∷ ys))
    → Siblings (rest k p) m 0 (rest k p m).cptr (pre ++ ys)
kept k p m [] ys em (e, nz, ey, ep, s) (h, a) =
    subst (λ c. Siblings (rest k p) m 0 c ys) (sym moved)
      (subst (λ y. Siblings (rest k p) m y (older k p) ys) ey
        (behind k p m no ny ys s a
          (subst (λ y. All (λ z. z ≢ y) ys) (sym ey) (real k.kin m p (older k p) ys s))))
  where
    no : older k p ≢ p
    no = (not_own k p m [] ys (e, nz, ey, ep, s) (h, a)).0

    ny : younger k p ≢ p
    ny = (not_own k p m [] ys (e, nz, ey, ep, s) (h, a)).1

    moved : (rest k p m).cptr ≡ older k p
    moved = ground (arith, ap (λ z. (rest k p z).cptr) em, rest-mother k p no ny, ey)
kept k p m (x ∷ pre) ys em s a =
    subst (λ c. Siblings (rest k p) m 0 c (x ∷ (pre ++ ys))) (sym same)
      (around k p m own.0 own.1 0 (k.kin m).cptr x pre ys s a)
  where
    own : (older k p ≢ p) × (younger k p ≢ p)
    own = not_own k p m (x ∷ pre) ys s a

    busy : younger k p ≢ 0
    busy =
        let nzs = real k.kin m 0 (k.kin m).cptr (x ∷ (pre ++ (p ∷ ys))) s in
        subst (λ y. y ≢ 0) (sym (from-Siblings k.kin m 0 (k.kin m).cptr p (x ∷ pre) ys s).0)
          (last_of-All (λ z. z ≢ 0) x pre nzs.0 (All-left (λ z. z ≢ 0) pre (p ∷ ys) nzs.1))

    same : (rest k p m).cptr ≡ (k.kin m).cptr
    same = ground (
      arith,
      ap (λ z. (rest k p z).cptr) em,
      rest-mother k p own.0 own.1,
      busy,
      ap (λ z. (k.kin z).cptr) em,
    )

-- `remove_links` takes a child out of its parent's list of children, if that is right, wherever it
-- stands; the others
-- stay, in their order, with all links right.
pub remove_links-Kids :
    (k : Kernel) (p : ℕ) (pre ys : List ℕ)
    → Kids k.kin (mother k p) (pre ++ (p ∷ ys))
    → Kids (rest k p) (mother k p) (pre ++ ys)
remove_links-Kids k p pre ys (s, (h, a)) =
    (kept k p (mother k p) pre ys refl s a, (All-drop _ pre p ys h, Apart-drop pre p ys a))
