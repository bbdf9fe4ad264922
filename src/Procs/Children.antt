-- ===== src/Procs/Children.antt =====
-- kern/process/proc.c: the list of children of a process, and what set_links and remove_links do to
-- it.
use ucoreonrv.Prelude.{ℕ, ◌≡◌, ◌≢◌, sym, ap, ◌∙◌, subst, List, [], ◌∷◌, All, arith}
use ucoreonrv.Procs.Kernel.{Kin, Kernel, set_links}

-- The children `xs` of `par` from the pointer `c` on, the youngest first; `y` is the child before.
abbrev pub Siblings : (ℕ → Kin) → (par y c : ℕ) → List ℕ → Type 0
Siblings kin par y c [] = c ≡ 0
Siblings kin par y c (x ∷ xs) =
    (c ≡ x)
    × (x ≢ 0)
    × ((kin x).yptr ≡ y)
    × ((kin x).parent ≡ par)
    × Siblings kin par x (kin x).optr xs

-- No child twice, and neither the parent nor `p` among them.
abbrev pub Apart : List ℕ → Type 0
Apart [] = Unit
Apart (x ∷ xs) = All (λ z. z ≢ x) xs × Apart xs

abbrev pub Kids : (ℕ → Kin) → (par : ℕ) → List ℕ → Type 0
Kids kin par xs = Siblings kin par 0 (kin par).cptr xs × Apart (par ∷ xs)

abbrev pub SameLinks : (ℕ → Kin) → (ℕ → Kin) → ℕ → Type 0
SameLinks kin kin' x =
    ((kin' x).yptr ≡ (kin x).yptr)
    × ((kin' x).parent ≡ (kin x).parent)
    × ((kin' x).optr ≡ (kin x).optr)

pub Siblings-frame :
    (kin kin' : ℕ → Kin) (par y c : ℕ) (xs : List ℕ)
    → All (SameLinks kin kin') xs
    → Siblings kin par y c xs
    → Siblings kin' par y c xs
Siblings-frame kin kin' par y c [] h s = s
Siblings-frame kin kin' par y c (x ∷ xs) ((hy, hp, ho), h) (e, nz, ey, ep, s) = (
  e,
  nz,
  hy ∙ ey,
  hp ∙ ep,
  subst (λ o. Siblings kin' par x o xs) (sym ho)
      (Siblings-frame kin kin' par x (kin x).optr xs h s),
)

All-of : (P : ℕ → Type 0) (xs : List ℕ) → ((z : ℕ) → P z) → All P xs
All-of P [] f = tt
All-of P (x ∷ xs) f = (f x, All-of P xs f)

pub Kids-frame_at :
    (kin kin' : ℕ → Kin) (par : ℕ) (xs : List ℕ)
    → All (SameLinks kin kin') xs
    → (kin' par).cptr ≡ (kin par).cptr
    → Kids kin par xs
    → Kids kin' par xs
Kids-frame_at kin kin' par xs same first (s, a) = (
  subst (λ c. Siblings kin' par 0 c xs) (sym first)
      (Siblings-frame kin kin' par 0 (kin par).cptr xs same s),
  a,
)

pub Kids-frame :
    (kin kin' : ℕ → Kin) (par : ℕ) (xs : List ℕ)
    → ((z : ℕ) → SameLinks kin kin' z × ((kin' z).cptr ≡ (kin z).cptr))
    → Kids kin par xs
    → Kids kin' par xs
Kids-frame kin kin' par xs same =
    Kids-frame_at kin kin' par xs (All-of _ xs (λ z. (same z).0)) (same par).1

pub All-map : (P Q : ℕ → Type 0) (xs : List ℕ) → All P xs → ((x : ℕ) → P x → Q x) → All Q xs
All-map P Q [] h f = tt
All-map P Q (x ∷ xs) (h, hs) f = (f x h, All-map P Q xs hs f)

pub All-map2 :
    (P Q R : ℕ → Type 0) (xs : List ℕ)
    → All P xs
    → All Q xs
    → ((x : ℕ) → P x → Q x → R x)
    → All R xs
All-map2 P Q R [] h k f = tt
All-map2 P Q R (x ∷ xs) (h, hs) (k, ks) f = (f x h k, All-map2 P Q R xs hs ks f)

module _ (k : Kernel) (p : ℕ) (np : p ≢ (k.kin p).parent) where
  abbrev linked : ℕ → Kin
  linked = (set_links k p).kin

  abbrev mother : ℕ
  mother = (k.kin p).parent

  linked_self :
      (k.kin mother).cptr ≢ p
      → ((linked p).yptr ≡ 0)
        × ((linked p).parent ≡ mother)
        × ((linked p).optr ≡ (k.kin mother).cptr)
  unfolding set_links
  linked_self ne = ground (arith, np)

  linked-mother : (linked mother).cptr ≡ p
  unfolding set_links
  linked-mother = ground (arith, np)

  linked-older :
      (k.kin mother).cptr ≢ 0
      → (k.kin mother).cptr ≢ p
      → ((linked (k.kin mother).cptr).yptr ≡ p)
        × ((linked (k.kin mother).cptr).parent ≡ (k.kin (k.kin mother).cptr).parent)
        × ((linked (k.kin mother).cptr).optr ≡ (k.kin (k.kin mother).cptr).optr)
  unfolding set_links
  linked-older nz ne = ground (arith, np)

  linked-other : (z : ℕ) → z ≢ p → z ≢ (k.kin mother).cptr → SameLinks k.kin linked z
  unfolding set_links
  linked-other z ne ne' = ground (arith, np)

  linked-Siblings :
      (xs : List ℕ)
      → Siblings k.kin mother 0 (k.kin mother).cptr xs
      → Apart xs
      → All (λ z. z ≢ p) xs
      → Siblings linked mother p (k.kin mother).cptr xs
  linked-Siblings [] s a fresh = s
  linked-Siblings (x ∷ xs) (e, nz, ey, ep, s) (a, _) (ne, fresh) =
      let (hy, hp, ho) = linked-older (λ z. nz (sym e ∙ z)) (λ z. ne (sym e ∙ z)) in
      (
        e,
        nz,
        ap (λ c. (linked c).yptr) (sym e) ∙ hy,
        ap (λ c. (linked c).parent) (sym e) ∙ hp ∙ ap (λ c. (k.kin c).parent) e ∙ ep,
        subst (λ o. Siblings linked mother x o xs)
            (sym (ap (λ c. (linked c).optr) (sym e) ∙ ho ∙ ap (λ c. (k.kin c).optr) e))
            (Siblings-frame k.kin linked mother x (k.kin x).optr xs
              (All-map2 _ _ _ xs a fresh (λ z nx np'. linked-other z np' (λ w. nx (w ∙ e)))) s),
      )

  first-ne :
      (xs : List ℕ)
      → Siblings k.kin mother 0 (k.kin mother).cptr xs
      → p ≢ 0
      → All (λ z. z ≢ p) xs
      → (k.kin mother).cptr ≢ p
  first-ne [] s nz fresh e = nz (sym e ∙ s)
  first-ne (x ∷ xs) s nz fresh e = fresh.0 (sym s.0 ∙ e)

  -- A new process becomes the youngest child of its parent.
  pub set_links-Kids :
      (xs : List ℕ)
      → Kids k.kin mother xs
      → p ≢ 0
      → All (λ z. z ≢ p) xs
      → Kids linked mother (p ∷ xs)
  set_links-Kids xs (s, (a, b)) nz fresh =
      let (ey, ep, eo) = linked_self (first-ne xs s nz fresh) in
      (
        (
          linked-mother,
          nz,
          ey,
          ep,
          subst (λ o. Siblings linked mother p o xs) (sym eo) (linked-Siblings xs s b fresh),
        ),
        ((np, a), (fresh, b)),
      )
