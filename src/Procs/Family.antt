-- ===== src/Procs/Family.antt =====
-- kern/process/proc.c: `remove_links` takes a process out of its parent's list of children.
use ucoreonrv.Prelude.{
  ℕ, ◌≡◌, ◌≢◌, sym, subst, List, [], ◌∷◌, ◌++◌, All, arith, ◌==◌, if◌then◌else◌,
}
use ucoreonrv.Procs.Kernel.{Kin, Kernel, remove_links}
use ucoreonrv.Procs.Children.{Siblings, Apart, SameLinks}

pub All-right : (P : ℕ → Type 0) (xs ys : List ℕ) → All P (xs ++ ys) → All P ys
All-right P [] ys h = h
All-right P (x ∷ xs) ys (h, hs) = All-right P xs ys hs

pub All-left : (P : ℕ → Type 0) (xs ys : List ℕ) → All P (xs ++ ys) → All P xs
All-left P [] ys h = tt
All-left P (x ∷ xs) ys (h, hs) = (h, All-left P xs ys hs)

pub All-drop :
    (P : ℕ → Type 0) (xs : List ℕ) (p : ℕ) (ys : List ℕ) → All P (xs ++ (p ∷ ys)) → All P (xs ++ ys)
All-drop P [] p ys (h, hs) = hs
All-drop P (x ∷ xs) p ys (h, hs) = (h, All-drop P xs p ys hs)

pub Apart-right : (xs ys : List ℕ) → Apart (xs ++ ys) → Apart ys
Apart-right [] ys a = a
Apart-right (x ∷ xs) ys (_, a) = Apart-right xs ys a

pub Apart-drop : (xs : List ℕ) (p : ℕ) (ys : List ℕ) → Apart (xs ++ (p ∷ ys)) → Apart (xs ++ ys)
Apart-drop [] p ys (_, a) = a
Apart-drop (x ∷ xs) p ys (h, a) = (All-drop _ xs p ys h, Apart-drop xs p ys a)

-- No entry before `p` is `p`.
pub before-ne : (xs : List ℕ) (p : ℕ) (ys : List ℕ) → Apart (xs ++ (p ∷ ys)) → All (λ z. p ≢ z) xs
before-ne [] p ys a = tt
before-ne (x ∷ xs) p ys (h, a) = ((All-right _ xs (p ∷ ys) h).0, before-ne xs p ys a)

abbrev pub last_of : ℕ → List ℕ → ℕ
last_of a [] = a
last_of a (x ∷ xs) = last_of x xs

pub last_of-All : (P : ℕ → Type 0) (a : ℕ) (xs : List ℕ) → P a → All P xs → P (last_of a xs)
last_of-All P a [] h k = h
last_of-All P a (x ∷ xs) h (k, ks) = last_of-All P x xs k ks

-- The first pointer of a list of siblings is null or one of them.
pub pointer-All :
    (P : ℕ → Type 0) (kin : ℕ → Kin) (par y c : ℕ) (xs : List ℕ)
    → Siblings kin par y c xs
    → P 0
    → All P xs
    → P c
pointer-All P kin par y c [] s h k = subst P (sym s) h
pointer-All P kin par y c (x ∷ xs) s h (k, ks) = subst P (sym s.0) k

-- The part of the list from `p` on.
pub from-Siblings :
    (kin : ℕ → Kin) (par a c p : ℕ) (pre ys : List ℕ)
    → Siblings kin par a c (pre ++ (p ∷ ys))
    → ((kin p).yptr ≡ last_of a pre)
      × ((kin p).parent ≡ par)
      × (p ≢ 0)
      × Siblings kin par p (kin p).optr ys
from-Siblings kin par a c p [] ys (e, nz, ey, ep, s) = (ey, ep, nz, s)
from-Siblings kin par a c p (x ∷ pre) ys (e, nz, ey, ep, s) =
    from-Siblings kin par x (kin x).optr p pre ys s

module _ (k : Kernel) (p : ℕ) where
  abbrev pub older : ℕ
  older = (k.kin p).optr

  abbrev pub younger : ℕ
  younger = (k.kin p).yptr

  abbrev pub mother : ℕ
  mother = (k.kin p).parent

  abbrev pub rest : ℕ → Kin
  rest = (remove_links k p).kin

  module _ (no : older ≢ p) (ny : younger ≢ p) where
    pub rest-other : (z : ℕ) → z ≢ older → z ≢ younger → SameLinks k.kin rest z
    unfolding remove_links
    rest-other z a b = ground (arith, no, ny)

    pub rest-older :
        older ≢ 0
        → older ≢ younger
        → ((rest older).yptr ≡ younger)
          × ((rest older).parent ≡ (k.kin older).parent)
          × ((rest older).optr ≡ (k.kin older).optr)
    unfolding remove_links
    rest-older nz d = ground (arith, no, ny)

    pub rest-younger :
        younger ≢ 0
        → older ≢ younger
        → ((rest younger).yptr ≡ (k.kin younger).yptr)
          × ((rest younger).parent ≡ (k.kin younger).parent)
          × ((rest younger).optr ≡ older)
    unfolding remove_links
    rest-younger nz d = ground (arith, no, ny)

    pub rest-mother : (rest mother).cptr ≡ (if younger == 0 then older else (k.kin mother).cptr)
    unfolding remove_links
    rest-mother = ground (arith, no, ny)
