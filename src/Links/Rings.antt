-- ===== src/Links/Rings.antt =====
-- libs/list.h: what a ring is.
use ucoreonrv.Prelude.{ℕ, ◌≡◌, ◌≢◌, ◌∙◌, List, [], ◌∷◌, ◌++◌, All}
use ucoreonrv.Links.{Links}

-- From the entry `a` over `xs` to the entry `b`, with the pointers right in both directions.
abbrev pub PathOf : Links → (a : ℕ) → List ℕ → (b : ℕ) → Type 0
PathOf s a [] b = (s.next a ≡ b) × (s.prev b ≡ a)
PathOf s a (x ∷ xs) b = (s.next a ≡ x) × (s.prev x ≡ a) × PathOf s x xs b

-- No entry twice.
abbrev pub Different : List ℕ → Type 0
Different [] = Unit
Different (x ∷ xs) = All (λ z. z ≢ x) xs × Different xs

-- The list with the head `h` has the entries `xs`.
abbrev pub Ring : Links → (h : ℕ) → List ℕ → Type 0
Ring s h xs = PathOf s h xs h × Different (h ∷ xs)

abbrev pub last_of : ℕ → List ℕ → ℕ
last_of a [] = a
last_of a (x ∷ xs) = last_of x xs

abbrev pub first_of : List ℕ → ℕ → ℕ
first_of [] b = b
first_of (x ∷ xs) b = x

pub last_of-All : (P : ℕ → Type 0) (a : ℕ) (xs : List ℕ) → P a → All P xs → P (last_of a xs)
last_of-All P a [] h k = h
last_of-All P a (x ∷ xs) h (k, ks) = last_of-All P x xs k ks

pub first_of-All : (P : ℕ → Type 0) (xs : List ℕ) (b : ℕ) → All P xs → P b → P (first_of xs b)
first_of-All P [] b h k = k
first_of-All P (x ∷ xs) b (h, _) k = h

pub All-left : (P : ℕ → Type 0) (xs ys : List ℕ) → All P (xs ++ ys) → All P xs
All-left P [] ys h = tt
All-left P (x ∷ xs) ys (h, hs) = (h, All-left P xs ys hs)

pub All-right : (P : ℕ → Type 0) (xs ys : List ℕ) → All P (xs ++ ys) → All P ys
All-right P [] ys h = h
All-right P (x ∷ xs) ys (_, hs) = All-right P xs ys hs

pub All-insert :
    (P : ℕ → Type 0) (xs : List ℕ) (e : ℕ) (ys : List ℕ)
    → P e
    → All P (xs ++ ys)
    → All P (xs ++ (e ∷ ys))
All-insert P [] e ys k h = (k, h)
All-insert P (x ∷ xs) e ys k (h, hs) = (h, All-insert P xs e ys k hs)

pub All-remove :
    (P : ℕ → Type 0) (xs : List ℕ) (e : ℕ) (ys : List ℕ) → All P (xs ++ (e ∷ ys)) → All P (xs ++ ys)
All-remove P [] e ys (_, h) = h
All-remove P (x ∷ xs) e ys (h, hs) = (h, All-remove P xs e ys hs)

-- Pointers that are as they were make the same path.
pub PathOf-frame :
    (s t : Links) (a : ℕ) (xs : List ℕ) (b : ℕ)
    → t.next a ≡ s.next a
    → All (λ z. (t.next z ≡ s.next z) × (t.prev z ≡ s.prev z)) xs
    → t.prev b ≡ s.prev b
    → PathOf s a xs b
    → PathOf t a xs b
PathOf-frame s t a [] b ha h hb (n, p) = (ha ∙ n, hb ∙ p)
PathOf-frame s t a (x ∷ xs) b ha ((hn, hp), h) hb (n, p, rest) =
    (ha ∙ n, hp ∙ p, PathOf-frame s t x xs b hn h hb rest)

pub All-both :
    (P Q R : ℕ → Type 0) (xs : List ℕ)
    → All P xs
    → All Q xs
    → ((x : ℕ) → P x → Q x → R x)
    → All R xs
All-both P Q R [] h k f = tt
All-both P Q R (x ∷ xs) (h, hs) (k, ks) f = (f x h k, All-both P Q R xs hs ks f)

-- The two sides of a place in the path point at each other.
pub PathOf-at :
    (s : Links) (a : ℕ) (pre ys : List ℕ) (b : ℕ)
    → PathOf s a (pre ++ ys) b
    → (s.next (last_of a pre) ≡ first_of ys b) × (s.prev (first_of ys b) ≡ last_of a pre)
PathOf-at s a [] [] b h = h
PathOf-at s a [] (y ∷ ys) b (n, p, _) = (n, p)
PathOf-at s a (x ∷ pre) ys b (_, _, rest) = PathOf-at s x pre ys b rest
