-- ===== src/Strings/Copying.antt =====
-- libs/string.c: what the copying routines leave in memory.
use ucoreonrv.Prelude.{
  ℕ, zero, suc, ◌+◌, ◌-◌, ◌≤◌, ◌<◌, ◌≡◌, ◌≢◌, ◌⊎◌, inl, inr, refl, ap, ◌∙◌, Bool-cases, dec_lt,
  Bool, true, false, ◌&&◌, some, arith, ltb, leb, if◌then◌else◌,
}
use ucoreonrv.Strings.{Memory, store, IsText}
use ucoreonrv.Strings.Blocks.{memset, memcpy, move_down, memmove}
use ucoreonrv.Strings.Text.{strcpy}

-- `a` lies in the block of `n` bytes from `d` on.
abbrev pub inside : (d n a : ℕ) → Bool
inside d n a = leb d a && ltb a (d + n)

pub memset_lem : (m : Memory) (s c n a : ℕ) → memset m s c n a ≡ (if inside s n a then c else m a)
unfolding memset
memset_lem m s c zero a = ground arith
memset_lem m s c (suc n) a = ground (arith, memset_lem (store m s c) (s + 1) c n a)

memcpy-outside : (m : Memory) (d s n a : ℕ) → inside d n a ≡ false → memcpy m d s n a ≡ m a
unfolding memcpy
memcpy-outside m d s zero a h = refl
memcpy-outside m d s (suc n) a h =
    ground (arith, memcpy-outside (store m d (m s)) (d + 1) (s + 1) n a)

store-other : (m : Memory) (a v b : ℕ) → b ≢ a → store m a v b ≡ m b
store-other m a v b ne = ground arith

store-same : (m : Memory) (a v : ℕ) → store m a v a ≡ v
store-same m a v = ground arith

memcpy-inside :
    (m : Memory) (d s n i a : ℕ)
    → (d ≤ s) ⊎ (s + n ≤ d)
    → i < n
    → a ≡ d + i
    → memcpy m d s n a ≡ m (s + i)
unfolding memcpy
memcpy-inside m d s zero i a h k e = absurd (omega arith)
memcpy-inside m d s (suc n) zero a h k e =
    memcpy-outside (store m d (m s)) (d + 1) (s + 1) n a (ground arith)
    ∙ (ap (store m d (m s)) (omega (arith, e)) ∙ store-same m d (m s))
    ∙ ap m (omega arith)
memcpy-inside m d s (suc n) (suc i) a h k e =
    memcpy-inside (store m d (m s)) (d + 1) (s + 1) n i a (ground arith) (omega arith)
      (omega (arith, e))
    ∙ store-other m d (m s) (s + 1 + i) (λ z. absurd (ground arith))
    ∙ ap m (omega arith)

down-step :
    (m : Memory) (d s n : ℕ)
    → move_down m (d + suc n) (s + suc n) (suc n)
      ≡ move_down (store m (d + n) (m (s + n))) (d + n) (s + n) n
unfolding move_down
down-step m d s n =
    ap (λ e. move_down (store m e (m (s + suc n - 1))) e (s + suc n - 1) n) (omega arith)
    ∙ ap (λ e. move_down (store m (d + n) (m e)) (d + n) e n) (omega arith)

down-outside :
    (m : Memory) (d s n a : ℕ) → inside d n a ≡ false → move_down m (d + n) (s + n) n a ≡ m a
unfolding move_down
down-outside m d s zero a h = refl
down-outside m d s (suc n) a h =
    ap (λ f. f a) (down-step m d s n)
    ∙ down-outside (store m (d + n) (m (s + n))) d s n a (ground arith)
    ∙ store-other m (d + n) (m (s + n)) a (λ z. absurd (ground arith))

down-inside :
    (m : Memory) (d s n i : ℕ) → s < d → i < n → move_down m (d + n) (s + n) n (d + i) ≡ m (s + i)
down-inside m d s zero i h k = absurd (omega arith)
down-inside m d s (suc n) i h k = ap (λ f. f (d + i)) (down-step m d s n) ∙ elim (dec_lt i n) [
  | yes l ↦
      down-inside (store m (d + n) (m (s + n))) d s n i h l
      ∙ store-other m (d + n) (m (s + n)) (s + i) (λ z. absurd (omega (arith, z)))
  | no l ↦
      down-outside (store m (d + n) (m (s + n))) d s n (d + i) (ground arith)
      ∙ (ap (store m (d + n) (m (s + n))) (omega arith) ∙ store-same m (d + n) (m (s + n)))
      ∙ ap m (omega arith)
]

-- Also where the blocks overlap, `memmove` puts the bytes that the source block held into the
-- destination block, and changes no other byte.
pub memmove_lem :
    (m : Memory) (d s n : ℕ)
    → ((i : ℕ) → i < n → memmove m d s n (d + i) ≡ m (s + i))
      × ((a : ℕ) → inside d n a ≡ false → memmove m d s n a ≡ m a)
unfolding memmove
memmove_lem m d s n = elim (Bool-cases (ltb s d && ltb d (s + n))) [
  | inl t ↦ (
    (λ i l. ap (λ f. f (d + i)) (goes_down t) ∙ down-inside m d s n i (ground arith) l),
    λ a h. ap (λ f. f a) (goes_down t) ∙ down-outside m d s n a h,
  )
  | inr t ↦ (
    (λ i l.
        ap (λ f. f (d + i)) (goes_up t) ∙ memcpy-inside m d s n i (d + i) (ground arith) l refl),
    λ a h. ap (λ f. f a) (goes_up t) ∙ memcpy-outside m d s n a h,
  )
]
  where
    goes_down : (ltb s d && ltb d (s + n)) ≡ true → memmove m d s n ≡ move_down m (d + n) (s + n) n
    goes_down t = ground arith

    goes_up : (ltb s d && ltb d (s + n)) ≡ false → memmove m d s n ≡ memcpy m d s n
    goes_up t = ground arith

IsText-store :
    (m : Memory) (d v s n : ℕ) → (d < s) ⊎ (s + n < d) → IsText m s n → IsText (store m d v) s n
IsText-store m d v s zero h t = ground arith
IsText-store m d v s (suc n) h (ne, t) =
    (ground arith, IsText-store m d v (s + 1) n (ground arith) t)

-- Of a string that the destination does not run into, with more fuel than it is long, `strcpy` copies exactly the bytes and the
-- null byte, as `memcpy` does.
strcpy-memcpy :
    (fuel : ℕ) (m : Memory) (d s n : ℕ)
    → IsText m s n
    → n < fuel
    → (d < s) ⊎ (s + n < d)
    → strcpy fuel m d s ≡ some (memcpy m d s (suc n))
unfolding strcpy memcpy
strcpy-memcpy zero m d s n t l h = absurd (omega arith)
strcpy-memcpy (suc fuel) m d s zero t l h = ground arith
strcpy-memcpy (suc fuel) m d s (suc n) (ne, t) l h = ground (
  arith,
  ne,
  strcpy-memcpy fuel (store m d (m s)) (d + 1) (s + 1) n
      (IsText-store m d (m s) (s + 1) n (ground arith) t) (omega arith) (ground arith),
)
