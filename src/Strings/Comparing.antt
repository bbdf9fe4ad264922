-- ===== src/Strings/Comparing.antt =====
-- libs/string.c: what the measuring and comparing routines answer.
use ucoreonrv.Prelude.{
  ℕ, zero, suc, ◌+◌, ◌<◌, ◌≡◌, ◌↔◌, some, arith, ltb, ℕ_discrete, if◌then◌else◌,
}
use ucoreonrv.Prelude.Int.{ℤ, pos, sub_ℕ}
use ucoreonrv.Strings.{Memory, IsText, bytes}
use ucoreonrv.Strings.Blocks.{memcmp}
use ucoreonrv.Strings.Text.{strlen, strnlen, strcmp}

-- With more fuel than the string is long, `strlen` is its length, and `strnlen` the smaller of its length and the limit.
strlen_lem :
    (fuel : ℕ) (m : Memory) (s n len : ℕ)
    → IsText m s n
    → n < fuel
    → (strlen fuel m s ≡ some n) × (strnlen m s len ≡ (if ltb n len then n else len))
unfolding strlen strnlen
strlen_lem fuel m s n len t l = (measured fuel s n t l, bounded s n len t)
  where
    measured : (fuel s n : ℕ) → IsText m s n → n < fuel → strlen fuel m s ≡ some n
    measured zero s n t l = absurd (omega arith)
    measured (suc fuel) s zero t l = ground arith
    measured (suc fuel) s (suc n) (ne, t) l = ground (arith, ne, measured fuel (s + 1) n t)

    bounded : (s n len : ℕ) → IsText m s n → strnlen m s len ≡ (if ltb n len then n else len)
    bounded s n zero t = ground arith
    bounded s zero (suc len) t = ground arith
    bounded s (suc n) (suc len) (ne, t) = ground (arith, ne, bounded (s + 1) n len t)

-- `memcmp` answers 0 exactly if the blocks hold the same bytes.
pub memcmp-bytes : (m : Memory) (a b n : ℕ) → (memcmp m a b n ≡ pos 0) ↔ (bytes m a n ≡ bytes m b n)
unfolding memcmp
memcmp-bytes m a b zero = ground arith
memcmp-bytes m a b (suc n) = ground (arith, memcmp-bytes m (a + 1) (b + 1) n)

-- With more fuel than the first string is long, `strcmp` of two strings ends, and answers 0 exactly if they are the same.
strcmp-bytes :
    (fuel : ℕ) (m : Memory) (a b n k : ℕ)
    → IsText m a n
    → IsText m b k
    → n < fuel
    → (r : ℤ) × (strcmp fuel m a b ≡ some r) × ((r ≡ pos 0) ↔ (bytes m a n ≡ bytes m b k))
unfolding strcmp
strcmp-bytes zero m a b n k t u l = absurd (omega arith)
strcmp-bytes (suc fuel) m a b zero zero t u l = (pos 0, ground arith, ground arith)
strcmp-bytes (suc fuel) m a b zero (suc k) t (ne, u) l =
    (sub_ℕ (m a) (m b), ground (arith, ne), ground (arith, ne))
strcmp-bytes (suc fuel) m a b (suc n) zero (ne, t) u l =
    (sub_ℕ (m a) (m b), ground (arith, ne), ground (arith, ne))
strcmp-bytes (suc fuel) m a b (suc n) (suc k) (ne, t) (ne', u) l =
    let (r, ends, same) = strcmp-bytes fuel m (a + 1) (b + 1) n k t u (omega arith) in
    elim (ℕ_discrete (m a) (m b)) [
      | yes e ↦ (r, ground (arith, ne, ends), ground (arith, same, e))
      | no e ↦ (sub_ℕ (m a) (m b), ground (arith, ne, e), ground (arith, e))
    ]
