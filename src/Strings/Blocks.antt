-- ===== src/Strings/Blocks.antt =====
-- libs/string.c: the routines on blocks of memory.
use ucoreonrv.Prelude.{ℕ, zero, suc, ◌+◌, ◌-◌, ◌&&◌, ◌==◌, ltb, if◌then◌else◌}
use ucoreonrv.Prelude.Int.{ℤ, pos, sub_ℕ}
use ucoreonrv.Strings.{Memory, store}

unfoldable pub memset : Memory → (s c n : ℕ) → Memory
memset m s c zero = m
memset m s c (suc n) = memset (store m s c) (s + 1) c n

unfoldable pub memcpy : Memory → (dst src n : ℕ) → Memory
memcpy m d s zero = m
memcpy m d s (suc n) = memcpy (store m d (m s)) (d + 1) (s + 1) n

-- The loop of `memmove` that goes down from the ends of the blocks.
unfoldable pub move_down : Memory → (dst src n : ℕ) → Memory
move_down m d s zero = m
move_down m d s (suc n) = move_down (store m (d - 1) (m (s - 1))) (d - 1) (s - 1) n

-- The other loop of `memmove` is that of `memcpy`.
unfoldable pub memmove : Memory → (dst src n : ℕ) → Memory
unfolding move_down memcpy
memmove m d s n = if ltb s d && ltb d (s + n) then move_down m (d + n) (s + n) n else memcpy m d s n

unfoldable pub memcmp : Memory → (v1 v2 n : ℕ) → ℤ
memcmp m a b zero = pos 0
memcmp m a b (suc n) =
    let rest = memcmp m (a + 1) (b + 1) n in if m a == m b then rest else sub_ℕ (m a) (m b)
