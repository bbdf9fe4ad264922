-- ===== src/Strings/Text.antt =====
-- libs/string.c: the routines on strings. Memory holds each `char` as an unsigned byte.
use ucoreonrv.Prelude.{ℕ, zero, suc, ◌+◌, ◌&&◌, not, Option, none, some, ◌==◌, if◌then◌else◌}
use ucoreonrv.Prelude.Int.{ℤ, pos, sub_ℕ}
use ucoreonrv.Strings.{Memory, store}

unfoldable pub strlen : (fuel : ℕ) → Memory → (s : ℕ) → Option ℕ
strlen zero m s = none
strlen (suc fuel) m s =
    let rest = strlen fuel m (s + 1) in
    if m s == 0 then some 0 else elim rest [ none ↦ none | some n ↦ some (suc n) ]

unfoldable pub strnlen : Memory → (s len : ℕ) → ℕ
strnlen m s zero = 0
strnlen m s (suc len) = let rest = strnlen m (s + 1) len in if m s == 0 then 0 else suc rest

unfoldable pub strcpy : (fuel : ℕ) → Memory → (dst src : ℕ) → Option Memory
strcpy zero m d s = none
strcpy (suc fuel) m d s =
    let rest = strcpy fuel (store m d (m s)) (d + 1) (s + 1) in
    if m s == 0 then some (store m d (m s)) else rest

unfoldable pub strncpy : Memory → (dst src len : ℕ) → Memory
strncpy m d s zero = m
strncpy m d s (suc len) = strncpy (store m d (m s)) (d + 1) (if m s == 0 then s else s + 1) len

-- `strcpy(dst + strlen(dst), src)`
unfoldable pub strcat : (fuel : ℕ) → Memory → (dst src : ℕ) → Option Memory
unfolding strlen strcpy
strcat fuel m d s = elim (strlen fuel m d) [ none ↦ none | some n ↦ strcpy fuel m (d + n) s ]

unfoldable pub strcmp : (fuel : ℕ) → Memory → (s1 s2 : ℕ) → Option ℤ
strcmp zero m a b = none
strcmp (suc fuel) m a b =
    let rest = strcmp fuel m (a + 1) (b + 1) in
    if not (m a == 0) && m a == m b then rest else some (sub_ℕ (m a) (m b))

unfoldable pub strncmp : Memory → (s1 s2 n : ℕ) → ℤ
strncmp m a b zero = pos 0
strncmp m a b (suc n) =
    let rest = strncmp m (a + 1) (b + 1) n in
    if not (m a == 0) && m a == m b then rest else sub_ℕ (m a) (m b)

-- The outer `none` is the end of the fuel, the inner one is NULL.
unfoldable pub strchr : (fuel : ℕ) → Memory → (s c : ℕ) → Option (Option ℕ)
strchr zero m s c = none
strchr (suc fuel) m s c =
    let rest = strchr fuel m (s + 1) c in
    if m s == 0 then some none else if m s == c then some (some s) else rest

unfoldable pub strfind : (fuel : ℕ) → Memory → (s c : ℕ) → Option ℕ
strfind zero m s c = none
strfind (suc fuel) m s c =
    let rest = strfind fuel m (s + 1) c in
    if m s == 0 then some s else if m s == c then some s else rest
