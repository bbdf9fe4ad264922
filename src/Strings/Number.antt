-- ===== src/Strings/Number.antt =====
-- libs/string.c: `strtol`. The value is that of a sum without bound; the source does not look for
-- overflow of its `long` either.
use ucoreonrv.Prelude.{
  ℕ, zero, suc, ◌+◌, ◌-◌, ◌*◌, Bool, true, false, ◌&&◌, ◌||◌, Option, none, some, ◌==◌, leb,
  if◌then◌else◌,
}
use ucoreonrv.Prelude.Int.{ℤ, pos, sub_ℕ}
use ucoreonrv.Strings.{Memory}

-- Behind the blanks and tabs, `none` if the fuel is used up.
unfoldable pub skip_blanks : (fuel : ℕ) → Memory → (s : ℕ) → Option ℕ
skip_blanks zero m s = none
skip_blanks (suc fuel) m s =
    let rest = skip_blanks fuel m (s + 1) in if m s == 32 || m s == 9 then rest else some s

-- The sign, as the address behind it and whether it is a minus.
abbrev pub sign : Memory → ℕ → ℕ × Bool
sign m s = if m s == 43 then (s + 1, false) else if m s == 45 then (s + 1, true) else (s, false)

-- The address behind the prefix of the base, and the base.
abbrev pub prefix : Memory → (s base : ℕ) → ℕ × ℕ
prefix m s base =
    if (base == 0 || base == 16) && (m s == 48 && m (s + 1) == 120)
    then (s + 2, 16)
    else if base == 0 && m s == 48
    then (s + 1, 8)
    else if base == 0
    then (s, 10)
    else (s, base)

-- The digit that a character stands for.
unfoldable pub digit : ℕ → Option ℕ
digit c =
    if leb 48 c && leb c 57
    then some (c - 48)
    else if leb 97 c && leb c 122
    then some (c - 97 + 10)
    else if leb 65 c && leb c 90
    then some (c - 65 + 10)
    else none

-- The character is a digit of the base.
abbrev pub digit_in : (base : ℕ) → Option ℕ → Option ℕ
digit_in base none = none
digit_in base (some d) = if leb base d then none else some d

-- The loop over the digits: the value, and the address behind them.
unfoldable pub digits : (fuel : ℕ) → Memory → (s base val : ℕ) → Option (ℕ × ℕ)
unfolding digit
digits zero m s base val = none
digits (suc fuel) m s base val = elim (digit_in base (digit (m s))) [
  | none ↦ some (val, s)
  | some d ↦ digits fuel m (s + 1) base (val * base + d)
]

-- The value, and what `*endptr` receives.
unfoldable pub strtol : (fuel : ℕ) → Memory → (s base : ℕ) → Option (ℤ × ℕ)
unfolding skip_blanks digits
strtol fuel m s base = elim (skip_blanks fuel m s) [
  | none ↦ none
  | some s' ↦
      let (signed, neg) = sign m s' in
      let (start, radix) = prefix m signed base in
      elim (digits fuel m start radix 0) [
        | none ↦ none
        | some r ↦ some ((if neg then sub_ℕ 0 r.0 else pos r.0), r.1)
      ]
]
