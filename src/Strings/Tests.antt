-- ===== src/Strings/Tests.antt =====
-- Runs of libs/string.c and kern/fs/iobuf.c: the bytes 7, 8, 9 and 0 from address 100 on, and the
-- same from 200 on.
use ucoreonrv.Prelude.{
  ℕ, ◌+◌, ◌-◌, ◌<◌, ◌≡◌, ◌↔◌, refl, false, some, arith, ltb, ◌==◌, if◌then◌else◌,
}
use ucoreonrv.Prelude.Int.{pos, negsuc}
use ucoreonrv.Strings.{Memory, IsText, bytes}
use ucoreonrv.Strings.Blocks.{memmove, memcmp}
use ucoreonrv.Strings.Number.{strtol}
use ucoreonrv.Strings.Copying.{inside, memmove_lem}
use ucoreonrv.Strings.Comparing.{memcmp-bytes}

abbrev letters : ℕ → ℕ
letters i = if i == 0 then 7 else if i == 1 then 8 else if i == 2 then 9 else 0

abbrev demo : Memory
demo a = if ltb a 200 then letters (a - 100) else letters (a - 200)

demo-IsText : IsText demo 100 3
demo-IsText = (
  (λ e. absurd (omega arith)),
  ((λ e. absurd (omega arith)), ((λ e. absurd (omega arith)), refl)),
)

other-IsText : IsText demo 200 3
other-IsText = (
  (λ e. absurd (omega arith)),
  ((λ e. absurd (omega arith)), ((λ e. absurd (omega arith)), refl)),
)

memmove_lem_example :
    ((i : ℕ) → i < 3 → memmove demo 101 100 3 (101 + i) ≡ demo (100 + i))
    × ((a : ℕ) → inside 101 3 a ≡ false → memmove demo 101 100 3 a ≡ demo a)
memmove_lem_example = memmove_lem demo 101 100 3

memcmp-bytes_example : (memcmp demo 100 200 3 ≡ pos 0) ↔ (bytes demo 100 3 ≡ bytes demo 200 3)
memcmp-bytes_example = memcmp-bytes demo 100 200 3

-- " -0x1F" and a null byte.
abbrev hex : Memory
hex a =
    if a == 0
    then 32
    else if a == 1
    then 45
    else if a == 2
    then 48
    else if a == 3
    then 120
    else if a == 4
    then 49
    else if a == 5
    then 70
    else 0

strtol-hex : strtol 10 hex 0 0 ≡ some (negsuc 30, 6)
unfolding strtol
strtol-hex = refl

-- Without a base, a leading 0 makes the number octal.
abbrev octal : Memory
octal a =
    if a == 0 then 48 else if a == 1 then 49 else if a == 2 then 55 else if a == 3 then 56 else 0

strtol-octal : strtol 10 octal 0 0 ≡ some (pos 15, 3)
unfolding strtol
strtol-octal = refl
