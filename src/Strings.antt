-- ===== src/Strings.antt =====
-- libs/string.c: memory and strings. A memory gives the byte at each address, and the blocks that
-- the routines work on do not reach the end of the address space. The loops over a string that ends
-- at its null byte run on fuel, `none` when it is used up; a string of `n` bytes takes `n + 1` steps.
pub mod Blocks
pub mod Text
pub mod Number
pub mod Copying
pub mod Comparing
pub mod Tests
use ucoreonrv.Prelude.{ℕ, suc, zero, ◌+◌, ◌≡◌, ◌≢◌, List, [], ◌∷◌, ◌==◌, if◌then◌else◌}

abbrev pub Memory : Type 0
Memory = ℕ → ℕ

abbrev pub store : Memory → (addr byte : ℕ) → Memory
store m a v b = if b == a then v else m b

-- A string of `n` bytes, and its null byte.
abbrev pub IsText : Memory → (addr n : ℕ) → Type 0
IsText m s zero = m s ≡ 0
IsText m s (suc n) = (m s ≢ 0) × IsText m (s + 1) n

-- The bytes of a block.
abbrev pub bytes : Memory → (addr n : ℕ) → List ℕ
bytes m s zero = []
bytes m s (suc n) = m s ∷ bytes m (s + 1) n
