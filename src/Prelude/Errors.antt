-- ===== src/Prelude/Errors.antt =====
-- libs/error.h: the error codes that the modelled functions return. A failed `assert` or a `panic`
-- is `fault`, after which nothing runs.
use Prim.Native.Nat.{ℕ, ◌-◌}
use ucoreonrv.Prelude.Int.{ℤ, negsuc}
use mathlib.Core.Path.{◌≡◌, refl}
use mathlib.Core.Bool.{Bool, true, false}

-- `-E_X`, for the code of `E_X`.
abbrev pub err : ℕ → ℤ
err e = negsuc (e - 1)

abbrev pub e_bad_proc : ℕ
e_bad_proc = 2

abbrev pub e_inval : ℕ
e_inval = 3

abbrev pub e_no_mem : ℕ
e_no_mem = 4

abbrev pub e_no_free_proc : ℕ
e_no_free_proc = 5

abbrev pub e_killed : ℕ
e_killed = 9

abbrev pub e_busy : ℕ
e_busy = 15

abbrev pub e_noent : ℕ
e_noent = 16

abbrev pub e_isdir : ℕ
e_isdir = 17

abbrev pub e_max_open : ℕ
e_max_open = 22

abbrev pub e_exists : ℕ
e_exists = 23

-- A run that may stop at an assertion.
pub data Run {ℓ} (A : Type ℓ) : Type ℓ where
  fault : Run A
  done : A → Run A

infixl 5 ◌>>=◌ ◌>>◌
abbrev pub ◌>>=◌ {ℓ κ} : {A : Type ℓ} {B : Type κ} → Run A → (A → Run B) → Run B
fault >>= f = fault
done a >>= f = f a

abbrev pub ◌>>◌ {ℓ} : {B : Type ℓ} → Run (Unit {0}) → Run B → Run B
m >> k = m >>= λ _. k

-- `assert(b)`
abbrev pub assert : Bool → Run (Unit {0})
assert true = done tt
assert false = fault

pub >>=-eq-done {ℓ κ} :
    {A : Type ℓ} {B : Type κ} (m : Run A) (f : A → Run B) {b : B}
    → (m >>= f) ≡ done b
    → (a : A) × (m ≡ done a) × (f a ≡ done b)
>>=-eq-done fault f h = cc
>>=-eq-done (done a) f h = (a, refl, h)

-- The run reaches its end, and there `P` holds.
abbrev pub Ends {ℓ} : {A : Type ℓ} → (A → Type 0) → Run A → Type 0
Ends P (done a) = P a
Ends P fault = ⊥

pub Ends-bind {ℓ κ} :
    {A : Type ℓ} {B : Type κ} (P : A → Type 0) (Q : B → Type 0) (m : Run A) (f : A → Run B)
    → Ends P m
    → ((a : A) → P a → Ends Q (f a))
    → Ends Q (m >>= f)
Ends-bind P Q fault f h k = absurd h
Ends-bind P Q (done a) f h k = k a h

pub Ends-mono {ℓ} :
    {A : Type ℓ} (P Q : A → Type 0) (m : Run A) → Ends P m → ((a : A) → P a → Q a) → Ends Q m
Ends-mono P Q fault h k = h
Ends-mono P Q (done a) h k = k a h
