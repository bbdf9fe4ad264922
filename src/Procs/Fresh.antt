-- ===== src/Procs/Fresh.antt =====
-- kern/process/proc.c: `get_pid` ends, and gives a pid that no process has.
use ucoreonrv.Prelude.{
  ℕ, zero, suc, ◌+◌, ◌-◌, ◌≤◌, ◌<◌, ◌≡◌, ◌≢◌, ◌⊎◌, inl, inr, length, dec_lt, ℕ_discrete, sym, ap,
  ◌∙◌, subst, Bool, true, false, ◌&&◌, Option, none, some, List, [], ◌∷◌, All, arith, ltb, leb,
  ◌==◌, if◌then◌else◌,
}
use ucoreonrv.Procs.Pids.{max_pid, max_process, Pass, again, settled, pid_pass, repeat, get_pid}

-- No process has a pid from `last` on below `next`.
abbrev pub Clear : (last next : ℕ) → List ℕ → Type 0
Clear last next = All (λ p. (p < last) ⊎ (next ≤ p))

-- The steps from `last` up to the unused pid `f`, around the end of the range.
abbrev gap : (last f : ℕ) → ℕ
gap last f = if leb last f then f - last else f + max_pid - 1 - last

-- A pass that has to be repeated has come closer to `f`; any other leaves the range above the last
-- pid clear.
abbrev Passes : ℕ → List ℕ → (last next : ℕ) → Pass → Type 0
Passes f ps last next (again last') = (1 ≤ last') × (last' < max_pid) × (gap last' f < gap last f)
Passes f ps last next (settled last' next') =
    (last ≤ last') × (last' < next') × (next' ≤ next) × Clear last' next' ps

bumped-Passes :
    (f p : ℕ) (ps : List ℕ) (last next : ℕ) (r : Pass)
    → p ≡ last
    → p ≢ f
    → last + 1 < next
    → next ≤ max_pid
    → Passes f ps (last + 1) next r
    → Passes f (p ∷ ps) last next r
bumped-Passes f p ps last next (again last') e ne l m (h, h', g) = (h, h', ground arith)
bumped-Passes f p ps last next (settled last' next') e ne l m (h, h', h'', c) =
    (omega arith, h', h'', (inl (omega (arith, e)), c))

kept-Passes :
    (f p : ℕ) (ps : List ℕ) (last next lower : ℕ) (r : Pass)
    → lower ≤ next
    → (p < last) ⊎ (lower ≤ p)
    → Passes f ps last lower r
    → Passes f (p ∷ ps) last next r
kept-Passes f p ps last next lower (again last') l h g = g
kept-Passes f p ps last next lower (settled last' next') l h (k, k', k'', c) =
    (k, k', omega arith, (ground (arith, h), c))

pid_pass-Passes :
    (f : ℕ) (ps : List ℕ) (last next : ℕ)
    → 1 ≤ f
    → f < max_pid
    → All (λ p. p ≢ f) ps
    → 1 ≤ last
    → last < next
    → next ≤ max_pid
    → Passes f ps last next (pid_pass ps last next)
unfolding pid_pass
pid_pass-Passes f [] last next f1 f2 free l1 l2 l3 = (omega arith, l2, omega arith, tt)
pid_pass-Passes f (p ∷ ps) last next f1 f2 (ne, free) l1 l2 l3 = elim (ℕ_discrete p last) [
  | yes e ↦ elim (dec_lt (last + 1) next) [
    | yes l ↦ subst (Passes f (p ∷ ps) last next) (sym (bumps e l)) (
        bumped-Passes f p ps last next _ e ne l l3
          (pid_pass-Passes f ps (last + 1) next f1 f2 free (omega arith) l l3))
    | no l ↦
        subst (Passes f (p ∷ ps) last next) (sym (repeats e l))
          (ground arith, ground arith, ground (arith, ne))
  ]
  | no d ↦ subst (Passes f (p ∷ ps) last next) (sym (keeps d)) (
      kept-Passes f p ps last next lower _ (ground arith) (ground arith)
        (pid_pass-Passes f ps last lower f1 f2 free l1 (ground arith) (ground arith)))
]
  where
    lower : ℕ
    lower = if ltb last p && ltb p next then p else next

    bumps : p ≡ last → last + 1 < next → pid_pass (p ∷ ps) last next ≡ pid_pass ps (last + 1) next
    bumps e l = ground arith

    repeats :
        p ≡ last
        → ¬ (last + 1 < next)
        → pid_pass (p ∷ ps) last next ≡ again (if leb max_pid (last + 1) then 1 else last + 1)
    repeats e l = ground arith

    keeps : p ≢ last → pid_pass (p ∷ ps) last next ≡ pid_pass ps last lower
    keeps d = ground arith

-- The answer is an unused pid, and the pids from it on below the new `next_safe` are clear.
abbrev pub IsFresh : List ℕ → Option (ℕ × ℕ) → Type 0
IsFresh ps none = ⊥
IsFresh ps (some (last, next)) =
    (1 ≤ last) × (last < next) × (next ≤ max_pid) × All (λ p. p ≢ last) ps × Clear last next ps

Clear-fresh :
    (last next : ℕ) (ps : List ℕ) → last < next → Clear last next ps → All (λ p. p ≢ last) ps
Clear-fresh last next [] l c = tt
Clear-fresh last next (p ∷ ps) l (h, c) = (ground (arith, h), Clear-fresh last next ps l c)

round-IsFresh :
    (fuel f : ℕ) (ps : List ℕ) (last : ℕ) (r : Pass)
    → 1 ≤ last
    → gap last f < suc fuel
    → Passes f ps last max_pid r
    → ((last' : ℕ)
        → 1 ≤ last'
        → last' < max_pid
        → gap last' f < fuel
        → IsFresh ps (repeat fuel ps last'))
    → IsFresh ps
        (elim r [ again last' ↦ repeat fuel ps last' | settled last' next' ↦ some (last', next') ])
round-IsFresh fuel f ps last (again last') l g (h, h', k) later = later last' h h' (omega arith)
round-IsFresh fuel f ps last (settled last' next') l g (h, h', h'', c) later =
    (omega arith, h', h'', Clear-fresh last' next' ps h' c, c)

repeat-IsFresh :
    (fuel f : ℕ) (ps : List ℕ) (last : ℕ)
    → 1 ≤ f
    → f < max_pid
    → All (λ p. p ≢ f) ps
    → 1 ≤ last
    → last < max_pid
    → gap last f < fuel
    → IsFresh ps (repeat fuel ps last)
unfolding repeat
repeat-IsFresh zero f ps last f1 f2 free l1 l2 g = absurd (omega arith)
repeat-IsFresh (suc fuel) f ps last f1 f2 free l1 l2 g =
    round-IsFresh fuel f ps last (pid_pass ps last max_pid) l1 g
      (pid_pass-Passes f ps last max_pid f1 f2 free l1 l2 (omega arith))
      (λ last' h h' k. repeat-IsFresh fuel f ps last' f1 f2 free h h' k)

-- What `get_pid` keeps from call to call: the pids above the last one, and below `next_safe`, are
-- clear, also as processes leave and the one with the last pid joins.
abbrev pub IsSafe : List ℕ → (last next : ℕ) → Type 0
IsSafe ps last next = (1 ≤ last) × (last ≤ max_pid) × (next ≤ max_pid) × Clear (last + 1) next ps

-- As long as some pid is unused, `get_pid` ends. The pid it gives is from 1 on below MAX_PID and no
-- process has it, and what it keeps is right for the next call.
get_pid-IsFresh :
    (ps : List ℕ) (last next f : ℕ)
    → IsSafe ps last next
    → 1 ≤ f
    → f < max_pid
    → All (λ p. p ≢ f) ps
    → IsFresh ps (get_pid ps last next)
unfolding get_pid
get_pid-IsFresh ps last next f (s1, s2, s3, c) f1 f2 free = elim (dec_lt (last + 1) max_pid) [
  | no l ↦
      subst (IsFresh ps) (sym (wraps l))
        (repeat-IsFresh max_pid f ps 1 f1 f2 free (omega arith) (omega arith) (ground arith))
  | yes l ↦ elim (dec_lt (last + 1) next) [
    | no k ↦
        subst (IsFresh ps) (sym (looks l k))
          (repeat-IsFresh max_pid f ps (last + 1) f1 f2 free (omega arith) l (ground arith))
    | yes k ↦
        subst (IsFresh ps) (sym (takes l k))
          (omega arith, k, s3, Clear-fresh (last + 1) next ps k c, c)
  ]
]
  where
    high : ¬ (last + 1 < max_pid) → leb max_pid (last + 1) ≡ true
    high l = ground arith

    low : last + 1 < max_pid → leb max_pid (last + 1) ≡ false
    low l = ground arith

    leb-true : ¬ (last + 1 < next) → leb next (last + 1) ≡ true
    leb-true l = ground arith

    leb-false : last + 1 < next → leb next (last + 1) ≡ false
    leb-false l = ground arith

    from : Bool → Bool → Option (ℕ × ℕ)
    from b c =
        if b
        then repeat max_pid ps 1
        else if c
        then repeat max_pid ps (last + 1)
        else some (last + 1, next)

    wraps : ¬ (last + 1 < max_pid) → get_pid ps last next ≡ repeat max_pid ps 1
    wraps l = ap (λ b. from b (leb next (last + 1))) (high l)

    looks :
        last + 1 < max_pid
        → ¬ (last + 1 < next)
        → get_pid ps last next ≡ repeat max_pid ps (last + 1)
    looks l k = ap (λ b. from b (leb next (last + 1))) (low l) ∙ ap (from false) (leb-true k)

    takes : last + 1 < max_pid → last + 1 < next → get_pid ps last next ≡ some (last + 1, next)
    takes l k = ap (λ b. from b (leb next (last + 1))) (low l) ∙ ap (from false) (leb-false k)

-- Of `n` numbers, a list of fewer than `n` leaves one out.
drop_all : ℕ → List ℕ → List ℕ
drop_all n [] = []
drop_all n (p ∷ ps) = let rest = drop_all n ps in if p == n then rest else p ∷ rest

length-drop_all : (n : ℕ) (ps : List ℕ) → length (drop_all n ps) ≤ length ps
unfolding drop_all
length-drop_all n [] = omega arith
length-drop_all n (p ∷ ps) = ground (arith, length-drop_all n ps)

-- A number is not in the list, or dropping it makes the list shorter.
absent : (n : ℕ) (ps : List ℕ) → All (λ p. p ≢ n) ps ⊎ (length (drop_all n ps) < length ps)
unfolding drop_all
absent n [] = inl tt
absent n (p ∷ ps) = elim (ℕ_discrete p n) [
  | yes e ↦ inr (ground (arith, length-drop_all n ps))
  | no d ↦ elim (absent n ps) [ inl a ↦ inl (d, a) | inr l ↦ inr (ground arith) ]
]

drop_all-absent :
    (n f : ℕ) (ps : List ℕ) → f ≢ n → All (λ p. p ≢ f) (drop_all n ps) → All (λ p. p ≢ f) ps
unfolding drop_all
drop_all-absent n f [] d a = tt
drop_all-absent n f (p ∷ ps) d a = ground (arith, drop_all-absent n f ps d)

unused : (n : ℕ) (ps : List ℕ) → length ps < n → (f : ℕ) × (1 ≤ f) × (f ≤ n) × All (λ p. p ≢ f) ps
unused zero ps l = absurd (omega arith)
unused (suc n) ps l = elim (absent (suc n) ps) [
  | inl a ↦ (suc n, omega arith, omega arith, a)
  | inr k ↦
      let (f, f1, f2, a) = unused n (drop_all (suc n) ps) (omega (arith, k)) in
      (
        f,
        f1,
        omega (arith, f2),
        drop_all-absent (suc n) f ps (λ e. absurd (omega (arith, f2, e))) a,
      )
]

-- With no more than MAX_PROCESS processes, and right values kept from the last call, `get_pid` ends. The pid it gives is from 1 on below
-- MAX_PID and no process has it, and what it keeps is right for the next call.
pub get_pid-ends :
    (ps : List ℕ) (last next : ℕ)
    → IsSafe ps last next
    → length ps ≤ max_process
    → IsFresh ps (get_pid ps last next)
get_pid-ends ps last next safe few =
    let (f, f1, f2, free) = unused (max_pid - 1) ps (omega arith) in
    get_pid-IsFresh ps last next f safe f1 (omega (arith, f2)) free
