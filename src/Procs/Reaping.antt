-- ===== src/Procs/Reaping.antt =====
-- kern/process/proc.c: `do_wait` for any child.
use ucoreonrv.Prelude.{
  ℕ, zero, suc, ◌<◌, ◌≡◌, ◌≢◌, refl, sym, ap, ◌∙◌, subst, Bool, true, false, List, [], ◌∷◌, ◌++◌,
  All, arith, length, Bool-cases, inl, inr,
}
use ucoreonrv.Prelude.Errors.{done, Ends, err, e_bad_proc}
use ucoreonrv.Sched.{is_zombie, sleeping}
use ucoreonrv.Procs.Kernel.{Kin, Kernel, unhash_proc, remove_links}
use ucoreonrv.Procs.Life.{
  wt_child, Look, found, has_kid, no_kid, look_from, look, Waited, reaped, failed, waits, reap,
  wait_round, do_wait,
}
use ucoreonrv.Procs.Children.{Kids}
use ucoreonrv.Procs.Family.{All-right, from-Siblings}
use ucoreonrv.Procs.Adoption.{Line, Siblings-Line}
use ucoreonrv.Procs.Removal.{remove_links-Kids}

abbrev Dead : Kernel → ℕ → Type 0
Dead k p = is_zombie (k.sched.procs p).state ≡ true

-- The youngest of the dead children, if there is one.
abbrev Looks : Kernel → List ℕ → Bool → Look → Type 0
Looks k xs seen (found p) = (pre : List ℕ) × (ys : List ℕ) × (xs ≡ pre ++ (p ∷ ys)) × Dead k p
Looks k xs seen has_kid =
    All (λ x. is_zombie (k.sched.procs x).state ≡ false) xs × (xs ≡ [] → seen ≡ true)
Looks k xs seen no_kid = (xs ≡ []) × (seen ≡ false)

Looks-cons :
    (k : Kernel) (x : ℕ) (xs : List ℕ) (seen : Bool) (r : Look)
    → is_zombie (k.sched.procs x).state ≡ false
    → Looks k xs true r
    → Looks k (x ∷ xs) seen r
Looks-cons k x xs seen (found p) h (pre, ys, e, d) = (x ∷ pre, ys, ap (◌∷◌ x) e, d)
Looks-cons k x xs seen has_kid h (a, _) = ((h, a), λ e. absurd (cc))
Looks-cons k x xs seen no_kid h (e, f) = absurd (cc)

look_from-Looks :
    (fuel : ℕ) (k : Kernel) (c : ℕ) (xs : List ℕ) (seen : Bool)
    → Line k.kin c xs
    → length xs < fuel
    → Looks k xs seen (look_from fuel k c seen)
unfolding look_from
look_from-Looks zero k c xs seen l h = absurd (omega arith)
look_from-Looks (suc fuel) k c [] true l h = subst (Looks k [] true) (sym ends) (tt, λ e. refl)
  where
    ends : look_from (suc fuel) k c true ≡ has_kid
    ends = ground arith
look_from-Looks (suc fuel) k c [] false l h = subst (Looks k [] false) (sym ends) (refl, refl)
  where
    ends : look_from (suc fuel) k c false ≡ no_kid
    ends = ground arith
look_from-Looks (suc fuel) k c (x ∷ xs) seen (e, nz, l) h =
    elim (Bool-cases (is_zombie (k.sched.procs x).state)) [
      | inl t ↦ subst (Looks k (x ∷ xs) seen) (sym (stops t)) ([], xs, refl, t)
      | inr t ↦ subst (Looks k (x ∷ xs) seen) (sym (goes t)) (
          Looks-cons k x xs seen _ t
            (look_from-Looks fuel k (k.kin x).optr xs true l (omega arith)))
    ]
  where
    stops : is_zombie (k.sched.procs x).state ≡ true → look_from (suc fuel) k c seen ≡ found x
    stops t = ground (arith, ap (λ p. (k.sched.procs p).state) e)

    goes :
        is_zombie (k.sched.procs x).state ≡ false
        → look_from (suc fuel) k c seen ≡ look_from fuel k (k.kin x).optr true
    goes t = ground (arith, ap (λ p. (k.sched.procs p).state) e, ap (λ p. (k.kin p).optr) e)

-- What `do_wait` for any child does, where `xs` are the children of the process that runs.
abbrev pub Reaped : Kernel → List ℕ → Waited × Kernel → Type 0
Reaped k xs (reaped p code, k') =
    (pre : List ℕ) × (ys : List ℕ) × (xs ≡ pre ++ (p ∷ ys))
    × Dead k p
    × (code ≡ (k.kin p).exit_code)
    × Kids k'.kin k.sched.current (pre ++ ys)
Reaped k xs (failed ret, k') = (xs ≡ []) × (ret ≡ err e_bad_proc) × (k' ≡ k)
Reaped k xs (waits, k') =
    (xs ≢ [])
    × All (λ x. is_zombie (k.sched.procs x).state ≡ false) xs
    × ((k'.sched.procs k.sched.current).state ≡ sleeping)
    × ((k'.sched.procs k.sched.current).wait_state ≡ wt_child)
    × (k'.kin ≡ k.kin)

unhash-kin : (k : Kernel) (p : ℕ) → (unhash_proc k p).kin ≡ k.kin
unfolding unhash_proc
unhash-kin k p = refl

reap-Reaped :
    (k : Kernel) (p : ℕ) (pre ys : List ℕ)
    → Kids k.kin k.sched.current (pre ++ (p ∷ ys))
    → Dead k p
    → p ≢ k.sched.idleproc
    → p ≢ k.initproc
    → Ends (Reaped k (pre ++ (p ∷ ys))) (reap k p)
unfolding reap
reap-Reaped k p pre ys kids d idle init =
    subst (Ends (Reaped k (pre ++ (p ∷ ys)))) (sym runs) (pre, ys, refl, d, refl, left)
  where
    runs : reap k p ≡ done (reaped p (k.kin p).exit_code, remove_links (unhash_proc k p) p)
    runs = ground (arith)

    mine : (k.kin p).parent ≡ k.sched.current
    mine = (from-Siblings k.kin k.sched.current 0 (k.kin k.sched.current).cptr p pre ys kids.0).1

    left : Kids (remove_links (unhash_proc k p) p).kin k.sched.current (pre ++ ys)
    left =
        subst (λ m. Kids (remove_links (unhash_proc k p) p).kin m (pre ++ ys))
          (ap (λ (f : ℕ → Kin). (f p).parent) (unhash-kin k p) ∙ mine)
          (remove_links-Kids (unhash_proc k p) p pre ys (
            subst (λ (f : ℕ → Kin). Kids f (f p).parent (pre ++ (p ∷ ys))) (sym (unhash-kin k p))
              (subst (λ m. Kids k.kin m (pre ++ (p ∷ ys))) (sym mine) kids)))

wait_round-Reaped :
    (k : Kernel) (xs : List ℕ) (r : Look)
    → Kids k.kin k.sched.current xs
    → All (λ x. (x ≢ k.sched.idleproc) × (x ≢ k.initproc)) xs
    → Looks k xs false r
    → Ends (Reaped k xs) (wait_round r k)
unfolding wait_round
wait_round-Reaped k xs (found p) kids own (pre, ys, e, d) =
    let o = (All-right _ pre (p ∷ ys) (subst (All _) e own)).0 in
    subst (λ zs. Ends (Reaped k zs) (reap k p)) (sym e)
      (reap-Reaped k p pre ys (subst (Kids k.kin k.sched.current) e kids) d o.0 o.1)
wait_round-Reaped k xs has_kid kids own (a, seen) =
    ((λ e. let h = seen e in cc), a, ground arith, ground arith, refl)
wait_round-Reaped k xs no_kid kids own (e, _) = (e, refl, refl)

-- With fuel for its children `xs`, whose links are right and none of which is the idle process or
-- `initproc`, a process that waits
-- for any child: gets the exit code of a dead one, which leaves the list of children while the
-- others stay with their links right; or sleeps as a waiting parent, if it has children and none is
-- dead; or fails with -E_BAD_PROC and changes nothing, if it has none.
pub do_wait-Reaped :
    (fuel : ℕ) (k : Kernel) (xs : List ℕ)
    → Kids k.kin k.sched.current xs
    → All (λ x. (x ≢ k.sched.idleproc) × (x ≢ k.initproc)) xs
    → length xs < fuel
    → Ends (Reaped k xs) (do_wait fuel true k 0)
unfolding do_wait look
do_wait-Reaped fuel k xs kids own h = wait_round-Reaped k xs _ kids own (
    look_from-Looks fuel k (k.kin k.sched.current).cptr xs false
      (Siblings-Line k.kin k.sched.current 0 (k.kin k.sched.current).cptr xs kids.0) h)
