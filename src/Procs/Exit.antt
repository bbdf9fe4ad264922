-- ===== src/Procs/Exit.antt =====
-- kern/process/proc.c: `do_exit`.
use ucoreonrv.Prelude.{
  ℕ, zero, suc, ◌<◌, ◌≡◌, ◌≢◌, refl, sym, ap, ◌∙◌, subst, true, false, List, [], ◌∷◌, arith, length,
}
use ucoreonrv.Prelude.Int.{ℤ}
use ucoreonrv.Prelude.Errors.{done, Ends, Ends-bind, Ends-mono, ◌>>=◌}
use ucoreonrv.Sched.{Sched, is_zombie, zombie, set_proc}
use ucoreonrv.Procs.Kernel.{Kin, Kernel, set_kin}
use ucoreonrv.Procs.Life.{wake_parent, adopt, adopt_first, adopt_all, do_exit}
use ucoreonrv.Procs.Children.{Kids, SameLinks, Kids-frame}
use ucoreonrv.Procs.Adoption.{
  Quiet, wake_parent-Quiet, Line, Siblings-Line, Foreign, Foreign-cons, Steps, adopt-Steps,
  adopt_same, adopt_first-Quiet,
}

-- The children in the order in which the loop leaves them.
abbrev pub onto : List ℕ → List ℕ → List ℕ
onto [] zs = zs
onto (x ∷ xs) zs = onto xs (x ∷ zs)

-- The children `xs` of the process `c` have gone to `initproc`, which had `zs`; nobody else has died.
abbrev pub Adopted : Kernel → (c i : ℕ) → (xs zs : List ℕ) → Kernel → Type 0
Adopted k c i xs zs k' =
    ((k'.kin c).cptr ≡ 0)
    × Kids k'.kin i (onto xs zs)
    × ((j : ℕ) → is_zombie (k'.sched.procs j).state ≡ is_zombie (k.sched.procs j).state)
    × ((j : ℕ) → (k'.kin j).exit_code ≡ (k.kin j).exit_code)

adopt_all-Adopted :
    (fuel : ℕ) (k : Kernel) (c i : ℕ) (xs zs : List ℕ)
    → k.sched.current ≡ c
    → k.initproc ≡ i
    → c ≢ i
    → is_zombie (k.sched.procs i).state ≡ false
    → Line k.kin (k.kin c).cptr xs
    → Foreign c i zs xs
    → Kids k.kin i zs
    → length xs < fuel
    → Ends (Adopted k c i xs zs) (adopt_all fuel k)
unfolding adopt_all
adopt_all-Adopted zero k c i xs zs ec ei apart init l f z h = absurd (omega arith)
adopt_all-Adopted (suc fuel) k c i [] zs ec ei apart init l f z h =
    subst (Ends (Adopted k c i [] zs)) (sym ends) (l, z, (λ j. refl), λ j. refl)
  where
    ends : adopt_all (suc fuel) k ≡ done k
    ends = ground (arith, ap (λ p. (k.kin p).cptr) ec)
adopt_all-Adopted (suc fuel) k c i (x ∷ xs) zs ec ei apart init (e, nz, l) f z h =
    let (sched, proc, code) = adopt_same k x in
    let (l', z') =
      subst (λ c. Steps k x xs zs c i) ec
        (subst (Steps k x xs zs k.sched.current) ei (adopt-Steps k x xs zs)) apart (e, nz, l) f z in
    let alive = ap (λ (s : Sched). is_zombie (s.procs i).state) sched ∙ init in
    subst (Ends (Adopted k c i (x ∷ xs) zs)) (sym goes) (
      Ends-bind (Quiet (adopt k x)) (Adopted k c i (x ∷ xs) zs) _ _
        (adopt_first-Quiet k x
          (subst (λ p. is_zombie ((adopt k x).sched.procs p).state ≡ false) (sym ei) alive))
        (λ k' (same, proc', cur, zomb).
          Ends-mono (Adopted k' c i xs (x ∷ zs)) _ (adopt_all fuel k')
            (adopt_all-Adopted fuel k' c i xs (x ∷ zs)
              (cur ∙ ap (λ (s : Sched). s.current) sched ∙ ec) (proc' ∙ proc ∙ ei) apart
              (zomb i ∙ alive) (subst (λ kin. Line kin (kin c).cptr xs) (sym same) l')
              (Foreign-cons c i x zs xs f.0.3 f.1)
              (subst (λ kin. Kids kin i (x ∷ zs)) (sym same) z') (omega arith))
            (λ k'' (gone, kids, zomb', code'). (
              gone,
              kids,
              (λ j. zomb' j ∙ zomb j ∙ ap (λ (s : Sched). is_zombie (s.procs j).state) sched),
              (λ j. code' j ∙ ap (λ (f : ℕ → Kin). (f j).exit_code) same ∙ code j),
            ))))
  where
    goes : adopt_all (suc fuel) k ≡ (adopt_first k x >>= λ k'. adopt_all fuel k')
    goes = ground (arith, ap (λ p. (k.kin p).cptr) ec)

-- The process that runs, as `do_exit` leaves it before it looks at its children.
abbrev dead : Kernel → ℤ → Kernel
dead k error_code =
    let c = k.sched.current in
    record (set_kin k c (record (k.kin c) { exit_code = error_code })) {
      sched = set_proc k.sched c (record (k.sched.procs c) { state = zombie });
    }

dead-links :
    (k : Kernel) (error_code : ℤ) (z : ℕ)
    → SameLinks k.kin (dead k error_code).kin z
      × (((dead k error_code).kin z).cptr ≡ (k.kin z).cptr)
dead-links k error_code z = ground arith

dead-proc :
    (k : Kernel) (error_code : ℤ)
    → (is_zombie ((dead k error_code).sched.procs k.sched.current).state ≡ true)
      × (((dead k error_code).kin k.sched.current).exit_code ≡ error_code)
      × (((dead k error_code).kin k.sched.current).parent ≡ (k.kin k.sched.current).parent)
      × ((j : ℕ)
          → j ≢ k.sched.current
          → is_zombie ((dead k error_code).sched.procs j).state ≡ is_zombie (k.sched.procs j).state)
dead-proc k error_code = (ground arith, ground arith, ground arith, λ j ne. ground arith)

-- The process is dead with its code, has no child left, and `initproc` has them all.
abbrev pub Exited : Kernel → ℤ → (xs zs : List ℕ) → Kernel → Type 0
Exited k error_code xs zs k' =
    (is_zombie (k'.sched.procs k.sched.current).state ≡ true)
    × ((k'.kin k.sched.current).exit_code ≡ error_code)
    × ((k'.kin k.sched.current).cptr ≡ 0)
    × Kids k'.kin k.initproc (onto xs zs)

-- With fuel for its children, the links of these and of the children of `initproc` right and the two
-- lists apart, and neither its parent, another process, nor `initproc` dead, a process other than the
-- idle one and `initproc` that ends fails no assertion up to the call of `schedule`. Then it is a
-- zombie with its code, and all its children have become children of `initproc`, with all links
-- right.
pub do_exit-Exited :
    (fuel : ℕ) (k : Kernel) (error_code : ℤ) (xs zs : List ℕ)
    → k.sched.current ≢ k.sched.idleproc
    → k.sched.current ≢ k.initproc
    → (k.kin k.sched.current).parent ≢ k.sched.current
    → is_zombie (k.sched.procs (k.kin k.sched.current).parent).state ≡ false
    → is_zombie (k.sched.procs k.initproc).state ≡ false
    → Kids k.kin k.sched.current xs
    → Kids k.kin k.initproc zs
    → Foreign k.sched.current k.initproc zs xs
    → length xs < fuel
    → Ends (Exited k error_code xs zs) (do_exit fuel k error_code)
unfolding do_exit
do_exit-Exited fuel k error_code xs zs idle init own par alive kids olds f h =
    let c = k.sched.current in
    let d = dead k error_code in
    let (died, coded, parent, others) = dead-proc k error_code in
    let quiet =
      subst (λ p. is_zombie (d.sched.procs p).state ≡ false) (sym parent)
        (others (k.kin c).parent own ∙ par) in
    subst (Ends (Exited k error_code xs zs)) (sym begins) (
      Ends-bind (Quiet d) (Exited k error_code xs zs) _ _
        (wake_parent-Quiet d (d.kin c).parent quiet)
        (λ k' (same, proc, cur, zomb).
          Ends-mono (Adopted k' c k.initproc xs zs) (Exited k error_code xs zs) (adopt_all fuel k')
            (adopt_all-Adopted fuel k' c k.initproc xs zs cur proc init
              (zomb k.initproc ∙ others k.initproc (λ z. init (sym z)) ∙ alive)
              (subst (λ kin. Line kin (kin c).cptr xs) (sym same)
                (Siblings-Line d.kin c 0 (d.kin c).cptr xs
                  (Kids-frame k.kin d.kin c xs (dead-links k error_code) kids).0))
              f
              (subst (λ kin. Kids kin k.initproc zs) (sym same)
                (Kids-frame k.kin d.kin k.initproc zs (dead-links k error_code) olds))
              h)
            (λ k'' (gone, adopted, zomb', code'). (
              zomb' c ∙ zomb c ∙ died,
              code' c ∙ ap (λ (g : ℕ → Kin). (g c).exit_code) same ∙ coded,
              gone,
              adopted,
            ))))
  where
    begins : do_exit fuel k error_code ≡ (
        wake_parent (dead k error_code) ((dead k error_code).kin k.sched.current).parent >>= λ k'.
        adopt_all fuel k')
    begins = ground (arith, idle, init)
