-- ===== src/Procs/Adoption.antt =====
-- kern/process/proc.c: `do_exit` gives the children of the process that ends to `initproc`.
use ucoreonrv.Prelude.{
  ℕ, ◌≡◌, ◌≢◌, refl, sym, ap, ◌∙◌, subst, Bool, false, List, [], ◌∷◌, All, arith, if◌then◌else◌,
  Bool-cases, inl, inr,
}
use ucoreonrv.Prelude.Errors.{Run, done, Ends}
use ucoreonrv.Sched.{is_zombie}
use ucoreonrv.Sched.Core.{wakeup_proc, sched_class_enqueue}
use ucoreonrv.Sched.Stride.{stride_enqueue}
use ucoreonrv.Procs.Kernel.{Kin, Kernel}
use ucoreonrv.Procs.Life.{wake_parent, adopt, adopt_first}
use ucoreonrv.Procs.Children.{Siblings, Apart, Kids, SameLinks, Siblings-frame, All-map, All-map2}
use ucoreonrv.Procs.Family.{pointer-All}

-- What waking `p` leaves of the state of the processes.
abbrev pub Quiet : Kernel → Kernel → Type 0
Quiet k k' =
    (k'.kin ≡ k.kin)
    × (k'.initproc ≡ k.initproc)
    × (k'.sched.current ≡ k.sched.current)
    × ((j : ℕ) → is_zombie (k'.sched.procs j).state ≡ is_zombie (k.sched.procs j).state)

pub wake_parent-Quiet :
    (k : Kernel) (p : ℕ)
    → is_zombie (k.sched.procs p).state ≡ false
    → Ends (Quiet k) (wake_parent k p)
unfolding wake_parent wakeup_proc sched_class_enqueue stride_enqueue
wake_parent-Quiet k p h = ground arith

-- The children from the pointer `c` on, by the pointers to the older one alone.
abbrev pub Line : (ℕ → Kin) → (c : ℕ) → List ℕ → Type 0
Line kin c [] = c ≡ 0
Line kin c (x ∷ xs) = (c ≡ x) × (x ≢ 0) × Line kin (kin x).optr xs

Line-frame :
    (kin kin' : ℕ → Kin) (c : ℕ) (xs : List ℕ)
    → All (λ x. (kin' x).optr ≡ (kin x).optr) xs
    → Line kin c xs
    → Line kin' c xs
Line-frame kin kin' c [] h s = s
Line-frame kin kin' c (x ∷ xs) (ho, h) (e, nz, s) =
    (e, nz, subst (λ o. Line kin' o xs) (sym ho) (Line-frame kin kin' (kin x).optr xs h s))

pub Siblings-Line :
    (kin : ℕ → Kin) (par y c : ℕ) (xs : List ℕ) → Siblings kin par y c xs → Line kin c xs
Siblings-Line kin par y c [] s = s
Siblings-Line kin par y c (x ∷ xs) (e, nz, ey, ep, s) =
    (e, nz, Siblings-Line kin par x (kin x).optr xs s)

-- The children in `xs` are to be moved: none is `c` or `i`, or in `zs`, or there twice.
abbrev pub Foreign : (c i : ℕ) → List ℕ → List ℕ → Type 0
Foreign c i zs [] = Unit
Foreign c i zs (x ∷ xs) =
    ((x ≢ c) × (x ≢ i) × All (λ z. z ≢ x) zs × All (λ z. z ≢ x) xs) × Foreign c i zs xs

pub Foreign-cons :
    (c i p : ℕ) (zs xs : List ℕ) → All (λ z. z ≢ p) xs → Foreign c i zs xs → Foreign c i (p ∷ zs) xs
Foreign-cons c i p zs [] h f = tt
Foreign-cons c i p zs (x ∷ xs) (h, hs) ((nc, ni, a, b), f) =
    ((nc, ni, ((λ e. h (sym e)), a), b), Foreign-cons c i p zs xs hs f)

module _ (k : Kernel) (p : ℕ) where
  abbrev dying : ℕ
  dying = k.sched.current

  abbrev eldest : ℕ
  eldest = (k.kin k.initproc).cptr

  abbrev pub moved : ℕ → Kin
  moved = (adopt k p).kin

  module _ (apart : dying ≢ k.initproc) (nc : p ≢ dying) (ni : p ≢ k.initproc)
      (ne : eldest ≢ p) where
    moved-dying : (moved dying).cptr ≡ (k.kin p).optr
    unfolding adopt
    moved-dying = ground (arith, apart, nc)

    moved_self : ((moved p).yptr ≡ 0) × ((moved p).parent ≡ k.initproc) × ((moved p).optr ≡ eldest)
    unfolding adopt
    moved_self = ground (arith, apart, nc, ni, ne)

    moved-init : (moved k.initproc).cptr ≡ p
    unfolding adopt
    moved-init = ground (arith, apart, ni)

    moved-eldest : eldest ≢ 0 → (moved eldest).yptr ≡ p
    unfolding adopt
    moved-eldest nz = ground (arith, ne)

    moved-parent : eldest ≢ 0 → (moved eldest).parent ≡ (k.kin eldest).parent
    unfolding adopt
    moved-parent nz = ground (arith, ne)

    moved-other : (z : ℕ) → z ≢ p → z ≢ eldest → SameLinks k.kin moved z
    unfolding adopt
    moved-other z a b = ground (arith, apart, nc, ni, ne)

    moved-optr : (z : ℕ) → z ≢ p → (moved z).optr ≡ (k.kin z).optr
    unfolding adopt
    moved-optr z a = ground (arith, apart, nc, ni, ne)

    -- The children of `initproc`, behind the new one.
    adopted-Siblings :
        (zs : List ℕ)
        → Siblings k.kin k.initproc 0 eldest zs
        → Apart zs
        → All (λ z. z ≢ p) zs
        → Siblings moved k.initproc p eldest zs
    adopted-Siblings [] s a new = s
    adopted-Siblings (x ∷ xs) (e, nz, ey, ep, s) (a, _) (nx, new) =
        let real = λ (z : eldest ≡ 0). nz (sym e ∙ z) in
        (
          e,
          nz,
          ap (λ c. (moved c).yptr) (sym e) ∙ moved-eldest real,
          ap (λ c. (moved c).parent) (sym e)
              ∙ moved-parent real
              ∙ ap (λ c. (k.kin c).parent) e
              ∙ ep,
          subst (λ o. Siblings moved k.initproc x o xs) (sym (moved-optr x nx))
              (Siblings-frame k.kin moved k.initproc x (k.kin x).optr xs
                (All-map2 _ _ _ xs a new (λ z d d'. moved-other z d' (λ w. d (w ∙ e)))) s),
        )

    adopt-Kids :
        (zs : List ℕ)
        → Kids k.kin k.initproc zs
        → p ≢ 0
        → All (λ z. z ≢ p) zs
        → Kids moved k.initproc (p ∷ zs)
    adopt-Kids zs (s, (a, b)) nz new =
        let (ey, ep, eo) = moved_self in
        (
          (
            moved-init,
            nz,
            ey,
            ep,
            subst (λ o. Siblings moved k.initproc p o zs) (sym eo) (adopted-Siblings zs s b new),
          ),
          ((ni, a), (new, b)),
        )

pub adopt_same :
    (k : Kernel) (p : ℕ)
    → ((adopt k p).sched ≡ k.sched)
      × ((adopt k p).initproc ≡ k.initproc)
      × ((z : ℕ) → ((adopt k p).kin z).exit_code ≡ (k.kin z).exit_code)
unfolding adopt
adopt_same k p = (refl, refl, λ z. ground arith)

pub adopt_first-Quiet :
    (k : Kernel) (p : ℕ)
    → is_zombie ((adopt k p).sched.procs k.initproc).state ≡ false
    → Ends (Quiet (adopt k p)) (adopt_first k p)
unfolding adopt_first
adopt_first-Quiet k p h = elim (Bool-cases (is_zombie ((adopt k p).sched.procs p).state)) [
  | inl t ↦
      subst (λ b. Ends (Quiet (adopt k p)) (from b)) (sym t)
        (wake_parent-Quiet (adopt k p) k.initproc h)
  | inr t ↦ subst (λ b. Ends (Quiet (adopt k p)) (from b)) (sym t) (refl, refl, refl, λ j. refl)
]
  where
    from : Bool → Run Kernel
    from b = if b then wake_parent (adopt k p) k.initproc else done (adopt k p)

abbrev pub Steps : Kernel → ℕ → (xs zs : List ℕ) → (c i : ℕ) → Type 0
Steps k x xs zs c i =
    c ≢ i
    → Line k.kin (k.kin c).cptr (x ∷ xs)
    → Foreign c i zs (x ∷ xs)
    → Kids k.kin i zs
    → Line (moved k x) (moved k x c).cptr xs × Kids (moved k x) i (x ∷ zs)

pub adopt-Steps : (k : Kernel) (x : ℕ) (xs zs : List ℕ) → Steps k x xs zs k.sched.current k.initproc
adopt-Steps k x xs zs apart (e, nz, l) ((nc, ni, a, b), f) (s, z) = (
  subst (λ o. Line (moved k x) o xs) (sym (moved-dying k x apart nc ni ne))
      (Line-frame k.kin (moved k x) (k.kin x).optr xs
        (All-map _ _ xs b (λ w d. moved-optr k x apart nc ni ne w d)) l),
  adopt-Kids k x apart nc ni ne zs (s, z) nz a,
)
  where
    ne : eldest k x ≢ x
    ne = pointer-All (λ o. o ≢ x) k.kin k.initproc 0 (eldest k x) zs s (λ z. nz (sym z)) a
