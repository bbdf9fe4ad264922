-- ===== src/Procs/Forked.antt =====
-- kern/process/proc.c: `do_fork`.
use ucoreonrv.Prelude.{
  ℕ, ◌≤◌, ◌≡◌, ◌≢◌, refl, sym, ap, ◌∙◌, subst, Bool, true, false, List, [], ◌∷◌, All, arith, ◌==◌,
  if◌then◌else◌, length, map, Bool-cases, inl, inr, leb, not, ◌&&◌, ◌||◌,
}
use ucoreonrv.Prelude.Int.{ℤ, pos, eqb_ℤ}
use ucoreonrv.Prelude.Errors.{
  done, Ends, Ends-bind, Ends-mono, ◌>>=◌, err, e_no_mem, e_no_free_proc,
}
use ucoreonrv.Sched.{is_zombie}
use ucoreonrv.Procs.Pids.{max_process}
use ucoreonrv.Procs.Fresh.{IsSafe}
use ucoreonrv.Procs.Kernel.{Kin, Kernel}
use ucoreonrv.Procs.Children.{Kids, Kids-frame_at, All-map}
use ucoreonrv.Procs.Birth.{Grants, Held, alloc_proc, fork_child, do_fork}
use ucoreonrv.Procs.Born.{pids, Born, fork_child-Born}

alloc-other : (k : Kernel) (p z : ℕ) → z ≢ p → (alloc_proc k p).kin z ≡ k.kin z
unfolding alloc_proc
alloc-other k p z ne = ground (arith)

alloc-pids :
    (k : Kernel) (p : ℕ) (qs : List ℕ)
    → All (λ z. z ≢ p) qs
    → map (λ q. ((alloc_proc k p).kin q).pid) qs ≡ map (λ q. (k.kin q).pid) qs
alloc-pids k p [] h = refl
alloc-pids k p (q ∷ qs) (h, hs) =
    ap (λ (n : Kin). n.pid ∷ map (λ z. ((alloc_proc k p).kin z).pid) qs) (alloc-other k p q h)
    ∙ ap (◌∷◌ (k.kin q).pid) (alloc-pids k p qs hs)

alloc_self :
    (k : Kernel) (p : ℕ)
    → (((alloc_proc k p).kin p).parent ≡ k.sched.current)
      × (is_zombie ((alloc_proc k p).sched.procs p).state ≡ false)
unfolding alloc_proc
alloc_self k p = (ground arith, ground arith)

alloc-same :
    (k : Kernel) (p : ℕ)
    → ((alloc_proc k p).proc_list ≡ k.proc_list)
      × ((alloc_proc k p).hash_list ≡ k.hash_list)
      × ((alloc_proc k p).nr_process ≡ k.nr_process)
      × ((alloc_proc k p).last_pid ≡ k.last_pid)
      × ((alloc_proc k p).next_safe ≡ k.next_safe)
      × ((alloc_proc k p).sched.current ≡ k.sched.current)
unfolding alloc_proc
alloc-same k p = (refl, refl, refl, refl, refl, refl)

alloc-awake :
    (k : Kernel) (p : ℕ)
    → (k.sched.procs k.sched.current).wait_state ≡ 0
    → p ≢ k.sched.current
    → ((alloc_proc k p).sched.procs (alloc_proc k p).sched.current).wait_state ≡ 0
unfolding alloc_proc
alloc-awake k p h ne = ground arith

-- The descriptor at `p` is not in use.
abbrev pub Unused : Kernel → (p : ℕ) → (xs : List ℕ) → Type 0
Unused k p xs = (p ≢ k.sched.current) × All (λ z. z ≢ p) xs × All (λ z. z ≢ p) k.proc_list

alloc-Born :
    (k : Kernel) (p : ℕ) (xs : List ℕ)
    → p ≢ 0
    → Unused k p xs
    → Kids k.kin k.sched.current xs
    → IsSafe (pids k) k.last_pid k.next_safe
    → length k.proc_list ≤ max_process
    → Ends (Born k p xs) (fork_child (alloc_proc k p) p)
unfolding alloc_proc
alloc-Born k p xs nz (nc, new, out) kids safe few =
    Ends-mono (Born k1 p xs) (Born k p xs) (fork_child k1 p)
      (fork_child-Born k1 p xs nz nc mine live
        (Kids-frame_at k.kin k1.kin k.sched.current xs
          (All-map _ _ xs new (λ z ne.
            let e = alloc-other k p z ne in
            (ap (λ (n : Kin). n.yptr) e, ap (λ (n : Kin). n.parent) e, ap (λ (n : Kin). n.optr) e)))
          (ap (λ (f : Kin). f.cptr) (alloc-other k p k.sched.current (λ e. nc (sym e)))) kids)
        new out (subst (λ ps. IsSafe ps k.last_pid k.next_safe) (sym same) safe) few)
      (λ (ret, k') (pid, r, own, l, h, fresh, at, run, mine', list, nr, next).
        (pid, r, own, l, h, subst (All (λ q. q ≢ pid)) same fresh, at, run, mine', list, nr, next))
  where
    k1 : Kernel
    k1 = alloc_proc k p

    mine : (k1.kin p).parent ≡ k.sched.current
    mine = (alloc_self k p).0

    live : is_zombie (k1.sched.procs p).state ≡ false
    live = (alloc_self k p).1

    same : pids k1 ≡ pids k
    same = alloc-pids k p k.proc_list out

-- Everything that the child needs is there.
abbrev pub granted : Grants → Bool
granted g = not (g.proc == 0) && (g.kstack && (eqb_ℤ g.mm (pos 0) && eqb_ℤ g.files (pos 0)))

-- The copy of the memory was made and the files were not.
abbrev pub files_refused : Grants → Bool
files_refused g =
    not (g.proc == 0) && (g.kstack && (eqb_ℤ g.mm (pos 0) && not (eqb_ℤ g.files (pos 0))))

abbrev pub full : Kernel → Bool
full k = leb max_process k.nr_process

-- The child could not be made.
abbrev pub Refused : Grants → Kernel → ℤ × Held × Kernel → Type 0
Refused g k (ret, held, k') =
    (ret ≡ (if full k then err e_no_free_proc else err e_no_mem))
    × (k'.proc_list ≡ k.proc_list)
    × (k'.hash_list ≡ k.hash_list)
    × (k'.nr_process ≡ k.nr_process)
    × ((z : ℕ) → z ≢ g.proc → k'.kin z ≡ k.kin z)
    × (held.proc ≡ false)
    × (held.kstack ≡ false)
    × (held.mm ≡ (not (full k) && files_refused g))
    × ((z : ℕ) → z ≢ g.proc → k'.sched.procs z ≡ k.sched.procs z)
    × (k'.sched.current ≡ k.sched.current)
    × (k'.sched.rq ≡ k.sched.rq)
    × (k'.sched.timer_list ≡ k.sched.timer_list)

-- What `do_fork` does, and whether it is refused.
abbrev pub Forked : Grants → Kernel → List ℕ → (refused : Bool) → ℤ × Held × Kernel → Type 0
Forked g k xs true r = Refused g k r
Forked g k xs false (ret, _, k') = Born k g.proc xs (ret, k')

do_fork-Refused :
    (g : Grants) (k : Kernel)
    → (k.sched.procs k.sched.current).wait_state ≡ 0
    → g.proc ≢ k.sched.current
    → (full k || not (granted g)) ≡ true
    → Ends (Refused g k) (do_fork g k)
unfolding do_fork alloc_proc
do_fork-Refused g k awake ne t = ground arith

do_fork-granted :
    (g : Grants) (k : Kernel)
    → (k.sched.procs k.sched.current).wait_state ≡ 0
    → g.proc ≢ k.sched.current
    → (full k || not (granted g)) ≡ false
    → do_fork g k ≡ (
        fork_child (alloc_proc k g.proc) g.proc >>= λ r.
        done (r.0, record { proc = true; kstack = true; mm = true; files = true }, r.1))
unfolding do_fork
do_fork-granted g k awake ne t = ground (arith, alloc-awake k g.proc awake ne)

-- Where the process that runs does not wait, the links of its children and what `get_pid` keeps are
-- right, no more processes are listed than counted, and the descriptor that `kmalloc` gives is not in
-- use, `do_fork` fails no assertion. With MAX_PROCESS processes it returns -E_NO_FREE_PROC, and if
-- anything for the child is refused -E_NO_MEM; then the tables, the run queue, the timers, the process that runs and
-- the descriptors of all others are as they were, and the child's descriptor and stack are given back, its memory unless the files were
-- refused. Else the result is a pid that no process had and by which the child is found; it can run
-- and is the youngest child.
pub do_fork-Forked :
    (g : Grants) (k : Kernel) (xs : List ℕ)
    → Unused k g.proc xs
    → (k.sched.procs k.sched.current).wait_state ≡ 0
    → Kids k.kin k.sched.current xs
    → IsSafe (pids k) k.last_pid k.next_safe
    → length k.proc_list ≤ k.nr_process
    → Ends (Forked g k xs (full k || not (granted g))) (do_fork g k)
unfolding do_fork
do_fork-Forked g k xs free awake kids safe few = elim (Bool-cases (full k || not (granted g))) [
  | inl t ↦
      subst (λ b. Ends (Forked g k xs b) (do_fork g k)) (sym t) (do_fork-Refused g k awake free.0 t)
  | inr t ↦
      subst (λ b. Ends (Forked g k xs b) (do_fork g k)) (sym t)
        (subst (Ends (Forked g k xs false)) (sym (do_fork-granted g k awake free.0 t)) (
          Ends-bind (Born k g.proc xs) (Forked g k xs false) _ _
            (alloc-Born k g.proc xs (let nz : g.proc ≢ 0 = ground arith in nz) free kids safe
              (let few' : length k.proc_list ≤ max_process = ground arith in few'))
            (λ r b. b)))
]
