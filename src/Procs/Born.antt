-- ===== src/Procs/Born.antt =====
-- kern/process/proc.c: what `do_fork` does once the child has its memory and files.
use ucoreonrv.Prelude.{
  ℕ, ◌+◌, ◌<◌, ◌≤◌, ◌≡◌, ◌≢◌, refl, sym, ap, ◌∙◌, subst, true, false, none, some, List, [], ◌∷◌,
  All, arith, suc, length, map, inl,
}
use ucoreonrv.Prelude.Int.{ℤ, pos}
use ucoreonrv.Prelude.Errors.{fault, Ends, Ends-bind}
use ucoreonrv.Sched.{Sched, is_zombie, is_runnable}
use ucoreonrv.Sched.Core.{wakeup_proc}
use ucoreonrv.Sched.Wakeup.{wakeup_lem}
use ucoreonrv.Procs.Pids.{max_pid, max_process, get_pid}
use ucoreonrv.Procs.Fresh.{Clear, IsFresh, IsSafe, get_pid-ends}
use ucoreonrv.Procs.Kernel.{
  Kin, Kernel, set_kin, set_links, find_in_list, find_proc, hash_proc, pid_hashfn,
}
use ucoreonrv.Procs.Children.{Kids, SameLinks, Kids-frame, All-map, set_links-Kids}
use ucoreonrv.Procs.Lookup.{find_proc-hash_proc}
use ucoreonrv.Procs.Life.{wake}
use ucoreonrv.Procs.Birth.{commit_child, fork_child}

abbrev pub pids : Kernel → List ℕ
pids k = map (λ q. (k.kin q).pid) k.proc_list

pub length-pids : (k : Kernel) (qs : List ℕ) → length (map (λ q. (k.kin q).pid) qs) ≡ length qs
length-pids k [] = refl
length-pids k (q ∷ qs) = ap suc (length-pids k qs)

find_in_list-same :
    (kin kin' : ℕ → Kin) (pid : ℕ) (ps : List ℕ)
    → ((z : ℕ) → (kin' z).pid ≡ (kin z).pid)
    → find_in_list kin' pid ps ≡ find_in_list kin pid ps
unfolding find_in_list
find_in_list-same kin kin' pid [] h = refl
find_in_list-same kin kin' pid (p ∷ ps) h = ground (arith, h p, find_in_list-same kin kin' pid ps h)

set_links-same :
    (k : Kernel) (p : ℕ)
    → ((set_links k p).hash_list ≡ k.hash_list)
      × ((set_links k p).sched ≡ k.sched)
      × ((set_links k p).proc_list ≡ p ∷ k.proc_list)
      × ((set_links k p).nr_process ≡ k.nr_process + 1)
      × ((set_links k p).last_pid ≡ k.last_pid)
      × ((set_links k p).next_safe ≡ k.next_safe)
unfolding set_links
set_links-same k p = (refl, refl, refl, refl, refl, refl)

set_links-pid : (k : Kernel) (p z : ℕ) → ((set_links k p).kin z).pid ≡ (k.kin z).pid
unfolding set_links
set_links-pid k p z = ground arith

find_proc-set_links : (k : Kernel) (p q : ℕ) → find_proc (set_links k p) q ≡ find_proc k q
unfolding find_proc
find_proc-set_links k p q = ground (arith, set_links-same k p, found)
  where
    found :
        find_in_list (set_links k p).kin q (k.hash_list (pid_hashfn q))
        ≡ find_in_list k.kin q (k.hash_list (pid_hashfn q))
    found =
        find_in_list-same k.kin (set_links k p).kin q (k.hash_list (pid_hashfn q))
          (set_links-pid k p)

-- The child `p` has a new pid, the result, by which it is found. It can run, is the youngest child
-- of the process that runs, and is listed; the pids are ready for the next call.
abbrev pub Born : Kernel → (p : ℕ) → (xs : List ℕ) → ℤ × Kernel → Type 0
Born k p xs (ret, k') =
    (pid : ℕ) × (ret ≡ pos pid)
    × ((k'.kin p).pid ≡ pid)
    × (1 ≤ pid)
    × (pid < max_pid)
    × All (λ q. q ≢ pid) (pids k)
    × (find_proc k' pid ≡ p)
    × (is_runnable (k'.sched.procs p).state ≡ true)
    × Kids k'.kin k.sched.current (p ∷ xs)
    × (k'.proc_list ≡ p ∷ k.proc_list)
    × (k'.nr_process ≡ k.nr_process + 1)
    × IsSafe (pids k') k'.last_pid k'.next_safe

module _ (k : Kernel) (p pid next : ℕ) where
  abbrev numbered : Kernel
  numbered = record (set_kin k p (record (k.kin p) { pid = pid })) {
    last_pid = pid;
    next_safe = next;
  }

  abbrev grown : Kernel
  grown = set_links (hash_proc numbered p) p

  numbered-links :
      (z : ℕ) → SameLinks k.kin numbered.kin z × ((numbered.kin z).cptr ≡ (k.kin z).cptr)
  numbered-links z = ground arith

  numbered-pid : (numbered.kin p).pid ≡ pid
  numbered-pid = ground arith

  hash-same : ((hash_proc numbered p).kin ≡ numbered.kin) × ((hash_proc numbered p).sched ≡ k.sched)
  unfolding hash_proc
  hash-same = (refl, refl)

  grown-pid : (grown.kin p).pid ≡ pid
  grown-pid =
      set_links-pid (hash_proc numbered p) p p
      ∙ ap (λ (f : ℕ → Kin). (f p).pid) hash-same.0
      ∙ numbered-pid

  grown-others : (z : ℕ) → z ≢ p → (grown.kin z).pid ≡ (k.kin z).pid
  unfolding hash_proc
  grown-others z ne = set_links-pid (hash_proc numbered p) p z ∙ ground arith

  grown-pids :
      (qs : List ℕ)
      → All (λ z. z ≢ p) qs
      → map (λ q. (grown.kin q).pid) qs ≡ map (λ q. (k.kin q).pid) qs
  grown-pids [] h = refl
  grown-pids (q ∷ qs) (h, hs) =
      ap (λ m. m ∷ map (λ z. (grown.kin z).pid) qs) (grown-others q h)
      ∙ ap (◌∷◌ (k.kin q).pid) (grown-pids qs hs)

  found : 1 ≤ pid → pid < max_pid → find_proc grown pid ≡ p
  found l h =
      let here =
        (find_proc-hash_proc numbered p pid (subst (λ n. 0 < n) (sym numbered-pid) (omega arith))
          (subst (λ n. n < max_pid) (sym numbered-pid) h)).0 in
      find_proc-set_links (hash_proc numbered p) p pid ∙ here ∙ ground (arith, numbered-pid)

  number-IsSafe :
      1 ≤ pid
      → pid < next
      → next ≤ max_pid
      → (ps : List ℕ) → Clear pid next ps
      → IsSafe (pid ∷ ps) pid next
  number-IsSafe l h h' ps c =
      (l, omega arith, h', (inl (omega arith), All-map _ _ ps c (λ z d. ground (arith, d))))

  grown-Kids :
      (xs : List ℕ)
      → p ≢ 0
      → p ≢ k.sched.current
      → (k.kin p).parent ≡ k.sched.current
      → Kids k.kin k.sched.current xs
      → All (λ z. z ≢ p) xs
      → Kids grown.kin k.sched.current (p ∷ xs)
  grown-Kids xs nz nc mine kids new =
      let hashed = hash_proc numbered p in
      let mother = ap (λ (f : ℕ → Kin). (f p).parent) hash-same.0 ∙ (numbered-links p).0.1 ∙ mine in
      subst (λ m. Kids grown.kin m (p ∷ xs)) mother
        (set_links-Kids hashed p (λ e. nc (e ∙ mother)) xs
          (subst (λ m. Kids hashed.kin m xs) (sym mother)
            (subst (λ (f : ℕ → Kin). Kids f k.sched.current xs) (sym hash-same.0)
              (Kids-frame k.kin numbered.kin k.sched.current xs numbered-links kids)))
          nz new)

find_proc-sched :
    (k : Kernel) (s : Sched) (q : ℕ) → find_proc (record k { sched = s }) q ≡ find_proc k q
unfolding find_proc
find_proc-sched k s q = refl

hash-rest :
    (k : Kernel) (p : ℕ)
    → ((hash_proc k p).proc_list ≡ k.proc_list)
      × ((hash_proc k p).nr_process ≡ k.nr_process)
      × ((hash_proc k p).last_pid ≡ k.last_pid)
      × ((hash_proc k p).next_safe ≡ k.next_safe)
unfolding hash_proc
hash-rest k p = (refl, refl, refl, refl)

-- `p` has been woken up, and the rest of the state is as it was.
abbrev Woken : ℕ → Kernel → Kernel → Type 0
Woken p k k' = (s : Sched) × (k' ≡ record k { sched = s }) × (is_runnable (s.procs p).state ≡ true)

wake-Woken :
    (k : Kernel) (p : ℕ) → is_zombie (k.sched.procs p).state ≡ false → Ends (Woken p k) (wake k p)
wake-Woken k p live =
    Ends-bind _ (Woken p k) (wakeup_proc k.sched p) _ (wakeup_lem k.sched p live)
      (λ s (_, run, _). (s, refl, run))

commit_child-Born :
    (k : Kernel) (p pid next : ℕ) (xs : List ℕ)
    → p ≢ 0
    → p ≢ k.sched.current
    → (k.kin p).parent ≡ k.sched.current
    → is_zombie (k.sched.procs p).state ≡ false
    → Kids k.kin k.sched.current xs
    → All (λ z. z ≢ p) xs
    → All (λ z. z ≢ p) k.proc_list
    → IsFresh (pids k) (some (pid, next))
    → Ends (Born k p xs) (commit_child k p pid next)
unfolding commit_child
commit_child-Born k p pid next xs nz nc mine live kids new out (l, h, h', fresh, c) =
    let g = grown k p pid next in
    let hashed = hash_proc (numbered k p pid next) p in
    let (_, sched, list, nr, last, safe') = set_links-same hashed p in
    let (hlist, hnr, hlast, hnext) = hash-rest (numbered k p pid next) p in
    let same = sched ∙ (hash-same k p pid next).1 in
    let ready = list ∙ ap (◌∷◌ p) hlist in
    let numbers =
      ap (map (λ q. (g.kin q).pid)) ready
      ∙ ap (λ n. n ∷ map (λ q. (g.kin q).pid) k.proc_list) (grown-pid k p pid next)
      ∙ ap (◌∷◌ pid) (grown-pids k p pid next k.proc_list out) in
    Ends-bind (Woken p g) (Born k p xs) (wake g p) _
      (wake-Woken g p (subst (λ (s : Sched). is_zombie (s.procs p).state ≡ false) (sym same) live))
      (λ k2 (s, e, run).
        subst (λ k'. Born k p xs (pos pid, k')) (sym e)
          (
            pid,
            refl,
            grown-pid k p pid next,
            l,
            omega (arith, h, h'),
            fresh,
            find_proc-sched g s pid ∙ found k p pid next l (omega (arith, h, h')),
            run,
            grown-Kids k p pid next xs nz nc mine kids new,
            ready,
            nr ∙ ap (λ n. n + 1) hnr,
            subst (λ ps. IsSafe ps g.last_pid g.next_safe) (sym numbers)
                (subst (λ n. IsSafe (pid ∷ pids k) n g.next_safe) (sym (last ∙ hlast))
                  (subst (IsSafe (pid ∷ pids k) pid) (sym (safe' ∙ hnext))
                    (number-IsSafe k p pid next l h h' (pids k) c))),
          ))

pub fork_child-Born :
    (k : Kernel) (p : ℕ) (xs : List ℕ)
    → p ≢ 0
    → p ≢ k.sched.current
    → (k.kin p).parent ≡ k.sched.current
    → is_zombie (k.sched.procs p).state ≡ false
    → Kids k.kin k.sched.current xs
    → All (λ z. z ≢ p) xs
    → All (λ z. z ≢ p) k.proc_list
    → IsSafe (pids k) k.last_pid k.next_safe
    → length k.proc_list ≤ max_process
    → Ends (Born k p xs) (fork_child k p)
unfolding fork_child
fork_child-Born k p xs nz nc mine live kids new out safe few =
    elim (get_pid (pids k) k.last_pid k.next_safe)
        as (λ r.
          IsFresh (pids k) r
          → Ends (Born k p xs)
              (elim r [ none ↦ fault | some (pid, next) ↦ commit_child k p pid next ])) [
                | none ↦ λ f. absurd f
                | some (pid, next) ↦
                    λ f. commit_child-Born k p pid next xs nz nc mine live kids new out f
              ]
      (get_pid-ends (pids k) k.last_pid k.next_safe safe (omega (arith, length-pids k k.proc_list)))
