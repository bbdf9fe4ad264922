-- ===== src/Vm/Access.antt =====
-- kern/mm/vmm.c: what `user_mem_check` answers.
use ucoreonrv.Prelude.{
  ℕ, zero, suc, ◌+◌, ◌≤◌, ◌<◌, ◌%◌, ◌^◌, ◌≡◌, ◌↔◌, refl, sym, subst, ◌∙◌, Option-cases, Bool-cases,
  inl, inr, dec_lt, Bool, true, false, ◌&&◌, Option, none, some, arith, leb, if◌then◌else◌,
}
use ucoreonrv.Vm.{Vma, Mm, vm_read, vm_write, vm_stack}
use ucoreonrv.Vm.Areas.{walk, find_in, user_access, pgsize}
use ucoreonrv.Vm.Search.{IsMm, walk-some, walk-same, find_in-Finds}
use ucoreonrv.Vm.Checks.{admits, check_loop, user_mem_check}

-- Reading asks for a readable area. Writing asks for a writable one, of which the lowest page is not
-- written to if it is a stack.
abbrev pub may_access : Vma → (write : Bool) → (a : ℕ) → Bool
may_access v false a = vm_read v.vm_flags
may_access v true a =
    vm_write v.vm_flags && (if vm_stack v.vm_flags then leb (v.vm_start + pgsize) a else true)

admits-may_access :
    (v : Vma) (write : Bool) (a : ℕ) → v.vm_start ≤ a → admits v write a ≡ may_access v write a
unfolding admits
admits-may_access v false a h = ground arith
admits-may_access v true a h = ground arith

abbrev pub allowed_in : Option Vma → Bool → ℕ → Bool
allowed_in none write a = false
allowed_in (some v) write a = may_access v write a

-- The access to the single address `a` is allowed, by the area that holds it.
abbrev pub Allowed : Mm → Bool → ℕ → Type 0
Allowed mm write a = allowed_in (walk mm.mmap_list a) write a ≡ true

-- The answer of the loop from `start` on.
abbrev Answers : Mm → (start end : ℕ) → Bool → Option (Bool × Mm) → Type 0
Answers mm start end write none = ⊥
Answers mm start end write (some (b, mm')) =
    IsMm mm'
    × (mm'.mmap_list ≡ mm.mmap_list)
    × ((b ≡ true) ↔ ((a : ℕ) → start ≤ a → a < end → Allowed mm write a))

refused :
    (mm mm' : Mm) (start end : ℕ) (write : Bool)
    → IsMm mm'
    → mm'.mmap_list ≡ mm.mmap_list
    → start < end
    → allowed_in (walk mm.mmap_list start) write start ≡ false
    → Answers mm start end write (some (false, mm'))
refused mm mm' start end write ok same h bad =
    (ok, same, ((λ e. absurd (cc)), λ all. ground (arith, all start (omega arith) h)))

-- The loop goes on behind the area `v` of `start`.
advanced :
    (mm mm' : Mm) (start end : ℕ) (write : Bool) (v : Vma) (r : Option (Bool × Mm))
    → IsMm mm
    → mm'.mmap_list ≡ mm.mmap_list
    → walk mm.mmap_list start ≡ some v
    → admits v write start ≡ true
    → Answers mm' v.vm_end end write r
    → Answers mm start end write r
advanced mm mm' start end write v none ok same e fine h = h
advanced mm mm' start end write v (some (b, m)) ok same e fine (ok', same', (to, from)) =
    (ok', same' ∙ same, (forth, λ all. from (λ a l u. moved a (all a (omega (arith, inside)) u))))
  where
    inside : (v.vm_start ≤ start) × (start < v.vm_end)
    inside = ground (arith, walk-some 0 mm.mmap_list start v ok.ordered e)

    moved : (a : ℕ) → Allowed mm write a → Allowed mm' write a
    moved a = subst (λ l. allowed_in (walk l a) write a ≡ true) (sym same)

    covered : (a : ℕ) → start ≤ a → a < v.vm_end → Allowed mm write a
    covered a l u =
        subst (λ o. allowed_in o write a ≡ true)
          (sym (walk-same 0 mm.mmap_list start a v ok.ordered e (ground (arith, inside))))
          (higher write (sym (admits-may_access v write start inside.0) ∙ fine))
      where
        higher : (w : Bool) → may_access v w start ≡ true → may_access v w a ≡ true
        higher false h = h
        higher true h = ground arith

    forth : b ≡ true → (a : ℕ) → start ≤ a → a < end → Allowed mm write a
    forth t a l u = elim (dec_lt a v.vm_end) [
      | yes k ↦ covered a l k
      | no k ↦ subst (λ l. allowed_in (walk l a) write a ≡ true) same (to t a (omega (arith, k)) u)
    ]

check_loop-Answers :
    (fuel : ℕ) (mm : Mm) (start end : ℕ) (write : Bool)
    → IsMm mm
    → end ≤ start + fuel
    → Answers mm start end write (check_loop fuel mm start end write)
unfolding check_loop
check_loop-Answers zero mm start end write ok h =
    subst (Answers mm start end write) (sym stops)
      (ok, refl, ((λ e a l u. absurd (omega arith)), λ all. refl))
  where
    stops : check_loop 0 mm start end write ≡ some (true, mm)
    stops = ground arith
check_loop-Answers (suc fuel) mm start end write ok h = elim (dec_lt start end) [
  | no k ↦
      subst (Answers mm start end write) (sym (stops k))
        (ok, refl, ((λ e a l u. absurd (k (omega arith))), λ all. refl))
  | yes k ↦ elim (Option-cases f.0) [
    | inl e ↦
        subst (Answers mm start end write) (sym (missing k e))
          (refused mm f.1 start end write ok' same k (ground (arith, found)))
    | inr (v, e) ↦ elim (Bool-cases (admits v write start)) [
      | inl a ↦ subst (Answers mm start end write) (sym (goes_on k v e a)) (
          advanced mm f.1 start end write v _ ok same (sym found ∙ e) a
            (check_loop-Answers fuel f.1 v.vm_end end write ok' (bound v e)))
      | inr a ↦
          subst (Answers mm start end write) (sym (refuses k v e a))
            (refused mm f.1 start end write ok' same k (denied v e a))
    ]
  ]
]
  where
    f : Option Vma × Mm
    f = find_in mm start

    found : f.0 ≡ walk mm.mmap_list start
    found = (find_in-Finds mm start ok).0

    same : f.1.mmap_list ≡ mm.mmap_list
    same = (find_in-Finds mm start ok).1

    ok' : IsMm f.1
    ok' = (find_in-Finds mm start ok).2

    denied :
        (v : Vma)
        → f.0 ≡ some v
        → admits v write start ≡ false
        → allowed_in (walk mm.mmap_list start) write start ≡ false
    denied v e a =
        subst (λ o. allowed_in o write start ≡ false) (sym e ∙ found)
          (sym (
              admits-may_access v write start
                (ground (arith, walk-some 0 mm.mmap_list start v ok.ordered, found)))
            ∙ a)

    bound : (v : Vma) → f.0 ≡ some v → end ≤ v.vm_end + fuel
    bound v e = ground (arith, walk-some 0 mm.mmap_list start v ok.ordered, found)

    stops : ¬ (start < end) → check_loop (suc fuel) mm start end write ≡ some (true, mm)
    stops k = ground arith

    missing :
        start < end → f.0 ≡ none → check_loop (suc fuel) mm start end write ≡ some (false, f.1)
    missing k e = ground arith

    refuses :
        start < end
        → (v : Vma) → f.0 ≡ some v
        → admits v write start ≡ false
        → check_loop (suc fuel) mm start end write ≡ some (false, f.1)
    refuses k v e a = ground arith

    goes_on :
        start < end
        → (v : Vma) → f.0 ≡ some v
        → admits v write start ≡ true
        → check_loop (suc fuel) mm start end write ≡ check_loop fuel f.1 v.vm_end end write
    goes_on k v e a = ground arith

-- On areas in order, and for a 64-bit address and length, `user_mem_check` comes to an answer. It says yes exactly if the range lies in the user's
-- part of memory and each address of it lies in an area that may be read, or written and is not the
-- lowest page of a stack; the areas stay as they are.
pub user_mem_check-Allowed :
    (mm : Mm) (addr len : ℕ) (write : Bool)
    → IsMm mm
    → addr < 2 ^ 64
    → len < 2 ^ 64
    → (b : Bool) × (mm' : Mm) × (user_mem_check (some mm) addr len write ≡ some (b, some mm'))
      × IsMm mm'
      × (mm'.mmap_list ≡ mm.mmap_list)
      × ((b ≡ true) ↔ (
          (user_access addr ((addr + len) % 2 ^ 64) ≡ true)
          × ((a : ℕ) → addr ≤ a → a < addr + len → Allowed mm write a)))
unfolding user_mem_check
user_mem_check-Allowed mm addr len write ok ha hl =
    answer (check_loop len mm addr end write) refl
      (check_loop-Answers len mm addr end write ok (omega arith))
  where
    end : ℕ
    end = (addr + len) % 2 ^ 64

    answer :
        (r : Option (Bool × Mm))
        → check_loop len mm addr end write ≡ r
        → Answers mm addr end write r
        → (b : Bool) × (mm' : Mm) × (user_mem_check (some mm) addr len write ≡ some (b, some mm'))
          × IsMm mm'
          × (mm'.mmap_list ≡ mm.mmap_list)
          × ((b ≡ true) ↔ (
              (user_access addr end ≡ true)
              × ((a : ℕ) → addr ≤ a → a < addr + len → Allowed mm write a)))
    answer none e h = absurd h
    answer (some (b, m)) e (ok', same, (to, from)) = elim (Bool-cases (user_access addr end)) [
      | inl u ↦ (
        b,
        m,
        ground arith,
        ok',
        same,
        (
          λ t. (u, λ a l k. to t a l (ground arith)),
          λ (u', all). from (λ a l k. all a l (ground arith)),
        ),
      )
      | inr u ↦ (false, mm, ground arith, ok, refl, (λ t. absurd (cc), λ (u', all). absurd (cc)))
    ]
