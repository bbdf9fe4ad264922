-- ===== src/Vm/Checks.antt =====
-- kern/mm/vmm.c: `user_mem_check`.
use ucoreonrv.Prelude.{
  ℕ, zero, suc, ◌+◌, ◌%◌, ◌^◌, Bool, true, false, not, ◌&&◌, Option, none, some, ltb, leb,
  if◌then◌else◌,
}
use ucoreonrv.Vm.{Vma, Mm, vm_read, vm_write, vm_stack}
use ucoreonrv.Vm.Areas.{find_in, user_access, pgsize}

-- kern/mm/memlayout.h
abbrev pub kernbase : ℕ
kernbase = 18446744072637906944

abbrev pub kerntop : ℕ
kerntop = kernbase + 132120576

abbrev pub kern_access : (start end : ℕ) → Bool
kern_access start end = leb kernbase start && (ltb start end && leb end kerntop)

-- The tests that one step of the loop makes on the area of `start`. The lowest page of a stack is
-- not writable.
unfoldable pub admits : Vma → (write : Bool) → (start : ℕ) → Bool
admits v write start =
    leb v.vm_start start
    && ((if write then vm_write v.vm_flags else vm_read v.vm_flags)
        && not (write && (vm_stack v.vm_flags && ltb start (v.vm_start + pgsize))))

-- The loop of `user_mem_check`, `none` if the fuel is used up.
unfoldable pub check_loop : (fuel : ℕ) → Mm → (start end : ℕ) → (write : Bool) → Option (Bool × Mm)
check_loop zero mm start end write = if ltb start end then none else some (true, mm)
check_loop (suc fuel) mm start end write =
    let (found, mm') = find_in mm start in
    if ltb start end
    then elim found [
      | none ↦ some (false, mm')
      | some v ↦ elim (admits v write start) [
        | false ↦ some (false, mm')
        | true ↦ check_loop fuel mm' v.vm_end end write
      ]
    ]
    else some (true, mm)

-- Each step of the loop goes up, so that `len` steps are enough.
unfoldable pub user_mem_check :
    Option Mm → (addr len : ℕ) → (write : Bool) → Option (Bool × Option Mm)
user_mem_check none addr len write = some (kern_access addr ((addr + len) % 2 ^ 64), none)
user_mem_check (some mm) addr len write =
    let end = (addr + len) % 2 ^ 64 in
    let checked = check_loop len mm addr end write in
    if user_access addr end
    then elim checked [ none ↦ none | some r ↦ some (r.0, some r.1) ]
    else some (false, some mm)
