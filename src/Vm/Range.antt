-- ===== src/Vm/Range.antt =====
-- kern/mm/vmm.c: the branches of `mm_map` on a range of whole pages.
use ucoreonrv.Prelude.{
  ℕ, ◌+◌, ◌<◌, ◌≡◌, inl, inr, Option-cases, sym, ◌∙◌, subst, ap, Bool, true, false, Option, none,
  some, arith, if◌then◌else◌,
}
use ucoreonrv.Prelude.Int.{pos}
use ucoreonrv.Prelude.Errors.{fault, done, err, e_inval}
use ucoreonrv.Vm.{Vma, Mm}
use ucoreonrv.Vm.Areas.{in_vma, walk, find_in, map_range, add_new, vma_create, user_access}
use ucoreonrv.Vm.Search.{IsMm, find_in-Finds, walk-some}
use ucoreonrv.Vm.Insert.{clear, clear-walk, placed, placed-IsMm, insert_vma_struct_lem, Holds}

abbrev range : (start end flags : ℕ) → Vma
range start end flags = record { vm_start = start; vm_end = end; vm_flags = flags }

module _ (mm : Mm) (start end flags : ℕ) (ok : IsMm mm) where
  abbrev looked : Option Vma × Mm
  looked = find_in mm start

  found : looked.0 ≡ walk mm.mmap_list start
  found = (find_in-Finds mm start ok).0

  pub same : looked.1.mmap_list ≡ mm.mmap_list
  same = (find_in-Finds mm start ok).1

  pub ok' : IsMm looked.1
  ok' = (find_in-Finds mm start ok).2

  pub outside :
      (kmalloc : Bool)
      → user_access start end ≡ false
      → map_range kmalloc mm start end flags ≡ done (err e_inval, none, mm)
  unfolding map_range
  outside kmalloc u = ground arith

  pub occupied :
      (kmalloc : Bool) (v : Vma)
      → user_access start end ≡ true
      → walk mm.mmap_list start ≡ some v
      → map_range kmalloc mm start end flags ≡ done (err e_inval, none, looked.1)
  unfolding map_range
  occupied kmalloc v u e = ground (arith, found, walk-some 0 mm.mmap_list start v ok.ordered e)

  pub unmapped :
      (kmalloc : Bool)
      → user_access start end ≡ true
      → walk mm.mmap_list start ≡ none
      → map_range kmalloc mm start end flags ≡ add_new looked.1 (vma_create kmalloc start end flags)
  unfolding map_range
  unmapped kmalloc u e = ground (arith, found)

  new_clear :
      (b : Bool)
      → clear (range start end flags) mm.mmap_list ≡ b
      → clear (range start end flags) looked.1.mmap_list ≡ b
  new_clear b = subst (λ l. clear (range start end flags) l ≡ b) (sym same)

  -- An area at `start` overlaps a range from there on.
  pub clear-unmapped :
      start < end
      → clear (range start end flags) mm.mmap_list ≡ true
      → walk mm.mmap_list start ≡ none
  clear-unmapped h c = elim (Option-cases (walk mm.mmap_list start)) [
    | inl e ↦ e
    | inr (v, e) ↦
        absurd (ground (arith, clear-walk (range start end flags) mm.mmap_list start v c e))
  ]

  pub add-overlap :
      start < end
      → clear (range start end flags) mm.mmap_list ≡ false
      → add_new looked.1 (vma_create true start end flags) ≡ fault
  unfolding add_new vma_create
  add-overlap h c =
      ground
        (arith, insert_vma_struct_lem looked.1 (range start end flags) ok' h, new_clear false c)

  abbrev added : Mm
  added = record looked.1 {
    mmap_list = placed (range start end flags) looked.1.mmap_list;
    map_count = looked.1.map_count + 1;
  }

  pub add-clear :
      start < end
      → clear (range start end flags) mm.mmap_list ≡ true
      → add_new looked.1 (vma_create true start end flags)
        ≡ done (pos 0, some (range start end flags), added)
  unfolding add_new vma_create
  add-clear h c =
      ground (arith, insert_vma_struct_lem looked.1 (range start end flags) ok' h, new_clear true c)

  pub added-Holds :
      start < end
      → clear (range start end flags) mm.mmap_list ≡ true
      → Holds (range start end flags) mm added
  added-Holds h c =
      let (held, finds) = placed-IsMm looked.1 (range start end flags) ok' h (new_clear true c) in
      (
        held,
        λ a.
            finds a
            ∙ ap
                (λ l.
                  if in_vma (range start end flags) a
                  then some (range start end flags)
                  else walk l a)
                same,
      )
