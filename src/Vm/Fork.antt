-- ===== src/Vm/Fork.antt =====
-- kern/mm/vmm.c: `dup_mmap`, which copies the areas of an address space into a new one.
use ucoreonrv.Prelude.{
  ℕ, ◌+◌, ◌≡◌, inl, inr, refl, sym, ◌∙◌, subst, ap, Bool, true, false, ◌&&◌, Option, none, some,
  List, [], ◌∷◌, arith, if◌then◌else◌, Bool-cases,
}
use ucoreonrv.Prelude.Int.{ℤ, pos, eqb_ℤ}
use ucoreonrv.Prelude.Errors.{Run, done, Ends, Ends-bind, err, e_no_mem, ◌>>=◌}
use ucoreonrv.Vm.{Vma, Mm}
use ucoreonrv.Vm.Areas.{insert_vma_struct, vma_create}
use ucoreonrv.Vm.Search.{Ordered, IsMm}
use ucoreonrv.Vm.Insert.{clear, clear-above, placed, placed-IsMm, insert_vma_struct_lem}

-- `kmalloc` says whether the area can be allocated that copies the given one, and `copy_range` is
-- what the copy of its page table entries returns; the page tables are not modelled.
module _ (kmalloc : Vma → Bool) (copy_range : (start end : ℕ) → ℤ) where
  -- The body of the loop, from the allocation on.
  unfoldable pub insert_copy : Mm → Option Vma → Run (ℤ × Mm)
  insert_copy to none = done (err e_no_mem, to)
  insert_copy to (some nvma) = do
    to' ← insert_vma_struct to nvma
    done (
        if eqb_ℤ (copy_range nvma.vm_start nvma.vm_end) (pos 0)
        then (pos 0, to')
        else (err e_no_mem, to'))

  unfoldable pub dup_vma : Vma → ℤ × Mm → Run (ℤ × Mm)
  unfolding insert_copy vma_create
  dup_vma v (ret, to) =
      if eqb_ℤ ret (pos 0)
      then insert_copy to (vma_create (kmalloc v) v.vm_start v.vm_end v.vm_flags)
      else done (ret, to)

  -- The loop goes backwards, so that the rest of the list comes before its head.
  unfoldable pub dup_from : List Vma → Mm → Run (ℤ × Mm)
  unfolding dup_vma
  dup_from [] to = done (pos 0, to)
  dup_from (v ∷ vs) to = do r ← dup_from vs to; dup_vma v r

  unfoldable pub dup_mmap : (to from : Mm) → Run (ℤ × Mm)
  unfolding dup_from
  dup_mmap to from = dup_from from.mmap_list to

  -- The allocation and the copy of an area both succeed.
  abbrev pub copies : Vma → Bool
  copies v = kmalloc v && eqb_ℤ (copy_range v.vm_start v.vm_end) (pos 0)

  abbrev pub all_copied : List Vma → Bool
  all_copied [] = true
  all_copied (v ∷ vs) = all_copied vs && copies v

  abbrev pub Copied : List Vma → ℤ × Mm → Type 0
  Copied vs (ret, to) =
      IsMm to
      × (ret ≡ (if all_copied vs then pos 0 else err e_no_mem))
      × (all_copied vs ≡ true → to.mmap_list ≡ vs)

  placed-first : (lo : ℕ) (v : Vma) (vs : List Vma) → Ordered lo (v ∷ vs) → placed v vs ≡ v ∷ vs
  placed-first lo v [] o = refl
  placed-first lo v (n ∷ ns) o = ground arith

  dup_vma-Copied :
      (lo : ℕ) (v : Vma) (vs : List Vma)
      → Ordered lo (v ∷ vs)
      → (r : ℤ × Mm) → Copied vs r
      → Ends (Copied (v ∷ vs)) (dup_vma v r)
  unfolding dup_vma insert_copy vma_create
  dup_vma-Copied lo v vs (l, h, o) (ret, to) (ok, c, same) =
      elim (Bool-cases (all_copied vs && kmalloc v)) [
        | inl t ↦ subst (Ends (Copied (v ∷ vs))) (sym (inserts t)) (
          (placed-IsMm to v ok h (free t)).0,
          ground arith,
          λ all. ap (placed v) (same (ground arith)) ∙ placed-first lo v vs (l, h, o),
        )
        | inr t ↦
            subst (Ends (Copied (v ∷ vs))) (sym (stops t))
              (ok, ground arith, λ all. absurd (ground arith))
      ]
    where
      free : (all_copied vs && kmalloc v) ≡ true → clear v to.mmap_list ≡ true
      free t =
          subst (λ l. clear v l ≡ true) (sym (same (ground arith)))
            (clear-above v.vm_end v vs o (omega arith))

      inserts :
          (all_copied vs && kmalloc v) ≡ true
          → dup_vma v (ret, to)
            ≡ done (
              (if eqb_ℤ (copy_range v.vm_start v.vm_end) (pos 0) then pos 0 else err e_no_mem),
              record to { mmap_list = placed v to.mmap_list; map_count = to.map_count + 1 },
            )
      inserts t = ground (arith, insert_vma_struct_lem to v ok h, free t)

      stops : (all_copied vs && kmalloc v) ≡ false → dup_vma v (ret, to) ≡ done (err e_no_mem, to)
      stops t = ground arith

  dup_from-Copied :
      (lo : ℕ) (vs : List Vma) (to : Mm)
      → Ordered lo vs
      → IsMm to
      → to.mmap_list ≡ []
      → Ends (Copied vs) (dup_from vs to)
  unfolding dup_from
  dup_from-Copied lo [] to o ok e = (ok, refl, λ t. e)
  dup_from-Copied lo (v ∷ vs) to (l, h, o) ok e =
      Ends-bind (Copied vs) (Copied (v ∷ vs)) _ _ (dup_from-Copied v.vm_end vs to o ok e)
        (dup_vma-Copied lo v vs (l, h, o))

  -- Copying areas in order into an empty address space fails no assertion. If every allocation and every copy of
  -- page table entries succeeds, the code is 0 and the areas are the same; else it is `-E_NO_MEM`.
  pub dup_mmap-Copied :
      (to from : Mm)
      → IsMm from
      → IsMm to
      → to.mmap_list ≡ []
      → Ends (Copied from.mmap_list) (dup_mmap to from)
  unfolding dup_mmap
  dup_mmap-Copied to from ok ok' e = dup_from-Copied 0 from.mmap_list to ok.ordered ok' e
