-- ===== src/Vm/Mapping.antt =====
-- kern/mm/vmm.c: `mm_map`.
use ucoreonrv.Prelude.{
  ℕ, ◌+◌, ◌<◌, ◌%◌, ◌^◌, ◌≡◌, ◌⊎◌, inl, inr, refl, Bool-cases, sym, ◌∙◌, subst, Bool, true, false,
  Option, none, some, arith, if◌then◌else◌,
}
use ucoreonrv.Prelude.Int.{ℤ, pos}
use ucoreonrv.Prelude.Errors.{fault, Ends, err, e_inval, e_no_mem}
use ucoreonrv.Vm.{Vma, Mm}
use ucoreonrv.Vm.Areas.{
  walk, find_in, map_range, mm_map, add_new, vma_create, user_access, rounddown, roundup, pgsize,
}
use ucoreonrv.Vm.Search.{IsMm}
use ucoreonrv.Vm.Insert.{clear, Holds}
use ucoreonrv.Vm.Range.{
  same, ok', outside, occupied, unmapped, clear-unmapped, add-overlap, add-clear, added-Holds,
}

-- The pages that hold the range.
abbrev pub first_page : ℕ → ℕ
first_page addr = rounddown addr pgsize

abbrev pub last_page : (addr len : ℕ) → ℕ
last_page addr len = roundup ((addr + len) % 2 ^ 64) pgsize

abbrev pub area : (addr len flags : ℕ) → Vma
area addr len flags = record {
  vm_start = first_page addr;
  vm_end = last_page addr len;
  vm_flags = flags;
}

-- The code is that of an error, and the areas are as they were.
abbrev pub Failed : ℕ → Mm → ℤ × Option Vma × Mm → Type 0
Failed e mm r = (r.0 ≡ err e) × (r.2.mmap_list ≡ mm.mmap_list) × IsMm r.2

-- The area is there and is handed out.
abbrev pub Mapped : Vma → Mm → ℤ × Option Vma × Mm → Type 0
Mapped v mm r = (r.0 ≡ pos 0) × (r.1 ≡ some v) × Holds v mm r.2

-- What `mm_map` refuses with an error code: a range outside the user's part of memory, or one whose
-- first page is mapped.
abbrev pub Refused : Mm → (addr len : ℕ) → Type 0
Refused mm addr len =
    (user_access (first_page addr) (last_page addr len) ≡ false)
    ⊎ ((v : Vma) × (walk mm.mmap_list (first_page addr) ≡ some v))

-- On areas in order, for a range that is refused (outside the user's part of memory, or with its
-- first page mapped), the code is `-E_INVAL` and the areas stay as they are.
mm_map-refuses :
    (kmalloc : Bool) (mm : Mm) (addr len flags : ℕ)
    → IsMm mm
    → Refused mm addr len
    → Ends (Failed e_inval mm) (mm_map kmalloc mm addr len flags)
unfolding mm_map
mm_map-refuses kmalloc mm addr len flags ok h = refuses h
  where
    beyond :
        user_access (first_page addr) (last_page addr len) ≡ false
        → Ends
            (Failed e_inval mm)
            (map_range kmalloc mm (first_page addr) (last_page addr len) flags)
    beyond u =
        subst (Ends (Failed e_inval mm))
          (sym (outside mm (first_page addr) (last_page addr len) flags ok kmalloc u))
          (refl, refl, ok)

    refuses :
        Refused mm addr len
        → Ends
            (Failed e_inval mm)
            (map_range kmalloc mm (first_page addr) (last_page addr len) flags)
    refuses (inl u) = beyond u
    refuses (inr (v, e)) = elim (Bool-cases (user_access (first_page addr) (last_page addr len))) [
      | inl u ↦
          subst (Ends (Failed e_inval mm)) (sym (occupied mm _ _ flags ok kmalloc v u e))
            (refl, same mm (first_page addr) 0 0 ok, ok' mm (first_page addr) 0 0 ok)
      | inr u ↦ beyond u
    ]

-- On areas in order, a range of free pages in the user's part of memory is mapped with its flags, the pages before and
-- behind it stay as they are, and the code is 0; without memory for the area it is `-E_NO_MEM` and
-- the areas stay as they are.
pub mm_map-Holds :
    (kmalloc : Bool) (mm : Mm) (addr len flags : ℕ)
    → IsMm mm
    → user_access (first_page addr) (last_page addr len) ≡ true
    → clear (area addr len flags) mm.mmap_list ≡ true
    → Ends
        (λ r. if kmalloc then Mapped (area addr len flags) mm r else Failed e_no_mem mm r)
        (mm_map kmalloc mm addr len flags)
unfolding mm_map add_new vma_create
mm_map-Holds kmalloc mm addr len flags ok u c =
    subst (Ends (λ r. if kmalloc then Mapped (area addr len flags) mm r else Failed e_no_mem mm r))
      (sym (unmapped mm _ _ flags ok kmalloc u free)) (cases kmalloc)
  where
    start : ℕ
    start = first_page addr

    end : ℕ
    end = last_page addr len

    up : start < end
    up = ground arith

    free : walk mm.mmap_list start ≡ none
    free = clear-unmapped mm start end flags ok up c

    cases :
        (k : Bool)
        → Ends
            (λ r. if k then Mapped (area addr len flags) mm r else Failed e_no_mem mm r)
            (add_new (find_in mm start).1 (vma_create k start end flags))
    cases true =
        subst (Ends (Mapped (area addr len flags) mm)) (sym (add-clear mm start end flags ok up c))
          (refl, refl, added-Holds mm start end flags ok up c)
    cases false = (refl, same mm start end flags ok, ok' mm start end flags ok)

-- On areas in order and with memory for a new one, for a range in the user's part of memory only the
-- first page is looked up: if it is free and a later page of the range is not, then the
-- assertion that areas do not overlap fails.
mm_map-overlap :
    (mm : Mm) (addr len flags : ℕ)
    → IsMm mm
    → user_access (first_page addr) (last_page addr len) ≡ true
    → walk mm.mmap_list (first_page addr) ≡ none
    → clear (area addr len flags) mm.mmap_list ≡ false
    → mm_map true mm addr len flags ≡ fault
unfolding mm_map add_new vma_create
mm_map-overlap mm addr len flags ok u free c =
    unmapped mm _ _ flags ok true u free ∙ add-overlap mm _ _ flags ok (ground arith) c
