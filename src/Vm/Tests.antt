-- ===== src/Vm/Tests.antt =====
-- Runs of kern/mm/vmm.c on an address space of two areas, the second of them a stack.
use ucoreonrv.Prelude.{
  ℕ, ◌+◌, ◌≤◌, ◌<◌, ◌%◌, ◌^◌, ◌≡◌, ◌↔◌, refl, Bool, true, none, some, [], ◌∷◌, arith, if◌then◌else◌,
}
use ucoreonrv.Prelude.Int.{pos}
use ucoreonrv.Prelude.Errors.{Ends, e_no_mem}
use ucoreonrv.Vm.{Vma, Mm}
use ucoreonrv.Vm.Areas.{mm_map, user_access}
use ucoreonrv.Vm.Search.{IsMm}
use ucoreonrv.Vm.Mapping.{area, Failed, Mapped, mm_map-Holds}
use ucoreonrv.Vm.Checks.{user_mem_check}
use ucoreonrv.Vm.Access.{Allowed, user_mem_check-Allowed}
use ucoreonrv.Vm.Fork.{dup_mmap, Copied, dup_mmap-Copied}

abbrev data_area : Vma
data_area = record { vm_start = 2097152; vm_end = 2101248; vm_flags = 3 }

abbrev stack_area : Vma
stack_area = record { vm_start = 4194304; vm_end = 4202496; vm_flags = 11 }

abbrev demo : Mm
demo = record { mmap_list = data_area ∷ stack_area ∷ []; mmap_cache = none; map_count = 2 }

abbrev empty : Mm
empty = record { mmap_list = []; mmap_cache = none; map_count = 0 }

demo-IsMm : IsMm demo
demo-IsMm = record {
  ordered = (omega arith, omega arith, (omega arith, omega arith, tt));
  cache_ok = λ c e a h. absurd (cc);
  counted = refl;
}

empty-IsMm : IsMm empty
empty-IsMm = record { ordered = tt; cache_ok = λ c e a h. absurd (cc); counted = refl }

abbrev gap_area : Vma
gap_area = record { vm_start = 3145728; vm_end = 3149824; vm_flags = 1 }

mm_map-Holds_example :
    Ends
      (λ r. if true then Mapped (area 3145729 5000 3) demo r else Failed e_no_mem demo r)
      (mm_map true demo 3145729 5000 3)
mm_map-Holds_example = mm_map-Holds true demo 3145729 5000 3 demo-IsMm refl refl

user_mem_check-Allowed_example :
    (b : Bool) × (mm' : Mm) × (user_mem_check (some demo) 2097200 100 true ≡ some (b, some mm'))
    × IsMm mm'
    × (mm'.mmap_list ≡ demo.mmap_list)
    × ((b ≡ true) ↔ (
        (user_access 2097200 ((2097200 + 100) % 2 ^ 64) ≡ true)
        × ((a : ℕ) → 2097200 ≤ a → a < 2097200 + 100 → Allowed demo true a)))
user_mem_check-Allowed_example =
    user_mem_check-Allowed demo 2097200 100 true demo-IsMm (omega arith) (omega arith)

dup_mmap-Copied_example :
    Ends
      (Copied (λ v. true) (λ start end. pos 0) (data_area ∷ stack_area ∷ []))
      (dup_mmap (λ v. true) (λ start end. pos 0) empty demo)
dup_mmap-Copied_example =
    dup_mmap-Copied (λ v. true) (λ start end. pos 0) empty demo demo-IsMm empty-IsMm refl
