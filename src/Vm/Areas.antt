-- ===== src/Vm/Areas.antt =====
-- kern/mm/vmm.c: finding, inserting and mapping areas.
use ucoreonrv.Prelude.{
  ℕ, ◌+◌, ◌-◌, ◌%◌, ◌^◌, Bool, false, not, ◌&&◌, Option, none, some, List, [], ◌∷◌, ltb, leb,
  if◌then◌else◌,
}
use ucoreonrv.Prelude.Int.{ℤ, pos}
use ucoreonrv.Prelude.Errors.{Run, done, assert, ◌>>=◌, ◌>>◌, err, e_inval, e_no_mem}
use ucoreonrv.Vm.{Vma, Mm}

-- kern/mm/memlayout.h
abbrev pub userbase : ℕ
userbase = 2097152

abbrev pub usertop : ℕ
usertop = 2147483648

abbrev pub pgsize : ℕ
pgsize = 4096

abbrev pub user_access : (start end : ℕ) → Bool
user_access start end = leb userbase start && (ltb start end && leb end usertop)

-- libs/defs.h
abbrev pub rounddown : (a n : ℕ) → ℕ
rounddown a n = a - a % n

-- The sum is one of `size_t`.
abbrev pub roundup : (a n : ℕ) → ℕ
roundup a n = rounddown ((a + n - 1) % 2 ^ 64) n

abbrev pub in_vma : Vma → ℕ → Bool
in_vma v addr = leb v.vm_start addr && ltb addr v.vm_end

-- The loop of `find_vma`.
unfoldable pub walk : List Vma → ℕ → Option Vma
walk [] addr = none
walk (v ∷ vs) addr = if in_vma v addr then some v else walk vs addr

-- `mmap_cache` holds the address.
abbrev pub cached : Option Vma → ℕ → Bool
cached none addr = false
cached (some c) addr = in_vma c addr

-- A found area goes to the cache.
abbrev pub remember : Mm → Option Vma → Option Vma × Mm
remember mm none = (none, mm)
remember mm (some v) = (some v, record mm { mmap_cache = some v })

-- What `find_vma` does where `mm` is not NULL.
unfoldable pub find_in : Mm → ℕ → Option Vma × Mm
unfolding walk
find_in mm addr =
    remember mm (if cached mm.mmap_cache addr then mm.mmap_cache else walk mm.mmap_list addr)

unfoldable pub find_vma : Option Mm → ℕ → Option Vma × Option Mm
unfolding find_in
find_vma none addr = (none, none)
find_vma (some mm) addr = ((find_in mm addr).0, some (find_in mm addr).1)

unfoldable pub check_vma_overlap : (prev next : Vma) → Run (Unit {0})
check_vma_overlap prev next = do
  assert (ltb prev.vm_start prev.vm_end)
  assert (leb prev.vm_end next.vm_start)
  assert (ltb next.vm_start next.vm_end)

-- The check against the area before, if there is one.
unfoldable pub check_prev : Option Vma → Vma → Run (Unit {0})
check_prev none v = done tt
check_prev (some p) v = check_vma_overlap p v

-- The loop of `insert_vma_struct` and the insertion where it stops; `prev` is `le_prev`.
unfoldable pub insert_from : (prev : Option Vma) → List Vma → Vma → Run (List Vma)
unfolding check_prev
insert_from prev [] v = do check_prev prev v; done (v ∷ [])
insert_from prev (n ∷ ns) v =
    let rest = insert_from (some n) ns v in
    if ltb v.vm_start n.vm_start
    then (do check_prev prev v; check_vma_overlap v n; done (v ∷ n ∷ ns))
    else (do vs ← rest; done (n ∷ vs))

unfoldable pub insert_vma_struct : Mm → Vma → Run Mm
unfolding insert_from
insert_vma_struct mm v = do
  assert (ltb v.vm_start v.vm_end)
  vs ← insert_from none mm.mmap_list v
  done (record mm { mmap_list = vs; map_count = mm.map_count + 1 })

-- `kmalloc` says whether the allocation in `vma_create` succeeds.
unfoldable pub vma_create : (kmalloc : Bool) → (vm_start vm_end vm_flags : ℕ) → Option Vma
vma_create kmalloc vm_start vm_end vm_flags =
    if kmalloc
    then some (record { vm_start = vm_start; vm_end = vm_end; vm_flags = vm_flags })
    else none

-- `mm_map` from the allocation on; the result also has what `*vma_store` receives.
unfoldable pub add_new : Mm → Option Vma → Run (ℤ × Option Vma × Mm)
add_new mm none = done (err e_no_mem, none, mm)
add_new mm (some v) = do mm' ← insert_vma_struct mm v; done (pos 0, some v, mm')

abbrev pub taken : Option Vma → ℕ → Bool
taken none end = false
taken (some v) end = ltb v.vm_start end

-- `mm_map` on the range of whole pages.
unfoldable pub map_range :
    (kmalloc : Bool) → Mm → (start end vm_flags : ℕ) → Run (ℤ × Option Vma × Mm)
unfolding add_new vma_create
map_range kmalloc mm start end vm_flags =
    let (found, mm') = find_in mm start in
    if not (user_access start end)
    then done (err e_inval, none, mm)
    else if taken found end
    then done (err e_inval, none, mm')
    else add_new mm' (vma_create kmalloc start end vm_flags)

unfoldable pub mm_map : (kmalloc : Bool) → Mm → (addr len vm_flags : ℕ) → Run (ℤ × Option Vma × Mm)
unfolding map_range
mm_map kmalloc mm addr len vm_flags =
    map_range kmalloc mm (rounddown addr pgsize) (roundup ((addr + len) % 2 ^ 64) pgsize) vm_flags
