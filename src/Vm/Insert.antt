-- ===== src/Vm/Insert.antt =====
-- kern/mm/vmm.c: `insert_vma_struct`.
use ucoreonrv.Prelude.{
  ℕ, ◌+◌, ◌≤◌, ◌<◌, ◌≡◌, refl, sym, subst, Bool, true, false, not, ◌&&◌, Option, none, some, List,
  [], ◌∷◌, length, arith, ltb, if◌then◌else◌,
}
use ucoreonrv.Prelude.Errors.{fault, done, Ends}
use ucoreonrv.Vm.{Vma, Mm}
use ucoreonrv.Vm.Areas.{in_vma, walk, check_prev, check_vma_overlap, insert_from, insert_vma_struct}
use ucoreonrv.Vm.Search.{Ordered, IsMm}

abbrev pub overlaps : (v w : Vma) → Bool
overlaps v w = ltb w.vm_start v.vm_end && ltb v.vm_start w.vm_end

-- `v` overlaps no area of the list.
abbrev pub clear : Vma → List Vma → Bool
clear v [] = true
clear v (n ∷ ns) = not (overlaps v n) && clear v ns

-- `v` at its place in the sorted list.
abbrev pub placed : Vma → List Vma → List Vma
placed v [] = v ∷ []
placed v (n ∷ ns) = if ltb v.vm_start n.vm_start then v ∷ n ∷ ns else n ∷ placed v ns

-- The area before the place that the loop has reached.
abbrev Before : Option Vma → Vma → List Vma → Type 0
Before none v ns = Ordered 0 ns
Before (some p) v ns = (p.vm_start < p.vm_end) × (p.vm_start ≤ v.vm_start) × Ordered p.vm_end ns

abbrev clear_prev : Option Vma → Vma → Bool
clear_prev none v = true
clear_prev (some p) v = not (overlaps v p)

pub clear-above :
    (lo : ℕ) (v : Vma) (ns : List Vma) → Ordered lo ns → v.vm_end ≤ lo → clear v ns ≡ true
clear-above lo v [] o h = refl
clear-above lo v (n ∷ ns) o h = ground (arith, clear-above n.vm_end v ns)

check_prev_lem :
    (prev : Option Vma) (v : Vma) (ns : List Vma)
    → Before prev v ns
    → v.vm_start < v.vm_end
    → check_prev prev v ≡ (if clear_prev prev v then done tt else fault)
unfolding check_prev check_vma_overlap
check_prev_lem none v ns b h = refl
check_prev_lem (some p) v ns b h = ground arith

-- The loop ends with the area at its place if it overlaps none, and in a failed assertion else.
insert_from_lem :
    (prev : Option Vma) (ns : List Vma) (v : Vma)
    → Before prev v ns
    → v.vm_start < v.vm_end
    → insert_from prev ns v
      ≡ (if clear_prev prev v && clear v ns then done (placed v ns) else fault)
unfolding insert_from check_vma_overlap
insert_from_lem prev [] v b h = ground (arith, check_prev_lem prev v [] b h)
insert_from_lem none (n ∷ ns) v b h = ground (
  arith,
  check_prev_lem none v (n ∷ ns) b h,
  insert_from_lem (some n) ns v,
  clear-above n.vm_end v ns,
)
insert_from_lem (some p) (n ∷ ns) v b h = ground (
  arith,
  check_prev_lem (some p) v (n ∷ ns) b h,
  insert_from_lem (some n) ns v,
  clear-above n.vm_end v ns,
)

walk-placed :
    (v : Vma) (ns : List Vma) (a : ℕ)
    → clear v ns ≡ true
    → walk (placed v ns) a ≡ (if in_vma v a then some v else walk ns a)
unfolding walk
walk-placed v [] a c = refl
walk-placed v (n ∷ ns) a c = ground (arith, walk-placed v ns a)

pub clear-walk :
    (v : Vma) (ns : List Vma) (a : ℕ) (k : Vma)
    → clear v ns ≡ true
    → walk ns a ≡ some k
    → in_vma v a ≡ false
unfolding walk
clear-walk v [] a k c e = absurd (cc)
clear-walk v (n ∷ ns) a k c e = ground (arith, clear-walk v ns a k)

placed-Ordered :
    (lo : ℕ) (v : Vma) (ns : List Vma)
    → Ordered lo ns
    → lo ≤ v.vm_start
    → v.vm_start < v.vm_end
    → clear v ns ≡ true
    → Ordered lo (placed v ns)
placed-Ordered lo v [] o l h c = (l, h, tt)
placed-Ordered lo v (n ∷ ns) o l h c = ground (arith, placed-Ordered n.vm_end v ns)

length-placed : (v : Vma) (ns : List Vma) → length (placed v ns) ≡ length ns + 1
length-placed v [] = refl
length-placed v (n ∷ ns) = ground (arith, length-placed v ns)

-- `v` is there, and everything else as before.
abbrev pub Holds : Vma → Mm → Mm → Type 0
Holds v mm mm' =
    IsMm mm'
    × ((a : ℕ) → walk mm'.mmap_list a ≡ (if in_vma v a then some v else walk mm.mmap_list a))

pub placed-IsMm :
    (mm : Mm) (v : Vma)
    → IsMm mm
    → v.vm_start < v.vm_end
    → clear v mm.mmap_list ≡ true
    → Holds v mm (record mm { mmap_list = placed v mm.mmap_list; map_count = mm.map_count + 1 })
placed-IsMm mm v ok h c = (
  record {
    ordered = placed-Ordered 0 v mm.mmap_list ok.ordered (omega arith) h c;
    cache_ok = λ k e a i. ground (
      arith,
      walk-placed v mm.mmap_list a c,
      ok.cache_ok k e a i,
      clear-walk v mm.mmap_list a k c (ok.cache_ok k e a i),
    );
    counted = omega (arith, ok.counted, length-placed v mm.mmap_list);
  },
  λ a. walk-placed v mm.mmap_list a c,
)

-- Both cases: the area goes to its place, or an assertion fails.
pub insert_vma_struct_lem :
    (mm : Mm) (v : Vma)
    → IsMm mm
    → v.vm_start < v.vm_end
    → insert_vma_struct mm v ≡ (
        if clear v mm.mmap_list
        then done (record mm { mmap_list = placed v mm.mmap_list; map_count = mm.map_count + 1 })
        else fault)
unfolding insert_vma_struct
insert_vma_struct_lem mm v ok h = ground (arith, insert_from_lem none mm.mmap_list v ok.ordered h)

-- Into areas in order, one that is not empty and overlaps none of them is inserted, and they stay in
-- order: it is found at exactly its own addresses, and every
-- other area where it was.
insert_vma_struct-Holds :
    (mm : Mm) (v : Vma)
    → IsMm mm
    → v.vm_start < v.vm_end
    → clear v mm.mmap_list ≡ true
    → Ends (Holds v mm) (insert_vma_struct mm v)
insert_vma_struct-Holds mm v ok h c =
    subst (Ends (Holds v mm)) (sym inserted) (placed-IsMm mm v ok h c)
  where
    inserted :
        insert_vma_struct mm v
        ≡ done (record mm { mmap_list = placed v mm.mmap_list; map_count = mm.map_count + 1 })
    inserted = ground (arith, insert_vma_struct_lem mm v ok h)
