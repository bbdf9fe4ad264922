-- ===== src/Vm/Search.antt =====
-- kern/mm/vmm.c: `find_vma`. The areas of a list are disjoint and sorted, and the cache agrees with
-- the list.
use ucoreonrv.Prelude.{
  ℕ, ◌≤◌, ◌<◌, ◌≡◌, refl, true, Option, none, some, List, [], ◌∷◌, length, arith, if◌then◌else◌,
}
use ucoreonrv.Vm.{Vma, Mm}
use ucoreonrv.Vm.Areas.{in_vma, walk, find_in, remember, cached}

-- Disjoint areas, none of them empty, in increasing order from `lo` on.
abbrev pub Ordered : ℕ → List Vma → Type 0
Ordered lo [] = Unit
Ordered lo (v ∷ vs) = (lo ≤ v.vm_start) × (v.vm_start < v.vm_end) × Ordered v.vm_end vs

pub record IsMm (mm : Mm) : Type 0 where
  pub ordered : Ordered 0 mm.mmap_list
  pub cache_ok :
      (c : Vma)
      → mm.mmap_cache ≡ some c
      → (a : ℕ) → in_vma c a ≡ true
      → walk mm.mmap_list a ≡ some c
  pub counted : mm.map_count ≡ length mm.mmap_list

-- What `walk` finds lies above the bound of the list, and holds the address.
pub walk-some :
    (lo : ℕ) (vs : List Vma) (a : ℕ) (v : Vma)
    → Ordered lo vs
    → walk vs a ≡ some v
    → (lo ≤ v.vm_start) × (in_vma v a ≡ true)
unfolding walk
walk-some lo [] a v o e = absurd (cc)
walk-some lo (n ∷ ns) a v o e = ground (arith, walk-some n.vm_end ns a v)

-- An area is found at each of its addresses.
pub walk-same :
    (lo : ℕ) (vs : List Vma) (a b : ℕ) (v : Vma)
    → Ordered lo vs
    → walk vs a ≡ some v
    → in_vma v b ≡ true
    → walk vs b ≡ some v
unfolding walk
walk-same lo [] a b v o e h = absurd (cc)
walk-same lo (n ∷ ns) a b v o e h =
    ground (arith, walk-same n.vm_end ns a b v, walk-some n.vm_end ns a v)

abbrev pub Finds : Mm → ℕ → Option Vma × Mm → Type 0
Finds mm a (r, mm') = (r ≡ walk mm.mmap_list a) × (mm'.mmap_list ≡ mm.mmap_list) × IsMm mm'

remember-Finds :
    (mm : Mm) (a : ℕ) (r : Option Vma)
    → IsMm mm
    → r ≡ walk mm.mmap_list a
    → Finds mm a (remember mm r)
remember-Finds mm a none ok e = (e, refl, ok)
remember-Finds mm a (some v) ok e = (
  e,
  refl,
  record {
    ordered = ok.ordered;
    cache_ok = λ c same b h. walk-same 0 mm.mmap_list a b c ok.ordered (cc) h;
    counted = ok.counted;
  },
)

cached-walk :
    (mm : Mm) (a : ℕ) (c : Option Vma)
    → IsMm mm
    → mm.mmap_cache ≡ c
    → cached c a ≡ true
    → c ≡ walk mm.mmap_list a
cached-walk mm a none ok e h = absurd (cc)
cached-walk mm a (some c) ok e h = ground (arith, ok.cache_ok c e a h)

-- On areas in order, whatever is in the cache, `find_vma` finds the area that holds the address, or none if no area
-- does. It keeps the areas, and the cache stays in agreement with them.
pub find_in-Finds : (mm : Mm) (a : ℕ) → IsMm mm → Finds mm a (find_in mm a)
unfolding find_in
find_in-Finds mm a ok = remember-Finds mm a _ ok chosen
  where
    chosen :
        (if cached mm.mmap_cache a then mm.mmap_cache else walk mm.mmap_list a)
        ≡ walk mm.mmap_list a
    chosen = ground (arith, cached-walk mm a mm.mmap_cache ok refl)
