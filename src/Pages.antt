-- ===== src/Pages.antt =====
-- kern/mm/default_pmm.c: the first-fit allocator of pages over the rings of Links. A page is named by
-- one more than its index in `pages`, so that pages that lie side by side have numbers side by side;
-- 0 is `free_list` and NULL. The loops over the free list run on fuel.
pub mod Insertion
pub mod Fitting
pub mod Tests
use ucoreonrv.Prelude.{
  ℕ, zero, suc, ◌+◌, ◌-◌, ◌%◌, ◌^◌, Bool, true, false, not, ◌&&◌, ◌||◌, ◌==◌, if◌then◌else◌, ltb,
  leb,
}
use ucoreonrv.Prelude.Errors.{Run, fault, done, assert, ◌>>=◌, ◌>>◌}
use ucoreonrv.Sync.{set_at}
use ucoreonrv.Links.{Links, list_init, list_add, list_add_before, list_del, list_empty}

-- The fields of `struct Page`, and `free_area`. Of the flags there are PG_reserved and PG_property.
pub record Area : Type 0 where
  pub links : Links
  pub property : ℕ → ℕ
  pub reserved : ℕ → Bool
  pub has_property : ℕ → Bool
  pub ref : ℕ → ℕ
  pub nr_free : ℕ

abbrev pub free_list : ℕ
free_list = 0

abbrev pub set_property : Area → (page n : ℕ) → Area
set_property a p n = record a { property = set_at a.property p (n % 2 ^ 32) }

abbrev pub flag_property : Area → (page : ℕ) → Bool → Area
flag_property a p b = record a { has_property = set_at a.has_property p b }

-- `p->flags = 0; set_page_ref(p, 0)`
abbrev pub clear_flags : Area → (page : ℕ) → Area
clear_flags a p = record a {
  reserved = set_at a.reserved p false;
  has_property = set_at a.has_property p false;
  ref = set_at a.ref p 0;
}

unfoldable pub default_init : Area → Area
default_init a = record a { links = list_init a.links free_list; nr_free = 0 }

-- The loops over the `n` pages from `p` on.
unfoldable pub claim_pages : (n : ℕ) → Area → (p : ℕ) → Run Area
claim_pages zero a p = done a
claim_pages (suc n) a p = do
  assert (a.reserved p)
  claim_pages n (set_property (clear_flags a p) p 0) (p + 1)

unfoldable pub reset_pages : (n : ℕ) → Area → (p : ℕ) → Run Area
reset_pages zero a p = done a
reset_pages (suc n) a p = do
  assert (not (a.reserved p) && not (a.has_property p))
  reset_pages n (clear_flags a p) (p + 1)

-- The `while` loop that looks for the place of `base`. It goes on after the insertion at the end.
unfoldable pub insert_loop : (fuel : ℕ) → Links → (base le : ℕ) → Run Links
insert_loop zero s base le = fault
insert_loop (suc fuel) s base le =
    let page = s.next le in
    let s' = if s.next page == free_list then list_add s page base else s in
    let rest = insert_loop fuel s' base page in
    if page == free_list
    then done s
    else if ltb base page
    then done (list_add_before s page base)
    else rest

unfoldable pub insert_block : (fuel : ℕ) → Links → (base : ℕ) → Run Links
unfolding insert_loop
insert_block fuel s base =
    if list_empty s free_list
    then done (list_add s free_list base)
    else insert_loop fuel s base free_list

-- What `default_init_memmap` and `default_free_pages` do to `base` after their loops over the pages.
abbrev pub mark_block : Area → (base n : ℕ) → Area
mark_block a base n = record (flag_property (set_property a base n) base true) {
  nr_free = (a.nr_free + n) % 2 ^ 32;
}

unfoldable pub default_init_memmap : (fuel : ℕ) → Area → (base n : ℕ) → Run Area
unfolding claim_pages insert_block
default_init_memmap fuel a base n = do
  assert (ltb 0 n)
  claimed ← claim_pages n a base
  let marked = mark_block claimed base n
  links ← insert_block fuel marked.links base
  done (record marked { links = links })

-- The `while` loop of `default_alloc_pages`: the first block of `n` pages behind `le`, or NULL.
unfoldable pub find_fit : (fuel : ℕ) → Area → (n le : ℕ) → Run ℕ
find_fit zero a n le = fault
find_fit (suc fuel) a n le =
    let page = a.links.next le in
    let rest = find_fit fuel a n page in
    if page == free_list then done 0 else if leb n (a.property page) then done page else rest

-- `page` is taken, and what it has beyond `n` pages put back in its place.
unfoldable pub cut_block : Area → (page n : ℕ) → Area
cut_block a page n =
    let before = a.links.prev page in
    let links = list_del a.links page in
    let p = page + n in
    let split = record (flag_property (set_property a p (a.property page - n)) p true) {
      links = list_add links before p;
    } in
    let left = if ltb n (a.property page) then split else record a { links = links } in
    flag_property (record left { nr_free = a.nr_free - n }) page false

unfoldable pub default_alloc_pages : (fuel : ℕ) → Area → (n : ℕ) → Run (ℕ × Area)
unfolding find_fit cut_block
default_alloc_pages fuel a n = do
  assert (ltb 0 n)
  page ← if ltb a.nr_free n then done 0 else find_fit fuel a n free_list
  done (page, if page == 0 then a else cut_block a page n)

-- The merge with the block before; the new `base`.
unfoldable pub merge_before : Area → (base : ℕ) → ℕ × Area
merge_before a base =
    let p = a.links.prev base in
    let joined =
      record (flag_property (set_property a p (a.property p + a.property base)) base false) {
        links = list_del a.links base;
      } in
    if not (p == free_list) && p + a.property p == base then (p, joined) else (base, a)

unfoldable pub merge_after : Area → (base : ℕ) → Area
merge_after a base =
    let p = a.links.next base in
    let joined =
      record (flag_property (set_property a base (a.property base + a.property p)) p false) {
        links = list_del a.links p;
      } in
    if not (p == free_list) && base + a.property base == p then joined else a

unfoldable pub default_free_pages : (fuel : ℕ) → Area → (base n : ℕ) → Run Area
unfolding reset_pages insert_block merge_before merge_after
default_free_pages fuel a base n = do
  assert (ltb 0 n)
  cleared ← reset_pages n a base
  let marked = mark_block cleared base n
  links ← insert_block fuel marked.links base
  let (base', merged) = merge_before (record marked { links = links }) base
  done (merge_after merged base')

unfoldable pub default_nr_free_pages : Area → ℕ
default_nr_free_pages a = a.nr_free
