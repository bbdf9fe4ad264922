-- ===== src/Pages/Tests.antt =====
-- Runs of kern/mm/default_pmm.c: the pages from 10 on (2 pages) and from 20 on (5 pages) are free.
use ucoreonrv.Prelude.{◌≡◌, inl, inr, false, [], ◌∷◌, arith, ◌==◌, if◌then◌else◌}
use ucoreonrv.Prelude.Errors.{Ends}
use ucoreonrv.Links.{Links, list_del}
use ucoreonrv.Links.Rings.{Ring}
use ucoreonrv.Pages.{Area, insert_block, default_alloc_pages}
use ucoreonrv.Pages.Insertion.{insert_block-Ring, insert_block-list_del}
use ucoreonrv.Pages.Fitting.{Allocated, Disjoint, default_alloc_pages-Allocated}

abbrev free_links : Links
free_links = record {
  prev = λ e. if e == 0 then 20 else if e == 20 then 10 else 0;
  next = λ e. if e == 0 then 10 else if e == 10 then 20 else 0;
}

abbrev demo : Area
demo = record {
  links = free_links;
  property = λ p. if p == 10 then 2 else if p == 20 then 5 else 0;
  reserved = λ p. false;
  has_property = λ p. p == 10;
  ref = λ p. 0;
  nr_free = 7;
}

free-Ring : Ring free_links 0 (10 ∷ 20 ∷ [])
free-Ring = omega arith

demo-Disjoint : Disjoint demo (10 ∷ 20 ∷ [])
demo-Disjoint = (
  (inl (omega arith), (inr (omega arith), tt)),
  ((inl (omega arith), (inl (omega arith), tt)), tt),
)

insert_block-Ring_example : Ends (λ t. Ring t 0 (10 ∷ 15 ∷ 20 ∷ [])) (insert_block 5 free_links 15)
insert_block-Ring_example =
    insert_block-Ring 5 free_links 15 (10 ∷ []) 20 [] free-Ring (omega arith) (omega arith)
      (omega arith) (omega arith) (omega arith)

insert_block-list_del_example :
    Ends
      (λ t. (t.prev 30 ≡ 30) × (t.next 20 ≡ 30) × ((list_del t 30).next 20 ≡ 30))
      (insert_block 5 free_links 30)
insert_block-list_del_example =
    insert_block-list_del 5 free_links 30 10 (20 ∷ []) free-Ring (omega arith) (omega arith)

default_alloc_pages-Allocated_example :
    Ends (Allocated demo 3 (10 ∷ 20 ∷ [])) (default_alloc_pages 5 demo 3)
default_alloc_pages-Allocated_example =
    default_alloc_pages-Allocated 5 demo 3 (10 ∷ 20 ∷ []) (omega arith) free-Ring demo-Disjoint
      (omega arith)
