-- ===== src/Links/Tests.antt =====
-- Runs of libs/list.h on the list with the head 1 and the entries 2 and 3.
use ucoreonrv.Prelude.{[], ◌∷◌, arith, ◌==◌, if◌then◌else◌}
use ucoreonrv.Links.{Links, list_add, list_add_before, list_del}
use ucoreonrv.Links.Rings.{Ring}
use ucoreonrv.Links.Adding.{list_add-Ring}
use ucoreonrv.Links.Deleting.{list_del-Ring}

abbrev demo : Links
demo = record {
  prev = λ e. if e == 1 then 3 else if e == 2 then 1 else 2;
  next = λ e. if e == 1 then 2 else if e == 2 then 3 else 1;
}

demo-Ring : Ring demo 1 (2 ∷ 3 ∷ [])
demo-Ring = omega arith

list_add-Ring_example :
    Ring (list_add demo 2 4) 1 (2 ∷ 4 ∷ 3 ∷ []) × Ring (list_add_before demo 3 4) 1 (2 ∷ 4 ∷ 3 ∷ [])
list_add-Ring_example =
    list_add-Ring demo 1 4 (2 ∷ []) (3 ∷ []) demo-Ring (omega arith) (omega arith)

list_del-Ring_example : Ring (list_del demo 3) 1 (2 ∷ [])
list_del-Ring_example = list_del-Ring demo 1 3 (2 ∷ []) [] demo-Ring
