-- ===== src/Links.antt =====
-- libs/list.h: doubly linked rings. An entry is named by its address; two functions give the pointers
-- of each.
pub mod Rings
pub mod Adding
pub mod Deleting
pub mod Tests
use ucoreonrv.Prelude.{ℕ, Bool, ◌==◌, if◌then◌else◌}

pub record Links : Type 0 where
  pub prev : ℕ → ℕ
  pub next : ℕ → ℕ

abbrev pub set_prev : Links → (elm p : ℕ) → Links
set_prev s e p = record s { prev = λ j. if j == e then p else s.prev j }

abbrev pub set_next : Links → (elm n : ℕ) → Links
set_next s e n = record s { next = λ j. if j == e then n else s.next j }

unfoldable pub list_init : Links → ℕ → Links
list_init s e = set_prev (set_next s e e) e e

-- `__list_add`
unfoldable pub link_between : Links → (elm prev next : ℕ) → Links
link_between s e p n = set_prev (set_next (set_next (set_prev s n e) p e) e n) e p

-- `__list_del`
unfoldable pub join : Links → (prev next : ℕ) → Links
join s p n = set_prev (set_next s p n) n p

unfoldable pub list_add_after : Links → (listelm elm : ℕ) → Links
unfolding link_between
list_add_after s l e = link_between s e l (s.next l)

unfoldable pub list_add_before : Links → (listelm elm : ℕ) → Links
unfolding link_between
list_add_before s l e = link_between s e (s.prev l) l

unfoldable pub list_add : Links → (listelm elm : ℕ) → Links
unfolding list_add_after
list_add s l e = list_add_after s l e

unfoldable pub list_del : Links → ℕ → Links
unfolding join
list_del s e = join s (s.prev e) (s.next e)

unfoldable pub list_del_init : Links → ℕ → Links
unfolding list_del list_init
list_del_init s e = list_init (list_del s e) e

unfoldable pub list_empty : Links → ℕ → Bool
list_empty s l = s.next l == l
