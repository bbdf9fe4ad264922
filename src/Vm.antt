-- ===== src/Vm.antt =====
-- kern/mm/vmm.h: the areas of an address space, sorted by their start. The list of `mm_struct` is a
-- list of areas; an area never changes once it is in the list, so that `mmap_cache`, a pointer to
-- one of them, is the area itself.
pub mod Areas
pub mod Search
pub mod Insert
pub mod Range
pub mod Mapping
pub mod Checks
pub mod Access
pub mod Fork
pub mod Tests
use ucoreonrv.Prelude.{ℕ, ◌/◌, ◌%◌, Bool, Option, List, ◌==◌}

pub record Vma : Type 0 where
  pub vm_start : ℕ
  pub vm_end : ℕ
  pub vm_flags : ℕ

pub record Mm : Type 0 where
  pub mmap_list : List Vma
  pub mmap_cache : Option Vma
  pub map_count : ℕ

abbrev pub vm_read : ℕ → Bool
vm_read flags = flags % 2 == 1

abbrev pub vm_write : ℕ → Bool
vm_write flags = (flags / 2) % 2 == 1

abbrev pub vm_stack : ℕ → Bool
vm_stack flags = (flags / 8) % 2 == 1
