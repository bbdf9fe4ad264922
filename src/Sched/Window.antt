-- ===== src/Sched/Window.antt =====
-- kern/schedule/default_sched_stride.c: the 32-bit comparison of strides, and the window that the
-- strides of the queued processes stay in. `key p` is the stride of `p` had it never wrapped.
use ucoreonrv.Prelude.{ℕ, ◌+◌, ◌-◌, ◌%◌, ◌^◌, ◌≤◌, ◌<◌, ◌≡◌, ◌↔◌, true, false, arith, ltb}
use ucoreonrv.SkewHeap.{precedes}
use ucoreonrv.SkewHeap.Order.{Agrees}
use ucoreonrv.Sched.{Proc, sub32}
use ucoreonrv.Sched.Stride.{proc_stride_comp_f}

-- Within `BIG_STRIDE` above `lo`.
abbrev pub Near : (ℕ → ℕ) → ℕ → ℕ → Type 0
Near key lo p = (lo ≤ key p) × (key p ≤ lo + 2 ^ 30)

-- Every stored stride is the unbounded one, modulo 2 ^ 32.
abbrev pub Keyed : (ℕ → ℕ) → (ℕ → Proc) → Type 0
Keyed key procs = (p : ℕ) → (procs p).lab6_stride ≡ key p % 2 ^ 32

diff_less :
    (a b lo : ℕ)
    → lo ≤ a
    → a ≤ lo + 2 ^ 30
    → lo ≤ b
    → b ≤ lo + 2 ^ 30
    → a < b
    → ltb (sub32 (a % 2 ^ 32) (b % 2 ^ 32)) (2 ^ 31) ≡ false
diff_less a b lo h i j k l = ground (arith, far)
  where
    far : 2 ^ 31 ≤ sub32 (a % 2 ^ 32) (b % 2 ^ 32)
    far = omega arith

diff_ge : (a b lo : ℕ) → a ≤ lo + 2 ^ 30 → lo ≤ b → b ≤ a → sub32 (a % 2 ^ 32) (b % 2 ^ 32) ≡ a - b
diff_ge a b lo h i j = omega arith

module _ (key : ℕ → ℕ) (procs : ℕ → Proc) (keyed : Keyed key procs) (lo : ℕ) where
  pub comp_orders :
      (x y : ℕ)
      → Near key lo x
      → Near key lo y
      → (precedes (proc_stride_comp_f procs) x y ≡ true) ↔ (key x < key y)
  unfolding proc_stride_comp_f
  comp_orders x y (hx, kx) (hy, ky) = ground (
    arith,
    keyed x,
    keyed y,
    diff_less (key x) (key y) lo hx kx hy ky,
    diff_ge (key x) (key y) lo kx hy,
  )

  pub comp-Agrees : Agrees (Near key lo) key (proc_stride_comp_f procs)
  comp-Agrees x y p q = ground (arith, comp_orders x y p q)
