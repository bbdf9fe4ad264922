-- ===== src/Sfs/Words.antt =====
-- kern/fs/sfs/sfs_inode.c: the entries of an indirect block, numbers of four bytes.
use ucoreonrv.Prelude.{
  ℕ, ◌+◌, ◌-◌, ◌*◌, ◌^◌, ◌<◌, ◌≡◌, ◌≢◌, ap, ◌∙◌, Bool, ◌&&◌, ◌==◌, if◌then◌else◌, ltb, leb, arith,
}
use ucoreonrv.Sfs.State.{Block, SfsFs, u32_at, u32_bytes, put_bytes}

-- Entry `i` of the block `p`, and 0 where there is no block.
abbrev pub word : SfsFs → (p i : ℕ) → ℕ
word s p i = if p == 0 then 0 else u32_at (s.disk p) (i * 4)

-- The bytes of entry `k` of block `p`.
abbrev pub slot : (p k : ℕ) → ℕ → ℕ → Bool
slot p k x j = x == p && (leb (k * 4) j && ltb j (k * 4 + 4))

pub u32_at_same :
    (b b' : Block) (o o' : ℕ)
    → ((j : ℕ) → j < 4 → b' (o' + j) ≡ b (o + j))
    → u32_at b' o' ≡ u32_at b o
u32_at_same b b' o o' h =
    ground (arith, first, h 1 (omega arith), h 2 (omega arith), h 3 (omega arith))
  where
    first : b' o' ≡ b o
    first = ground (arith, h 0 (omega arith), ap b' {x = o' + 0} {y = o'}, ap b {x = o + 0} {y = o})

pub u32_at-u32_bytes : (n : ℕ) → n < 2 ^ 32 → u32_at (u32_bytes n) 0 ≡ n
u32_at-u32_bytes n l = omega (arith, l)

pub u32_at-put_bytes :
    (b : Block) (k n : ℕ) → n < 2 ^ 32 → u32_at (put_bytes b (k * 4) 4 (u32_bytes n)) (k * 4) ≡ n
u32_at-put_bytes b k n l =
    u32_at_same (u32_bytes n) (put_bytes b (k * 4) 4 (u32_bytes n)) 0 (k * 4)
      (λ j h. ground (arith, h, ap (u32_bytes n) {x = k * 4 + j - k * 4} {y = j}))
    ∙ u32_at-u32_bytes n l

pub u32_at-put_other :
    (b d : Block) (k i : ℕ) → i ≢ k → u32_at (put_bytes b (k * 4) 4 d) (i * 4) ≡ u32_at b (i * 4)
u32_at-put_other b d k i ne = ground (arith, ne)
