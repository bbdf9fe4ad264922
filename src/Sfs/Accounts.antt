-- ===== src/Sfs/Accounts.antt =====
-- kern/fs/sfs/sfs_inode.c: the bitmap of free blocks and their number.
use ucoreonrv.Prelude.{
  ℕ, zero, suc, ◌+◌, ◌*◌, ◌/◌, ◌%◌, ◌^◌, ◌<◌, ◌≤◌, ◌≡◌, ◌≢◌, ap, refl, Bool, true, false, not, ◌&&◌,
  ◌==◌, if◌then◌else◌, ltb, arith, none, some,
}
use ucoreonrv.Bitmaps.{word_bits, Bitmap, set_word}
use ucoreonrv.Bitmaps.Search.{bit, first_set}
use ucoreonrv.Sync.{set_at}
use ucoreonrv.Sfs.State.{SfsFs}

-- How many of the `n` bits from `i` on are set.
abbrev pub set_bits : (n i : ℕ) → Bitmap → ℕ
set_bits zero i b = 0
set_bits (suc n) i b = (if bit b i then 1 else 0) + set_bits n (i + 1) b

abbrev pub total : Bitmap → ℕ
total b = set_bits (b.nwords * word_bits) 0 b

-- The bitmap covers the blocks of the disk, only these without block 0 are free, and the superblock
-- has their number.
pub record Sound (s : SfsFs) : Type 0 where
  pub small : s.blocks ≤ 2 ^ 20
  pub covered : s.blocks ≤ s.freemap.nbits
  pub whole : s.freemap.nbits ≤ s.freemap.nwords * word_bits
  pub inside :
      (i : ℕ) → i < s.freemap.nwords * word_bits → bit s.freemap i ≡ true → (0 < i) × (i < s.blocks)
  pub counted : s.unused_blocks ≡ total s.freemap

-- Block `x` is in use.
abbrev pub used : SfsFs → (x : ℕ) → Bool
used s x = not (x == 0) && ltb x s.blocks && not (bit s.freemap x)

-- `b'` is `b` but for the bit `x`, which is `v`.
abbrev pub OneBit : Bitmap → (x : ℕ) → (v : Bool) → Bitmap → Type 0
OneBit b x v b' =
    (b'.nbits ≡ b.nbits)
    × (b'.nwords ≡ b.nwords)
    × ((j : ℕ) → bit b' j ≡ (if j == x then v else bit b j))

same_place : (j x : ℕ) → j ≢ x → j / word_bits ≡ x / word_bits → j % word_bits ≢ x % word_bits
same_place j x ne e h = ne (omega (arith, e, h))

pub set_word-OneBit :
    (b : Bitmap) (x : ℕ) (v : Bool)
    → OneBit b x v (set_word b (x / word_bits) (set_at (b.map (x / word_bits)) (x % word_bits) v))
set_word-OneBit b x v = (
  refl,
  refl,
  λ j. ground (
    arith,
    same_place j x,
    ap (λ q. b.map q (j % word_bits)) {x = j / word_bits} {y = x / word_bits},
  ),
)

-- Changing a bit of the range changes the number by one.
clear_one :
    (n i x : ℕ) (b b' : Bitmap)
    → OneBit b x false b'
    → bit b x ≡ true
    → set_bits n i b ≡ set_bits n i b' + (if not (ltb x i) && ltb x (i + n) then 1 else 0)
clear_one zero i x b b' o h = ground arith
clear_one (suc n) i x b b' o h = ground (arith, clear_one n (i + 1) x b b' o h, o.2 i, h)

set_one :
    (n i x : ℕ) (b b' : Bitmap)
    → OneBit b x true b'
    → bit b x ≡ false
    → set_bits n i b' ≡ set_bits n i b + (if not (ltb x i) && ltb x (i + n) then 1 else 0)
set_one zero i x b b' o h = ground arith
set_one (suc n) i x b b' o h = ground (arith, set_one n (i + 1) x b b' o h, o.2 i, h)

pub total_clear :
    (b b' : Bitmap) (x : ℕ)
    → OneBit b x false b'
    → bit b x ≡ true
    → x < b.nwords * word_bits
    → total b ≡ total b' + 1
total_clear b b' x o h l =
    let e = clear_one (b.nwords * word_bits) 0 x b b' o h in ground (arith, e, o.1, l)

pub total_set :
    (b b' : Bitmap) (x : ℕ)
    → OneBit b x true b'
    → bit b x ≡ false
    → x < b.nwords * word_bits
    → total b' ≡ total b + 1
total_set b b' x o h l =
    let e = set_one (b.nwords * word_bits) 0 x b b' o h in ground (arith, e, o.1, l)

-- The first bit that is set is set, and lies in the range; if there is none, all are cleared.
pub first_set-some :
    (n i x : ℕ) (b : Bitmap) → first_set n i b ≡ some x → (bit b x ≡ true) × (x < i + n)
first_set-some zero i x b e = absurd (cc)
first_set-some (suc n) i x b e = ground (arith, e, first_set-some n (i + 1) x b)

pub first_set-none :
    (n i j : ℕ) (b : Bitmap) → first_set n i b ≡ none → i ≤ j → j < i + n → bit b j ≡ false
first_set-none zero i j b e h l = absurd (omega (arith, h, l))
first_set-none (suc n) i j b e h l = ground (arith, e, h, l, first_set-none n (i + 1) j b)

pub set_bits-none : (n i : ℕ) (b : Bitmap) → first_set n i b ≡ none → set_bits n i b ≡ 0
set_bits-none zero i b e = refl
set_bits-none (suc n) i b e = ground (arith, e, set_bits-none n (i + 1) b)
