-- ===== src/Bitmaps.antt =====
-- kern/fs/sfs/bitmap.c: the bitmap of the free blocks of a file system. A word of 32 bits is the
-- function from offsets to bits, and a bit that is set is free.
pub mod Search
pub mod Tests
use ucoreonrv.Prelude.{
  ℕ, zero, suc, ◌+◌, ◌-◌, ◌*◌, ◌/◌, ◌%◌, ◌^◌, Bool, true, false, not, ◌&&◌, ◌||◌, Option, none,
  some, ◌==◌, if◌then◌else◌, ltb, leb,
}
use ucoreonrv.Prelude.Int.{ℤ, pos}
use ucoreonrv.Prelude.Errors.{Run, fault, done, assert, ◌>>=◌, ◌>>◌, err, e_no_mem}
use ucoreonrv.Sync.{set_at}

abbrev pub word_bits : ℕ
word_bits = 32

abbrev pub Word : Type 0
Word = ℕ → Bool

pub record Bitmap : Type 0 where
  pub nbits : ℕ
  pub nwords : ℕ
  pub map : ℕ → Word

-- `word ^= 1 << offset`
abbrev pub flip : Word → (offset : ℕ) → Word
flip w o = set_at w o (not (w o))

abbrev pub set_word : Bitmap → (ix : ℕ) → Word → Bitmap
set_word b ix w = record b { map = λ q o. if q == ix then w o else b.map q o }

-- `bitmap_create` where both allocations succeed. The last word has the bits from `nbits` on
-- cleared.
unfoldable pub bitmap_create : (nbits : ℕ) → Run Bitmap
bitmap_create nbits = do
  assert (not (nbits == 0) && ltb nbits ((nbits + word_bits) % 2 ^ 32))
  let nwords = (nbits + word_bits - 1) / word_bits
  let ix = nwords - 1
  let overbits = nbits - ix * word_bits
  let last : Word = λ o. ltb o overbits
  done (record {
    nbits = nbits;
    nwords = nwords;
    map = λ i. if i == ix && not (nbits == nwords * word_bits) then last else λ o. true;
  })

-- Whether one of the `n` bits from `offset` on is set; `map[ix] != 0` is `any_bit` of all.
unfoldable pub any_bit : (n offset : ℕ) → Word → Bool
any_bit zero o w = false
any_bit (suc n) o w = w o || any_bit n (o + 1) w

-- The loop over the offsets of a word.
unfoldable pub find_bit : (n offset : ℕ) → Word → Option ℕ
find_bit zero o w = none
find_bit (suc n) o w = let rest = find_bit n (o + 1) w in if w o then some o else rest

-- The loop over the `n` words from `ix` on; the result has the code, what `*index_store` receives,
-- and the bitmap.
unfoldable pub alloc_from : (n ix : ℕ) → Bitmap → Run (ℤ × Option ℕ × Bitmap)
unfolding any_bit find_bit
alloc_from zero ix b = done (err e_no_mem, none, b)
alloc_from (suc n) ix b =
    let rest = alloc_from n (ix + 1) b in
    if any_bit word_bits 0 (b.map ix)
    then elim (find_bit word_bits 0 (b.map ix)) [
      | none ↦ fault
      | some o ↦ done (pos 0, some (ix * word_bits + o), set_word b ix (flip (b.map ix) o))
    ]
    else rest

unfoldable pub bitmap_alloc : Bitmap → Run (ℤ × Option ℕ × Bitmap)
unfolding alloc_from
bitmap_alloc b = alloc_from b.nwords 0 b

unfoldable pub bitmap_test : Bitmap → (index : ℕ) → Run Bool
bitmap_test b i = do assert (ltb i b.nbits); done (b.map (i / word_bits) (i % word_bits))

unfoldable pub bitmap_free : Bitmap → (index : ℕ) → Run Bitmap
bitmap_free b i = do
  assert (ltb i b.nbits)
  let ix = i / word_bits
  let offset = i % word_bits
  assert (not (b.map ix offset))
  done (set_word b ix (set_at (b.map ix) offset true))
