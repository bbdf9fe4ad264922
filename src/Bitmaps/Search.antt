-- ===== src/Bitmaps/Search.antt =====
-- kern/fs/sfs/bitmap.c: `bitmap_alloc` against a search bit by bit.
use ucoreonrv.Prelude.{
  ℕ, zero, suc, ◌+◌, ◌*◌, ◌/◌, ◌%◌, ◌<◌, ◌≡◌, refl, sym, ap, ◌∙◌, Bool, true, false, Option, none,
  some, arith, if◌then◌else◌,
}
use ucoreonrv.Prelude.Int.{ℤ, pos}
use ucoreonrv.Prelude.Errors.{done, Ends, err, e_no_mem}
use ucoreonrv.Bitmaps.{
  word_bits, Word, Bitmap, flip, set_word, any_bit, find_bit, alloc_from, bitmap_alloc, bitmap_free,
}

abbrev pub bit : Bitmap → (index : ℕ) → Bool
bit b i = b.map (i / word_bits) (i % word_bits)

-- The first of the `n` bits from the index `i` on that is set.
abbrev pub first_set : (n i : ℕ) → Bitmap → Option ℕ
first_set zero i b = none
first_set (suc n) i b = if bit b i then some i else first_set n (i + 1) b

any-find :
    (n o : ℕ) (w : Word) → any_bit n o w ≡ elim (find_bit n o w) [ none ↦ false | some i ↦ true ]
unfolding any_bit find_bit
any-find zero o w = refl
any-find (suc n) o w = ground (arith, any-find n (o + 1) w)

find_bit-range : (n o i : ℕ) (w : Word) → find_bit n o w ≡ some i → i < n + o
unfolding find_bit
find_bit-range zero o i w e = absurd (cc)
find_bit-range (suc n) o i w e = ground (arith, e, find_bit-range n (o + 1) i w)

-- The answer where a word has given `r`, and the words behind it `rest`.
abbrev pub chosen : (ix : ℕ) → (rest r : Option ℕ) → Option ℕ
chosen ix rest none = rest
chosen ix rest (some i) = some (ix * word_bits + i)

-- A word on the way of the search: `n` of its bits are left, and `m` bits behind it.
first_set-word :
    (t n m ix o : ℕ) (b : Bitmap)
    → t ≡ n + m
    → n + o ≡ word_bits
    → first_set t (ix * word_bits + o) b
      ≡ chosen ix (first_set m ((ix + 1) * word_bits) b) (find_bit n o (b.map ix))
unfolding find_bit
first_set-word t zero m ix o b h e =
    ap (λ c. first_set c (ix * word_bits + o) b) (let r : t ≡ m = omega (arith, h) in r)
    ∙ ap (λ i. first_set m i b)
        (let r : ix * word_bits + o ≡ (ix + 1) * word_bits = omega (arith, e) in r)
first_set-word zero (suc n) m ix o b h e = absurd (omega (arith, h))
first_set-word (suc t) (suc n) m ix o b h e =
    let again = first_set-word t n m ix (o + 1) b (omega (arith, h)) (omega (arith, e)) in
    ground (
      arith,
      here,
      ap (λ i. first_set t i b)
            (let r : ix * word_bits + o + 1 ≡ ix * word_bits + (o + 1) = omega arith in r)
          ∙ again,
    )
  where
    here : bit b (ix * word_bits + o) ≡ b.map ix o
    here =
        ap (λ i. b.map i ((ix * word_bits + o) % word_bits))
          (let r : (ix * word_bits + o) / word_bits ≡ ix = omega (arith, e) in r)
        ∙ ap (b.map ix) (let r : (ix * word_bits + o) % word_bits ≡ o = omega (arith, e) in r)

-- What `bitmap_alloc` does with the answer of the search.
abbrev pub answer : Bitmap → Option ℕ → ℤ × Option ℕ × Bitmap
answer b none = (err e_no_mem, none, b)
answer b (some i) =
    (pos 0, some i, set_word b (i / word_bits) (flip (b.map (i / word_bits)) (i % word_bits)))

alloc_step :
    (n ix : ℕ) (b : Bitmap) (rest r : Option ℕ)
    → alloc_from n (ix + 1) b ≡ done (answer b rest)
    → find_bit word_bits 0 (b.map ix) ≡ r
    → alloc_from (suc n) ix b ≡ done (answer b (chosen ix rest r))
alloc_step n ix b rest none h e = on ∙ h
  where
    none_set : any_bit word_bits 0 (b.map ix) ≡ false
    none_set =
        any-find word_bits 0 (b.map ix)
        ∙ ap (λ (r : Option ℕ). elim r [ none ↦ false | some i ↦ true ]) e

    on : alloc_from (suc n) ix b ≡ alloc_from n (ix + 1) b
    on = unfold alloc_from in (ground (arith, none_set))
alloc_step n ix b rest (some o) h e = here ∙ ap done same
  where
    one_set : any_bit word_bits 0 (b.map ix) ≡ true
    one_set =
        any-find word_bits 0 (b.map ix)
        ∙ ap (λ (r : Option ℕ). elim r [ none ↦ false | some i ↦ true ]) e

    here :
        alloc_from (suc n) ix b
        ≡ done (pos 0, some (ix * word_bits + o), set_word b ix (flip (b.map ix) o))
    here = unfold alloc_from in (ground (arith, one_set, e))

    low : o < word_bits
    low = omega (arith, find_bit-range word_bits 0 o (b.map ix) e)

    same :
        (pos 0, some (ix * word_bits + o), set_word b ix (flip (b.map ix) o))
        ≡ answer b (some (ix * word_bits + o))
    same =
        ap (λ q. (pos 0, some (ix * word_bits + o), set_word b q (flip (b.map q) o)))
          (let r : ix ≡ (ix * word_bits + o) / word_bits = omega (arith, low) in r)
        ∙ ap
            (λ q. (
              pos 0,
              some (ix * word_bits + o),
              set_word b ((ix * word_bits + o) / word_bits)
                  (flip (b.map ((ix * word_bits + o) / word_bits)) q),
            ))
            (let r : o ≡ (ix * word_bits + o) % word_bits = omega (arith, low) in r)

alloc_from-first_set :
    (n ix : ℕ) (b : Bitmap)
    → alloc_from n ix b ≡ done (answer b (first_set (n * word_bits) (ix * word_bits) b))
unfolding alloc_from
alloc_from-first_set zero ix b = refl
alloc_from-first_set (suc n) ix b =
    alloc_step n ix b (first_set (n * word_bits) ((ix + 1) * word_bits) b) _
      (alloc_from-first_set n (ix + 1) b) refl
    ∙ ap (λ r. done (answer b r))
        (sym (
          ap (λ i. first_set (suc n * word_bits) i b)
            (let r : ix * word_bits ≡ ix * word_bits + 0 = omega arith in r)
          ∙ first_set-word (suc n * word_bits) word_bits (n * word_bits) ix 0 b (omega arith) refl))

-- `bitmap_alloc` fails no assertion and finds what a search bit by bit finds: the first bit that is
-- set, in all words. It clears that bit and gives its index, or answers -E_NO_MEM and changes
-- nothing if no bit is set.
pub bitmap_alloc-first_set :
    (b : Bitmap) → bitmap_alloc b ≡ done (answer b (first_set (b.nwords * word_bits) 0 b))
unfolding bitmap_alloc
bitmap_alloc-first_set b = alloc_from-first_set b.nwords 0 b

-- Freeing a bit that `bitmap_alloc` has cleared sets it again, and all others are as they were.
pub bitmap_free-answer :
    (b : Bitmap) (i j : ℕ)
    → i < b.nbits
    → bit b i ≡ true
    → Ends (λ b'. bit b' j ≡ bit b j) (bitmap_free (answer b (some i)).2 i)
unfolding bitmap_free
bitmap_free-answer b i j l h = ground (
  arith,
  ap (λ q. b.map q (j % word_bits)) {x = j / word_bits} {y = i / word_bits},
  ap (b.map (i / word_bits)) {x = j % word_bits} {y = i % word_bits},
)
