-- ===== src/Bitmaps/Tests.antt =====
-- Runs of kern/fs/sfs/bitmap.c on a bitmap of 40 bits, in which the first that is free is 33.
use ucoreonrv.Prelude.{◌≡◌, refl, true, false, not, some, arith, ltb, ◌&&◌, ◌==◌}
use ucoreonrv.Prelude.Errors.{Ends, done}
use ucoreonrv.Bitmaps.{Bitmap, bitmap_alloc, bitmap_free, bitmap_create}
use ucoreonrv.Bitmaps.Search.{bit, answer, bitmap_alloc-first_set, bitmap_free-answer}

abbrev demo : Bitmap
demo = record { nbits = 40; nwords = 2; map = λ q o. q == 1 && (not (o == 0) && ltb o 8) }

-- The last word of a fresh bitmap of 40 bits has the bits up to 39 set.
bitmap_create-last :
    Ends (λ b. (bit b 39 ≡ true) × (bit b 40 ≡ false) × (bit b 63 ≡ false)) (bitmap_create 40)
unfolding bitmap_create
bitmap_create-last = (refl, refl, refl)

bitmap_alloc-first_set_example : bitmap_alloc demo ≡ done (answer demo (some 33))
bitmap_alloc-first_set_example = bitmap_alloc-first_set demo

bitmap_free-answer_example :
    Ends (λ b'. bit b' 34 ≡ bit demo 34) (bitmap_free (answer demo (some 33)).2 33)
bitmap_free-answer_example = bitmap_free-answer demo 33 34 (omega arith) refl
