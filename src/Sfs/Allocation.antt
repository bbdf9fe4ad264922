-- ===== src/Sfs/Allocation.antt =====
-- kern/fs/sfs/sfs_inode.c: `sfs_block_inuse` and `sfs_block_alloc`.
use ucoreonrv.Prelude.{
  ℕ, ◌+◌, ◌-◌, ◌*◌, ◌/◌, ◌%◌, ◌<◌, ◌≡◌, ◌⊎◌, inl, inr, ap, ◌∙◌, sym, subst, refl, Bool, true, false,
  not, ◌==◌, if◌then◌else◌, ltb, arith, Option, none, some,
}
use ucoreonrv.Prelude.Int.{ℤ}
use ucoreonrv.Prelude.Errors.{fault, done, Ends, err, e_no_mem}
use ucoreonrv.Files.Open.{is_zero}
use ucoreonrv.Bitmaps.{word_bits, flip, set_word, bitmap_alloc, bitmap_test}
use ucoreonrv.Bitmaps.Search.{bit, answer, first_set, bitmap_alloc-first_set}
use ucoreonrv.Sfs.State.{SfsFs, Cmd, ◌>>◌}
use ucoreonrv.Sfs.Device.{sfs_clear_block}
use ucoreonrv.Sfs.Blocks.{sfs_block_inuse, assert_inuse, sfs_block_alloc}
use ucoreonrv.Sfs.Runs.{Ends-then, Ends-assert, Ends-lift}
use ucoreonrv.Sfs.Transfers.{Cleared, sfs_clear_block-Cleared}
use ucoreonrv.Sfs.Accounts.{
  total, Sound, used, OneBit, set_word-OneBit, total_clear, first_set-some, set_bits-none,
}

pub sfs_block_inuse_lem :
    (s : SfsFs) (x : ℕ)
    → Sound s
    → 0 < x
    → x < s.blocks
    → sfs_block_inuse x s ≡ done (not (bit s.freemap x), s)
unfolding sfs_block_inuse bitmap_test
sfs_block_inuse_lem s x ok nz l = ground (arith, nz, l, ok.covered)

pub assert_inuse-used :
    (s : SfsFs) (x : ℕ) → Sound s → used s x ≡ true → assert_inuse x s ≡ done (tt, s)
assert_inuse-used s x ok u =
    let e = sfs_block_inuse_lem s x ok (ground (arith, u)) (ground (arith, u)) in
    ground (arith, e, u)

pub Ends-inuse :
    {B : Type 0} (Q : B × SfsFs → Type 0) (k : Cmd B) (s : SfsFs) (x : ℕ)
    → Sound s
    → used s x ≡ true
    → Ends Q (k s)
    → Ends Q ((assert_inuse x >> k) s)
Ends-inuse Q k s x ok u h =
    subst (λ r. Ends Q (elim r [ fault ↦ fault | done (_, s') ↦ k s' ]))
      (sym (assert_inuse-used s x ok u)) h

pub used_same :
    (s s' : SfsFs) (x : ℕ) → s'.blocks ≡ s.blocks → s'.freemap ≡ s.freemap → used s' x ≡ used s x
used_same s s' x b f = ground (arith, b, ap (λ f. bit f x) f)

-- Blocks in use stay so, with what they hold but for the places that `c` names.
abbrev pub Extends : (c : ℕ → ℕ → Bool) → SfsFs → SfsFs → Type 0
Extends c s s' =
    (s'.blocks ≡ s.blocks)
    × (s'.mem ≡ s.mem)
    × ((x : ℕ) → used s x ≡ true → used s' x ≡ true)
    × ((x j : ℕ) → used s x ≡ true → c x j ≡ false → s'.disk x j ≡ s.disk x j)

abbrev pub nothing : ℕ → ℕ → Bool
nothing x j = false

-- A block was free, is in use now, and holds zeros if the device did not fail; or none is free.
abbrev pub Allocated : SfsFs → (ℤ × ℕ) × SfsFs → Type 0
Allocated s ((ret, x), s') =
    Sound s'
    × Extends nothing s s'
    × (((ret ≡ err e_no_mem) × (s.unused_blocks ≡ 0) × (s'.unused_blocks ≡ 0))
        ⊎ ((used s x ≡ false)
            × (used s' x ≡ true)
            × (s.unused_blocks ≡ s'.unused_blocks + 1)
            × (is_zero ret ≡ true → (j : ℕ) → s'.disk x j ≡ 0)))

-- The state once the bit of `x` is cleared and counted.
abbrev taken : SfsFs → (x : ℕ) → SfsFs
taken s x = record s {
  freemap =
      set_word s.freemap (x / word_bits) (flip (s.freemap.map (x / word_bits)) (x % word_bits));
  unused_blocks = s.unused_blocks - 1;
  super_dirty = true;
}

taken-OneBit :
    (s : SfsFs) (x : ℕ) → bit s.freemap x ≡ true → OneBit s.freemap x false (taken s x).freemap
taken-OneBit s x h =
    subst
      (λ v.
        OneBit s.freemap x v (
          set_word s.freemap (x / word_bits)
            (flip (s.freemap.map (x / word_bits)) (x % word_bits))))
      (ap not h) (set_word-OneBit s.freemap x (not (bit s.freemap x)))

pub Sound-same :
    (s s' : SfsFs)
    → Sound s
    → s'.blocks ≡ s.blocks
    → s'.unused_blocks ≡ s.unused_blocks
    → s'.freemap ≡ s.freemap
    → Sound s'
Sound-same s s' ok b u f = record {
  small = ground (arith, ok.small, b);
  covered = ground (arith, ok.covered, b, ap (λ f. f.nbits) f);
  whole = ground (arith, ok.whole, ap (λ f. f.nbits) f, ap (λ f. f.nwords) f);
  inside = λ i l e.
      let (h, k) =
        ok.inside i (ground (arith, l, ap (λ f. f.nwords) f)) (sym (ap (λ f. bit f i) f) ∙ e) in
      (h, ground (arith, k, b));
  counted = u ∙ ok.counted ∙ sym (ap total f);
}

taken-Sound :
    (s : SfsFs) (x : ℕ)
    → Sound s
    → bit s.freemap x ≡ true
    → x < s.freemap.nwords * word_bits
    → Sound (taken s x)
taken-Sound s x ok h l =
    let o = taken-OneBit s x h in
    record {
      small = ok.small;
      covered = ok.covered;
      whole = ok.whole;
      inside = λ i k e. ok.inside i k (ground (arith, o.2 i, e));
      counted = ground (arith, ok.counted, total_clear s.freemap (taken s x).freemap x o h l);
    }

-- The rest of `sfs_block_alloc`, once the block is cleared.
after :
    (s : SfsFs) (x : ℕ)
    → Sound s
    → bit s.freemap x ≡ true
    → x < s.freemap.nwords * word_bits
    → (ret : ℤ) (t : SfsFs) → Cleared (taken s x) x (ret, t)
    → Allocated s ((ret, x), t)
after s x ok free low ret t ((b, u, f, m), d) = (
  Sound-same (taken s x) t (taken-Sound s x ok free low) b u f,
  (b, m, λ y v. ground (arith, b, v, bits y, free), λ y j v c. ground (arith, v, d y j, free)),
  inr (
    ground (arith, free),
    ground (arith, b, ok.inside x low free, bits x),
    ground (
      arith,
      u,
      ok.counted,
      total_clear s.freemap (taken s x).freemap x (taken-OneBit s x free) free low,
    ),
    λ z j. ground (arith, z, d x j),
  ),
)
  where
    bits : (y : ℕ) → bit t.freemap y ≡ (if y == x then false else bit s.freemap y)
    bits y = ap (λ f. bit f y) f ∙ (taken-OneBit s x free).2 y

alloc_on :
    (s : SfsFs) (r : Option ℕ)
    → Sound s
    → first_set (s.freemap.nwords * word_bits) 0 s.freemap ≡ r
    → Ends (Allocated s) (sfs_block_alloc s)
unfolding sfs_block_alloc
alloc_on s none ok e =
    Ends-lift (Allocated s) (λ s. bitmap_alloc s.freemap) _ s (answer s.freemap none)
      (bitmap_alloc-first_set s.freemap ∙ ap (λ r. done (answer s.freemap r)) e)
      (ok, (refl, refl, λ y u. u, λ y j u c. refl), inl (refl, empty, empty))
  where
    empty : s.unused_blocks ≡ 0
    empty = ok.counted ∙ set_bits-none (s.freemap.nwords * word_bits) 0 s.freemap e
alloc_on s (some x) ok e =
    Ends-lift (Allocated s) (λ s. bitmap_alloc s.freemap) _ s (answer s.freemap (some x))
      (bitmap_alloc-first_set s.freemap ∙ ap (λ r. done (answer s.freemap r)) e)
      (Ends-assert (Allocated s) (ltb 0 s.unused_blocks) _ _ (ground (arith, ok.counted, count)) (
        Ends-inuse (Allocated s) _ (taken s x) x sound now (
          Ends-then (Cleared (taken s x) x) (Allocated s) (sfs_clear_block x 1) _ (taken s x)
            (sfs_clear_block-Cleared (taken s x) x (range.0, range.1, ok.small))
            (λ ret t h. after s x ok free low ret t h))))
  where
    free : bit s.freemap x ≡ true
    free = (first_set-some (s.freemap.nwords * word_bits) 0 x s.freemap e).0

    low : x < s.freemap.nwords * word_bits
    low = omega (arith, (first_set-some (s.freemap.nwords * word_bits) 0 x s.freemap e).1)

    range : (0 < x) × (x < s.blocks)
    range = ok.inside x low free

    count : total s.freemap ≡ total (taken s x).freemap + 1
    count = total_clear s.freemap (taken s x).freemap x (taken-OneBit s x free) free low

    sound : Sound (taken s x)
    sound = taken-Sound s x ok free low

    now : used (taken s x) x ≡ true
    now = ground (arith, range, (taken-OneBit s x free).2 x)

pub sfs_block_alloc-Allocated : (s : SfsFs) → Sound s → Ends (Allocated s) (sfs_block_alloc s)
sfs_block_alloc-Allocated s ok = alloc_on s _ ok refl
