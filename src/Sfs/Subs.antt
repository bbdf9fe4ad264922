-- ===== src/Sfs/Subs.antt =====
-- kern/fs/sfs/sfs_inode.c: `sfs_bmap_get_sub_nolock`, where the entry is there and where it is to be
-- made.
use ucoreonrv.Prelude.{
  ℕ, ◌+◌, ◌*◌, ◌<◌, ◌≡◌, ◌≢◌, ◌⊎◌, inl, inr, refl, ap, ◌∙◌, sym, subst, Bool, true, false, not,
  ◌||◌, ◌==◌, if◌then◌else◌, ltb, arith,
}
use ucoreonrv.Prelude.Int.{ℤ}
use ucoreonrv.Prelude.Errors.{Ends}
use ucoreonrv.Files.Open.{is_zero}
use ucoreonrv.Sfs.State.{blk_nentry, SfsFs, u32_at}
use ucoreonrv.Sfs.Device.{sfs_rbuf}
use ucoreonrv.Sfs.Bmap.{sfs_bmap_get_sub_nolock}
use ucoreonrv.Sfs.Runs.{Ends-then, Ends-assert, Ends-if}
use ucoreonrv.Sfs.Transfers.{Calls, Rbuf, sfs_rbuf-Rbuf}
use ucoreonrv.Sfs.Accounts.{Sound, used}
use ucoreonrv.Sfs.Allocation.{used_same, Extends, nothing}
use ucoreonrv.Sfs.Words.{word, slot, u32_at_same}
use ucoreonrv.Sfs.Mapped.{used_apart}
use ucoreonrv.Sfs.Entries.{Made, Entered, used-Numbered}

-- Nothing changes but the device's next codes.
abbrev pub Quiet : SfsFs → SfsFs → Type 0
Quiet s s' = Calls s s' × ((q j : ℕ) → s'.disk q j ≡ s.disk q j)

-- The entry `k` of the block `p` is there, or the device fails.
abbrev pub Read : SfsFs → (p k : ℕ) → (ℤ × ℕ × ℕ) × SfsFs → Type 0
Read s p k ((ret, e, ino), s') =
    (e ≡ p)
    × Quiet s s'
    × (is_zero ret ≡ true → ino ≡ word s p k)
    × (is_zero ret ≡ (p == 0 || is_zero (s.codes 0)))

-- Without `create`, or with an entry that is not 0, the entry is read.
pub get_sub-Read :
    (s : SfsFs) (p k : ℕ) (create : Bool)
    → Sound s
    → (p ≢ 0 → used s p ≡ true)
    → k < blk_nentry
    → (create ≡ true → word s p k ≢ 0)
    → Ends (Read s p k) (sfs_bmap_get_sub_nolock p k create s)
unfolding sfs_bmap_get_sub_nolock
get_sub-Read s p k create ok u l there =
    Ends-assert (Read s p k) (ltb k blk_nentry) _ s (ground (arith, l)) (
      Ends-if (Read s p k) (not (p == 0)) _ _ s
        (λ z.
          Ends-then (Rbuf s p (k * 4)) (Read s p k) (sfs_rbuf 4 p (k * 4)) _ s
            (sfs_rbuf-Rbuf s 4 p (k * 4)
              (used-Numbered s p ok (u (λ e. absurd (ground (arith, z, e)))))
              (omega (arith, l), omega (arith, l)))
            (λ (ret, b) t (c, d, h, r).
              Ends-if (Read s p k) (not (is_zero ret)) _ _ t
                (λ f. (refl, (c, d), (λ g. absurd (ground (arith, f, g))), ground (arith, z, r)))
                (λ f.
                  let e : u32_at b 0 ≡ word s p k = ground (
                    arith,
                    z,
                    u32_at_same (s.disk p) b (k * 4) 0
                        (λ j m. ap b {x = 0 + j} {y = j} (omega arith) ∙ h (ground (arith, f)) j),
                  ) in
                  Ends-if (Read s p k) (not (u32_at b 0 == 0) || not create) _ _ t
                    (λ g. (refl, (c, d), (λ _. e), ground (arith, z, f, r)))
                    (λ g. absurd (there (ground (arith, g)) (ground (arith, g, e)))))))
        (λ z.
          Ends-if (Read s p k) (not create) _ _ s
            (λ f. (
              refl,
              ((refl, refl, refl, refl), λ q j. refl),
              (λ _. ground (arith, z)),
              ground (arith, z),
            ))
            (λ f. absurd (there (ground (arith, f)) (ground (arith, z))))))

-- The fresh block `ino` is entry `k` of the block `e`, which is `p` or fresh; the other entries are
-- as they were.
abbrev pub GrownBy : SfsFs → (p k e ino : ℕ) → SfsFs → Type 0
GrownBy s p k e ino s' =
    Extends (slot p k) s s'
    × (used s' e ≡ true)
    × ((e ≡ p) ⊎ ((p ≡ 0) × (used s e ≡ false)))
    × (used s ino ≡ false)
    × (used s' ino ≡ true)
    × (ino ≢ e)
    × ((i : ℕ) → word s' e i ≡ (if i == k then ino else word s p i))
    × ((j : ℕ) → s'.disk ino j ≡ 0)

abbrev pub Grown : SfsFs → (p k : ℕ) → (ℤ × ℕ × ℕ) × SfsFs → Type 0
Grown s p k ((ret, e, ino), s') =
    Sound s'
    × (((is_zero ret ≡ false) × (e ≡ p) × Extends nothing s s')
        ⊎ ((is_zero ret ≡ true) × GrownBy s p k e ino s'))

other_entry :
    (t v : SfsFs) (ent k i ino : ℕ)
    → Entered t ent k ino v
    → used t ent ≡ true
    → word v ent i ≡ (if i == k then ino else word t ent i)
other_entry t v ent k i ino (x, _, _, e, _) u =
    let same : i ≢ k → u32_at (v.disk ent) (i * 4) ≡ u32_at (t.disk ent) (i * 4) = λ n.
      u32_at_same (t.disk ent) (v.disk ent) (i * 4) (i * 4)
        (λ j l. x.3 ent (i * 4 + j) u (ground (arith, n, l))) in
    ground (arith, same, e, ap (word v ent) {x = i} {y = k})

-- In a block of entries that was there.
pub old_table :
    (s t : SfsFs) (p k : ℕ)
    → used s p ≡ true
    → Quiet s t
    → (a : ℤ × ℕ × ℕ) (v : SfsFs) → Made t p p k (a, v)
    → Grown s p k (a, v)
old_table s t p k u ((b, c, f, m), d) (ret, e, ino) v (inl (z, q, (ok, b', m', k', d'))) = (
  ok,
  inl (
    z,
    q,
    (
      b' ∙ b,
      m' ∙ m,
      (λ x w. k' x (used_same s t x b f ∙ w) (ground arith)),
      (λ x j w n. d' x j (used_same s t x b f ∙ w) ∙ d x j),
    ),
  ),
)
old_table s t p k u ((b, c, f, m), d) (ret, e, ino) v (inr (z, q, ok, (x, free, now, w, zs))) = (
  ok,
  inr (
    z,
    (
      (
        x.0 ∙ b,
        x.1 ∙ m,
        (λ y h. x.2 y (used_same s t y b f ∙ h)),
        (λ y j h n. x.3 y j (used_same s t y b f ∙ h) n ∙ d y j),
      ),
      subst (λ y. used v y ≡ true) (sym q) (x.2 p up),
      inl q,
      sym (used_same s t ino b f) ∙ free,
      now,
      (λ g. used_apart t up free (sym (g ∙ q))),
      (λ i. ap (λ y. word v y i) q ∙ other_entry t v p k i ino (x, free, now, w, zs) up ∙ kept i),
      zs,
    ),
  ),
)
  where
    up : used t p ≡ true
    up = used_same s t p b f ∙ u

    kept : (i : ℕ) → (if i == k then ino else word t p i) ≡ (if i == k then ino else word s p i)
    kept i =
        ap (λ r. if i == k then ino else (if p == 0 then 0 else r))
          (u32_at_same (s.disk p) (t.disk p) (i * 4) (i * 4) (λ j l. d p (i * 4 + j)))

-- In a fresh block of entries.
pub new_table :
    (s t : SfsFs) (ent k : ℕ)
    → Extends nothing s t
    → used s ent ≡ false
    → used t ent ≡ true
    → ((j : ℕ) → t.disk ent j ≡ 0)
    → (a : ℤ × ℕ × ℕ) (v : SfsFs) → Made t 0 ent k (a, v)
    → Grown s 0 k (a, v)
new_table s t ent k x f u zs (ret, e, ino) v (inl (z, q, (ok, b', m', k', d'))) = (
  ok,
  inl (
    z,
    q,
    (
      b' ∙ x.0,
      m' ∙ x.1,
      (λ y w. k' y (x.2 y w) (ground (arith, f, w, ap (used s) {x = y} {y = ent}))),
      (λ y j w n. d' y j (x.2 y w) ∙ x.3 y j w n),
    ),
  ),
)
new_table s t ent k x f u zs (ret, e, ino) v (inr (z, q, ok, h)) = (
  ok,
  inr (
    z,
    (
      (
        h.0.0 ∙ x.0,
        h.0.1 ∙ x.1,
        (λ y w. h.0.2 y (x.2 y w)),
        (λ y j w n.
            h.0.3 y j (x.2 y w) (ground (arith, f, w, ap (used s) {x = y} {y = ent}))
            ∙ x.3 y j w refl),
      ),
      subst (λ y. used v y ≡ true) (sym q) (h.0.2 ent u),
      inr (refl, ap (used s) q ∙ f),
      was,
      h.2,
      (λ g. used_apart t u h.1 (sym (g ∙ q))),
      (λ i. ap (λ y. word v y i) q ∙ other_entry t v ent k i ino h u ∙ kept i),
      h.4,
    ),
  ),
)
  where
    was : used s ino ≡ false
    was = ground (arith, x.2 ino, h.1)

    kept : (i : ℕ) → (if i == k then ino else word t ent i) ≡ (if i == k then ino else 0)
    kept i = ground (arith, zs (i * 4), zs (i * 4 + 1), zs (i * 4 + 2), zs (i * 4 + 3))
