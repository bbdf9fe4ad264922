-- ===== src/Sfs/Changing.antt =====
-- kern/fs/sfs/sfs_inode.c: what the loops of `sfs_truncfile` make of a file.
use ucoreonrv.Prelude.{
  ℕ, zero, suc, ◌+◌, ◌-◌, ◌*◌, ◌<◌, ◌≤◌, ◌≡◌, ℕ_discrete, dec_lt, inl, inr, refl, ap, ◌∙◌, sym,
  subst, true, ◌==◌, if◌then◌else◌, ltb, arith,
}
use ucoreonrv.Prelude.Int.{ℤ}
use ucoreonrv.Prelude.Errors.{Ends, Ends-mono}
use ucoreonrv.Files.Open.{is_zero}
use ucoreonrv.Sfs.State.{ndirect, SfsFs, SfsInode, SfsDiskInode}
use ucoreonrv.Sfs.Bmap.{sfs_bmap_load_nolock, sfs_bmap_truncate_nolock}
use ucoreonrv.Sfs.Resize.{enlarge, reduce}
use ucoreonrv.Sfs.Runs.{Ends-then, Ends-if}
use ucoreonrv.Sfs.Accounts.{Sound, used}
use ucoreonrv.Sfs.Allocation.{Extends, nothing, used_same}
use ucoreonrv.Sfs.Words.{u32_at_same}
use ucoreonrv.Sfs.Mapped.{max_blocks, entry, Mapped}
use ucoreonrv.Sfs.Subs.{Quiet}
use ucoreonrv.Sfs.Loading.{Loaded, Appended, sfs_bmap_load-Loaded}
use ucoreonrv.Sfs.Shrinking.{Removed, Shortened}
use ucoreonrv.Sfs.Truncating.{sfs_bmap_truncate-Shortened}

-- The blocks that the file keeps are the same with the same contents, and those it gets hold zeros.
pub record Changed (s : SfsFs) (d : SfsDiskInode) (s' : SfsFs) (d' : SfsDiskInode) : Type 0 where
  pub keeps : (i : ℕ) → i < d.blocks → i < d'.blocks → entry s' d' i ≡ entry s d i
  pub holds :
      (i j : ℕ) → i < d.blocks → i < d'.blocks → s'.disk (entry s' d' i) j ≡ s.disk (entry s d i) j
  pub zeros : (i j : ℕ) → d.blocks ≤ i → i < d'.blocks → s'.disk (entry s' d' i) j ≡ 0

Changed-trans :
    (s t u : SfsFs) (d e f : SfsDiskInode)
    → Changed s d t e
    → Changed t e u f
    → ((i : ℕ) → i < d.blocks → i < f.blocks → i < e.blocks)
    → Changed s d u f
Changed-trans s t u d e f x y between = record {
  keeps = λ i k l. y.keeps i (between i k l) l ∙ x.keeps i k (between i k l);
  holds = λ i j k l. y.holds i j (between i k l) l ∙ x.holds i j k (between i k l);
  zeros = λ i j k l. elim (dec_lt i e.blocks) [
    | yes h ↦ y.holds i j h l ∙ x.zeros i j k h
    | no h ↦ y.zeros i j (omega (arith, h)) l
  ];
}

-- Where all that the file uses stands, it is as it was.
module _ (s t : SfsFs) (d : SfsDiskInode) (m : Mapped s d) (x : Extends nothing s t) where
  entry_kept : (i : ℕ) → entry t d i ≡ entry s d i
  entry_kept i = elim (ℕ_discrete d.indirect 0) [
    | yes z ↦ ground (arith, z)
    | no n ↦
        ap (λ r. if ltb i ndirect then d.direct i else (if d.indirect == 0 then 0 else r))
          (u32_at_same (s.disk d.indirect) (t.disk d.indirect) ((i - ndirect) * 4)
            ((i - ndirect) * 4) (λ j l. x.3 d.indirect ((i - ndirect) * 4 + j) (m.table n) refl))
  ]

  pub kept-Mapped : Mapped t d
  kept-Mapped = record {
    bound = m.bound;
    held =
        λ i k. subst (λ y. used t y ≡ true) (sym (entry_kept i)) (x.2 (entry s d i) (m.held i k));
    beyond = λ i k u. entry_kept i ∙ m.beyond i k u;
    apart = λ i j k l n e. m.apart i j k l n (sym (entry_kept i) ∙ e ∙ entry_kept j);
    table = λ n. x.2 d.indirect (m.table n);
    table_apart = λ i k e. m.table_apart i k (sym (entry_kept i) ∙ e);
  }

  kept-Changed : Changed s d t d
  kept-Changed = record {
    keeps = λ i k l. entry_kept i;
    holds = λ i j k l. ap (λ y. t.disk y j) (entry_kept i) ∙ x.3 (entry s d i) j (m.held i k) refl;
    zeros = λ i j k l. absurd (omega (arith, k, l));
  }

Quiet-Extends : (s t : SfsFs) → Quiet s t → Extends nothing s t
Quiet-Extends s t ((b, _, f, m), d) = (b, m, (λ x u. used_same s t x b f ∙ u), (λ x j u n. d x j))

pub stays : (s : SfsFs) (d : SfsDiskInode) → Mapped s d → Changed s d s d
stays s d m = kept-Changed s s d m (refl, refl, (λ x u. u), (λ x j u n. refl))

-- The file has `n` blocks more, or the code is not 0 and it has not lost any.
abbrev pub Enlarged : SfsFs → SfsInode → (n : ℕ) → (ℤ × SfsInode) × SfsFs → Type 0
Enlarged s sin n ((ret, sin'), s') =
    Sound s'
    × Mapped s' sin'.din
    × Changed s sin.din s' sin'.din
    × (sin.din.blocks ≤ sin'.din.blocks)
    × (sin'.din.blocks ≤ sin.din.blocks + n)
    × (is_zero ret ≡ true → sin'.din.blocks ≡ sin.din.blocks + n)
    × (sin'.din.size ≡ sin.din.size)

Appended-Changed :
    (s t : SfsFs) (sin sin' : SfsInode) (ino : ℕ)
    → Appended s sin ino sin' t
    → Changed s sin.din t sin'.din
Appended-Changed s t sin sin' ino (m, b, e, new, free, zs, h, x, _, _) = record {
  keeps = λ i k l. e i k;
  holds = λ i j k l. ap (λ y. t.disk y j) (e i k) ∙ h i j k;
  zeros = λ i j k l.
      ap (λ i. t.disk (entry t sin'.din i) j) {x = i} {y = sin.din.blocks} (omega (arith, k, l, b))
      ∙ ap (λ y. t.disk y j) new
      ∙ zs j;
}

pub enlarge-Enlarged :
    (n : ℕ) (s : SfsFs) (sin : SfsInode)
    → Sound s
    → Mapped s sin.din
    → sin.din.blocks + n ≤ max_blocks
    → Ends (Enlarged s sin n) (enlarge n sin sin.din.blocks s)
unfolding enlarge
enlarge-Enlarged zero s sin ok m l =
    (ok, m, stays s sin.din m, omega arith, omega arith, λ _. omega arith, refl)
enlarge-Enlarged (suc n) s sin ok m l =
    let again = enlarge-Enlarged n in
    Ends-then (Loaded s sin) (Enlarged s sin (suc n)) (sfs_bmap_load_nolock sin sin.din.blocks) _ s
      (sfs_bmap_load-Loaded s sin ok m (omega (arith, l)))
      (λ (ret, ino, sin') t (ok', c).
        Ends-if (Enlarged s sin (suc n)) (is_zero ret) _ _ t
          (λ z. elim c [
            | inl (f, _, _) ↦ absurd (ground (arith, f, z))
            | inr (_, a) ↦ on again ino sin' t ok' a
          ])
          (λ z. elim c [
            | inl (_, e, x) ↦
                subst (λ sin'. Enlarged s sin (suc n) ((ret, sin'), t)) (sym e)
                  (
                    ok',
                    kept-Mapped s t sin.din m x,
                    kept-Changed s t sin.din m x,
                    omega arith,
                    omega arith,
                    (λ f. absurd (ground (arith, f, z))),
                    refl,
                  )
            | inr (f, _) ↦ absurd (ground (arith, f, z))
          ]))
  where
    on :
        ((s : SfsFs) (sin : SfsInode)
          → Sound s
          → Mapped s sin.din
          → sin.din.blocks + n ≤ max_blocks
          → Ends (Enlarged s sin n) (enlarge n sin sin.din.blocks s))
        → (ino : ℕ) (sin' : SfsInode) (t : SfsFs) → Sound t
        → Appended s sin ino sin' t
        → Ends (Enlarged s sin (suc n)) (enlarge n sin' (sin.din.blocks + 1) t)
    on again ino sin' t ok' a =
        let b : sin'.din.blocks ≡ sin.din.blocks + 1 = a.1 in
        subst (λ k. Ends (Enlarged s sin (suc n)) (enlarge n sin' k t)) b
          (Ends-mono (Enlarged t sin' n) (Enlarged s sin (suc n)) (enlarge n sin' sin'.din.blocks t)
            (again t sin' ok' a.0 (omega (arith, b, l)))
            (λ ((ret, fin), u) (ok'', m'', c, h, h', e, f). (
              ok'',
              m'',
              Changed-trans s t u sin.din sin'.din fin.din (Appended-Changed s t sin sin' ino a) c
                  (λ i k _. omega (arith, k, b)),
              omega (arith, h, b),
              omega (arith, h', b),
              (λ z. omega (arith, e z, b)),
              f ∙ a.8,
            )))

abbrev pub Reduced : SfsFs → SfsInode → (n : ℕ) → (ℤ × SfsInode) × SfsFs → Type 0
Reduced s sin n ((ret, sin'), s') =
    Sound s'
    × Mapped s' sin'.din
    × Changed s sin.din s' sin'.din
    × (sin'.din.blocks ≤ sin.din.blocks)
    × (is_zero ret ≡ true → sin'.din.blocks + n ≡ sin.din.blocks)
    × (sin'.din.size ≡ sin.din.size)

Removed-Changed :
    (s t : SfsFs) (sin sin' : SfsInode) → Removed s sin sin' t → Changed s sin.din t sin'.din
Removed-Changed s t sin sin' (m, b, e, u, h, x, _, _, _, _, _, _) = record {
  keeps = λ i k l. e i l;
  holds = λ i j k l. ap (λ y. t.disk y j) (e i l) ∙ h i j l;
  zeros = λ i j k l. absurd (omega (arith, k, l, b));
}

pub reduce-Reduced :
    (n : ℕ) (s : SfsFs) (sin : SfsInode)
    → Sound s
    → Mapped s sin.din
    → n ≤ sin.din.blocks
    → Ends (Reduced s sin n) (reduce n sin s)
unfolding reduce
reduce-Reduced zero s sin ok m l = (ok, m, stays s sin.din m, omega arith, λ _. omega arith, refl)
reduce-Reduced (suc n) s sin ok m l =
    let again = reduce-Reduced n in
    Ends-then (Shortened s sin) (Reduced s sin (suc n)) (sfs_bmap_truncate_nolock sin) _ s
      (sfs_bmap_truncate-Shortened s sin ok m (omega (arith, l)))
      (λ (ret, sin') t (ok', c).
        Ends-if (Reduced s sin (suc n)) (is_zero ret) _ _ t
          (λ z. elim c [
            | inl (f, _, _) ↦ absurd (ground (arith, f, z))
            | inr (_, a) ↦
                let b : sin'.din.blocks + 1 ≡ sin.din.blocks = a.1 in
                Ends-mono (Reduced t sin' n) (Reduced s sin (suc n)) (reduce n sin' t)
                  (again t sin' ok' a.0 (omega (arith, b, l)))
                  (λ ((ret, fin), u) (ok'', m'', c, h, e, f). (
                    ok'',
                    m'',
                    Changed-trans s t u sin.din sin'.din fin.din (Removed-Changed s t sin sin' a) c
                        (λ i _ k. omega (arith, k, h)),
                    omega (arith, h, b),
                    (λ z. omega (arith, e z, b)),
                    f ∙ a.6,
                  ))
          ])
          (λ z. elim c [
            | inl (_, e, q) ↦
                subst (λ sin'. Reduced s sin (suc n) ((ret, sin'), t)) (sym e)
                  (
                    ok',
                    kept-Mapped s t sin.din m (Quiet-Extends s t q),
                    kept-Changed s t sin.din m (Quiet-Extends s t q),
                    omega arith,
                    (λ f. absurd (ground (arith, f, z))),
                    refl,
                  )
            | inr (f, _) ↦ absurd (ground (arith, f, z))
          ]))
