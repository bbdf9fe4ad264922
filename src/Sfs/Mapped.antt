-- ===== src/Sfs/Mapped.antt =====
-- kern/fs/sfs/sfs_inode.c: the invariant of the block map of a file.
use ucoreonrv.Prelude.{
  ℕ, ◌+◌, ◌-◌, ◌<◌, ◌≤◌, ◌≡◌, ◌≢◌, ◌⊎◌, inl, inr, ℕ_discrete, ◌==◌, subst, sym, ap, ◌∙◌, true,
  false, if◌then◌else◌, ltb, arith,
}
use ucoreonrv.Sfs.State.{ndirect, blk_nentry, SfsFs, SfsDiskInode}
use ucoreonrv.Sfs.Words.{word}
use ucoreonrv.Sfs.Accounts.{used}

-- The blocks that an inode can address.
abbrev pub max_blocks : ℕ
max_blocks = ndirect + blk_nentry

-- The block of the disk that holds block `i` of the file, and 0 where there is none.
abbrev pub entry : SfsFs → SfsDiskInode → (i : ℕ) → ℕ
entry s d i = if ltb i ndirect then d.direct i else word s d.indirect (i - ndirect)

-- The blocks of the file are in use and all different, the block of the entries is another one, and
-- no block stands behind the last.
pub record Mapped (s : SfsFs) (d : SfsDiskInode) : Type 0 where
  pub bound : d.blocks ≤ max_blocks
  pub held : (i : ℕ) → i < d.blocks → used s (entry s d i) ≡ true
  pub beyond : (i : ℕ) → d.blocks ≤ i → i < max_blocks → entry s d i ≡ 0
  pub apart : (i j : ℕ) → i < d.blocks → j < d.blocks → i ≢ j → entry s d i ≢ entry s d j
  pub table : d.indirect ≢ 0 → used s d.indirect ≡ true
  pub table_apart : (i : ℕ) → i < d.blocks → entry s d i ≢ d.indirect

pub used_apart : (s : SfsFs) {x y : ℕ} → used s x ≡ true → used s y ≡ false → x ≢ y
used_apart s h k e = absurd (ground (arith, sym h ∙ ap (used s) e ∙ k))

-- A block is added: the entries stay as they are, and the next is `x`, which was not in use. The
-- block of the entries may be new.
pub grown-Mapped :
    (s s' : SfsFs) (d d' : SfsDiskInode) (x : ℕ)
    → Mapped s d
    → d.blocks < max_blocks
    → d'.blocks ≡ d.blocks + 1
    → ((y : ℕ) → used s y ≡ true → used s' y ≡ true)
    → used s x ≡ false
    → used s' x ≡ true
    → ((i : ℕ) → i < max_blocks → i ≢ d.blocks → entry s' d' i ≡ entry s d i)
    → entry s' d' d.blocks ≡ x
    → (d'.indirect ≢ 0 → used s' d'.indirect ≡ true)
    → x ≢ d'.indirect
    → (d'.indirect ≢ d.indirect → used s d'.indirect ≡ false)
    → Mapped s' d'
grown-Mapped s s' d d' x m l b keeps free now same new table ne fresh = record {
  bound = omega (arith, l, b);
  held = λ i k. elim (next i k) [
    | inl (h, e) ↦ subst (λ y. used s' y ≡ true) (sym e) (keeps (entry s d i) (m.held i h))
    | inr (h, e) ↦ subst (λ y. used s' y ≡ true) (sym e) now
  ];
  beyond =
      λ i k u. same i u (λ e. absurd (omega (arith, e, k, b))) ∙ m.beyond i (omega (arith, k, b)) u;
  apart = λ i j k k' n e. elim (next i k) [
    | inl (h, f) ↦ elim (next j k') [
      | inl (h', f') ↦ m.apart i j h h' n (sym f ∙ e ∙ f')
      | inr (h', f') ↦ used_apart s (m.held i h) free (sym f ∙ e ∙ f')
    ]
    | inr (h, f) ↦ elim (next j k') [
      | inl (h', f') ↦ used_apart s (m.held j h') free (sym f' ∙ sym e ∙ f)
      | inr (h', f') ↦ n (h ∙ sym h')
    ]
  ];
  table = table;
  table_apart = λ i k e. elim (next i k) [
    | inl (h, f) ↦ elim (ℕ_discrete d'.indirect d.indirect) [
      | yes q ↦ m.table_apart i h (sym f ∙ e ∙ q)
      | no q ↦ used_apart s (m.held i h) (fresh q) (sym f ∙ e)
    ]
    | inr (h, f) ↦ ne (sym f ∙ e)
  ];
}
  where
    next :
        (i : ℕ)
        → i < d'.blocks
        → ((i < d.blocks) × (entry s' d' i ≡ entry s d i)) ⊎ ((i ≡ d.blocks) × (entry s' d' i ≡ x))
    next i k = elim (ℕ_discrete i d.blocks) [
      | yes e ↦ inr (e, ap (entry s' d') e ∙ new)
      | no n ↦
          let h : i < d.blocks = omega (arith, n, k, b) in inl (h, same i (omega (arith, h, l)) n)
    ]

-- The last block, `x`, is taken away.
pub shrunk-Mapped :
    (s s' : SfsFs) (d d' : SfsDiskInode)
    → Mapped s d
    → d'.blocks + 1 ≡ d.blocks
    → d'.indirect ≡ d.indirect
    → ((y : ℕ) → used s y ≡ true → y ≢ entry s d d'.blocks → used s' y ≡ true)
    → ((i : ℕ) → i < max_blocks → entry s' d' i ≡ (if i == d'.blocks then 0 else entry s d i))
    → Mapped s' d'
shrunk-Mapped s s' d d' m b q keeps e = record {
  bound = omega (arith, m.bound, b);
  held = λ i k.
      subst (λ y. used s' y ≡ true) (sym (old i k))
        (keeps (entry s d i) (m.held i (omega (arith, k, b))) (
          m.apart i d'.blocks (omega (arith, k, b)) (omega (arith, b))
            (λ f. absurd (omega (arith, f, k)))));
  beyond = λ i k u. ground (arith, e i u, k, b, m.beyond i);
  apart = λ i j k k' n f.
      m.apart i j (omega (arith, k, b)) (omega (arith, k', b)) n (sym (old i k) ∙ f ∙ old j k');
  table = λ n.
      let t = m.table (λ z. n (q ∙ z)) in
      subst (λ y. used s' y ≡ true) (sym q)
        (keeps d.indirect t (λ f. m.table_apart d'.blocks (omega (arith, b)) (sym f)));
  table_apart = λ i k f. m.table_apart i (omega (arith, k, b)) (sym (old i k) ∙ f ∙ q);
}
  where
    old : (i : ℕ) → i < d'.blocks → entry s' d' i ≡ entry s d i
    old i k = ground (arith, e i (omega (arith, k, b, m.bound)), k)
