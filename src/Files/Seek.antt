-- ===== src/Files/Seek.antt =====
-- kern/fs/file.c: `file_seek` over a file system that answers without changing the table.
use ucoreonrv.Prelude.{
  ℕ, ◌+◌, ◌≤◌, ◌≡◌, ◌≢◌, ◌⊎◌, inl, inr, refl, true, false, some, arith, get_elem?, subst, sym,
  get_elem?-set-some, set-set, set-get_elem?, if◌then◌else◌, Bool-cases, ℕ_discrete,
}
use ucoreonrv.Prelude.Int.{ℤ, pos, ◌+ℤ◌, eqb_ℤ→eq}
use ucoreonrv.Prelude.Errors.{done, Ends, err, e_inval}
use ucoreonrv.Files.State.{
  fd_opened, File, FsState, FsOps, Vop, op_fstat, op_tryseek, Cmd, ◌>>=◌, ◌>>◌, pure,
}
use ucoreonrv.Files.Inode.{Callable, vop_op_lem}
use ucoreonrv.Files.Open.{is_zero}
use ucoreonrv.Files.FdArray.{fd_array_release}
use ucoreonrv.Files.Calls.{seek_target, seek_to, file_seek}
use ucoreonrv.Files.Close.{Open, with_entry, fd2file_open}
use ucoreonrv.Files.Transfer.{acquired, acquire_lem, release-shared}

module _ {W : Type 0} (ops : FsOps W) (s : FsState W) (n : ℕ) (f : File) (o : Open s n f)
    (used : 1 ≤ f.open_count) (can : (op : Vop) → Callable ops op s f.node) (accepts : ℤ → ℤ)
    (stat : ℤ × ℕ)
    (tries : (t : ℤ) (u : FsState W) → ops.vop_tryseek f.node t u ≡ done (accepts t, u))
    (stats : (u : FsState W) → ops.vop_fstat f.node u ≡ done (stat, u)) where
  abbrev using : FsState W
  using = with_entry s n (acquired f)

  entry : get_elem? using.fd_array n ≡ some (acquired f)
  entry = get_elem?-set-some s.fd_array n (acquired f) o.entry

  -- What `file_seek` may end with.
  abbrev Sought : ℤ × FsState W → Type 0
  Sought (ret, s') =
      ((ret ≡ pos 0)
        × ((t : ℤ) × (accepts t ≡ pos 0) × (s' ≡ with_entry s n (record f { pos = t }))))
      ⊎ ((ret ≢ pos 0) × (s' ≡ s))

  -- The end of `file_seek` at a target.
  seeks :
      (t : ℤ)
      → seek_to ops n t using
        ≡ done (
          accepts t,
          with_entry s n
              (if is_zero (accepts t) then record (acquired f) { pos = t } else acquired f),
        )
  unfolding seek_to
  seeks t = ground (
    arith,
    entry,
    vop_op_lem ops op_tryseek using f.node (can op_tryseek),
    tries t using,
    set-set s.fd_array n (acquired f) (record (acquired f) { pos = t }),
    set-set s.fd_array n (acquired f) (acquired f),
  )

  gives_back :
      (g : File)
      → g.status ≡ fd_opened
      → g.open_count ≡ f.open_count + 1
      → fd_array_release ops n (with_entry s n g)
        ≡ done (tt, with_entry s n (record g { open_count = f.open_count }))
  gives_back g st c = ground (
    arith,
    release-shared ops (with_entry s n g) n g (get_elem?-set-some s.fd_array n g o.entry) st,
    c,
    set-set s.fd_array n g (record g { open_count = f.open_count }),
  )

  -- From the target on.
  abbrev tail : ℤ → ℤ → Cmd W ℤ
  tail r t = do
    ret ← (if is_zero r then seek_to ops n t else pure r)
    fd_array_release ops n
    pure ret

  kept : with_entry s n (record (acquired f) { open_count = f.open_count }) ≡ s
  kept = ground (arith, set-get_elem? s.fd_array n o.entry)

  abbrev sought_at : ℤ → File
  sought_at t = record (acquired f) { pos = t }

  tail-refused : (r t : ℤ) → is_zero r ≡ false → tail r t using ≡ done (r, s)
  tail-refused r t z = ground (arith, z, gives_back (acquired f) o.opened refl, kept)

  tail-moves :
      (r t : ℤ)
      → is_zero r ≡ true
      → is_zero (accepts t) ≡ true
      → tail r t using ≡ done (accepts t, with_entry s n (record f { pos = t }))
  tail-moves r t z a = ground (arith, z, a, seeks t, gives_back (sought_at t) o.opened refl)

  tail-stays :
      (r t : ℤ)
      → is_zero r ≡ true
      → is_zero (accepts t) ≡ false
      → tail r t using ≡ done (accepts t, s)
  tail-stays r t z a = ground (arith, z, a, seeks t, gives_back (acquired f) o.opened refl, kept)

  nonzero : (r : ℤ) → is_zero r ≡ false → r ≢ pos 0
  nonzero r z e = ground (arith, z, e)

  tail-Sought : (r t : ℤ) → Ends Sought (tail r t using)
  tail-Sought r t = elim (Bool-cases (is_zero r)) [
    | inr z ↦ subst (Ends Sought) (sym (tail-refused r t z)) (inr (nonzero r z, refl))
    | inl z ↦ elim (Bool-cases (is_zero (accepts t))) [
      | inl a ↦
          let ok = eqb_ℤ→eq (accepts t) (pos 0) a in
          subst (Ends Sought) (sym (tail-moves r t z a)) (inl (ok, (t, ok, refl)))
      | inr a ↦ subst (Ends Sought) (sym (tail-stays r t z a)) (inr (nonzero (accepts t) a, refl))
    ]
  ]

  target :
      (offset : ℤ) (whence : ℕ)
      → (r : ℤ) × (t : ℤ) × (seek_target ops n offset whence using ≡ done ((r, t), using))
  unfolding seek_target
  target offset whence = elim (ℕ_discrete whence 0) [
    | yes h ↦ (pos 0, offset, ground arith)
    | no h ↦ elim (ℕ_discrete whence 1) [
      | yes h' ↦ (pos 0, offset +ℤ f.pos, ground (arith, entry))
      | no h' ↦ elim (ℕ_discrete whence 2) [
        | yes h'' ↦ (
          stat.0,
          if is_zero stat.0 then offset +ℤ pos stat.1 else offset,
          ground (arith, entry, vop_op_lem ops op_fstat using f.node (can op_fstat), stats using),
        )
        | no h'' ↦ (err e_inval, offset, ground arith)
      ]
    ]
  ]

  steps :
      (offset : ℤ) (whence : ℕ) (r t : ℤ)
      → seek_target ops n offset whence using ≡ done ((r, t), using)
      → file_seek ops (pos n) offset whence s ≡ tail r t using
  unfolding file_seek
  steps offset whence r t e = ground (arith, fd2file_open s n f o, acquire_lem s n f o, e)

  -- `file_seek` answers 0 only with the position set to one that `vop_tryseek` accepts, and any other
  -- value with nothing changed, whatever `whence` is; every use of the entry is given back.
  file_seek-Sought :
      (offset : ℤ) (whence : ℕ)
      → Ends
          (λ (ret, s').
            ((ret ≡ pos 0)
              × ((t : ℤ) × (accepts t ≡ pos 0) × (s' ≡ with_entry s n (record f { pos = t }))))
            ⊎ ((ret ≢ pos 0) × (s' ≡ s)))
          (file_seek ops (pos n) offset whence s)
  file_seek-Sought offset whence =
      let (r, t, e) = target offset whence in
      subst (Ends Sought) (sym (steps offset whence r t e)) (tail-Sought r t)
