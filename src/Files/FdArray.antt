-- ===== src/Files/FdArray.antt =====
-- kern/fs/file.c: the entries of the table of open files. An entry is named by its index, `file -
-- fd_array`.
use ucoreonrv.Prelude.{
  ℕ, suc, ◌+◌, ◌-◌, Bool, true, false, ◌&&◌, ◌||◌, not, Option, none, some, List, [], ◌∷◌, ◌==◌,
  if◌then◌else◌, ltb,
}
use ucoreonrv.Prelude.Int.{ℤ, pos, negsuc, eqb_ℤ}
use ucoreonrv.Prelude.Errors.{err, e_inval, e_busy, e_max_open}
use ucoreonrv.Files.State.{
  Status, fd_none, fd_init, fd_opened, fd_closed, File, FsOps, Cmd, ◌>>=◌, ◌>>◌, pure, assert, gets,
  get_file, put_file, files_struct_nentry, no_fd,
}
use ucoreonrv.Files.Inode.{inode_ref_inc, inode_open_inc}
use ucoreonrv.Files.Open.{vfs_close}

abbrev pub is_none : Status → Bool
is_none fd_none = true
is_none _ = false

abbrev pub is_init : Status → Bool
is_init fd_init = true
is_init _ = false

abbrev pub is_opened : Status → Bool
is_opened fd_opened = true
is_opened _ = false

abbrev pub is_closed : Status → Bool
is_closed fd_closed = true
is_closed _ = false

-- `testfd(fd)`
abbrev pub testfd : ℤ → Bool
testfd (pos n) = ltb n files_struct_nentry
testfd (negsuc n) = false

-- An entry, or the error code.
pub data Slot : Type 0 where
  at : ℕ → Slot
  failed : ℤ → Slot

-- The index of a descriptor that `testfd` accepts.
abbrev pub index : ℤ → ℕ
index (pos n) = n
index (negsuc n) = 0

-- `fd_array_init`, for the `n` entries from `i` on.
unfoldable pub fd_array_init : (n i : ℕ) → List File → List File
fd_array_init n i [] = []
fd_array_init n i (f ∷ fs) =
    (if ltb i n then record f { open_count = 0; status = fd_none; fd = i } else f)
    ∷ fd_array_init n (suc i) fs

-- The first entry from `i` on with status FD_NONE.
unfoldable pub first_none : ℕ → List File → Option ℕ
first_none i [] = none
first_none i (f ∷ fs) = if is_none f.status then some i else first_none (suc i) fs

module _ {W : Type 0} where
  unfoldable pub get_fd_array : Cmd W (List File)
  get_fd_array = do n ← gets (λ s. s.files_count); assert (ltb 0 n); gets (λ s. s.fd_array)

  -- The code at the label `found`.
  unfoldable pub claim : ℕ → Cmd W Slot
  claim i = do
    f ← get_file i
    assert (f.open_count == 0)
    put_file i (record f { status = fd_init; node = 0 })
    pure (at i)

  unfoldable pub claim_first : Option ℕ → Cmd W Slot
  unfolding claim
  claim_first none = pure (failed (err e_max_open))
  claim_first (some i) = claim i

  unfoldable pub fd_array_alloc : ℤ → Cmd W Slot
  unfolding get_fd_array first_none claim claim_first
  fd_array_alloc fd = do
    files ← get_fd_array
    if eqb_ℤ fd no_fd
        then claim_first (first_none 0 files)
        else (if testfd fd
            then (do
              f ← get_file (index fd)
              if is_none f.status then claim (index fd) else pure (failed (err e_busy)))
            else pure (failed (err e_inval)))

  unfoldable pub fd_array_acquire : ℕ → Cmd W (Unit {0})
  fd_array_acquire i = do
    f ← get_file i
    assert (is_opened f.status)
    put_file i (record f { open_count = f.open_count + 1 })

  unfoldable pub fd_array_open : ℕ → Cmd W (Unit {0})
  fd_array_open i = do
    f ← get_file i
    assert (is_init f.status && not (f.node == 0))
    put_file i (record f { status = fd_opened; open_count = f.open_count + 1 })

  unfoldable pub fd_array_dup : (to from : ℕ) → Cmd W (Unit {0})
  unfolding fd_array_open inode_ref_inc inode_open_inc
  fd_array_dup to from = do
    t ← get_file to
    f ← get_file from
    assert (is_init t.status && is_opened f.status)
    _ ← inode_ref_inc f.node
    _ ← inode_open_inc f.node
    put_file to
        (record t { pos = f.pos; readable = f.readable; writable = f.writable; node = f.node })
    fd_array_open to

  unfoldable pub fd2file : ℤ → Cmd W Slot
  unfolding get_fd_array
  fd2file fd =
      if testfd fd
      then (do
        _ ← get_fd_array
        f ← get_file (index fd)
        if is_opened f.status && eqb_ℤ (pos f.fd) fd
            then pure (at (index fd))
            else pure (failed (err e_inval)))
      else pure (failed (err e_inval))

module _ {W : Type 0} (ops : FsOps W) where
  -- The entry is given back; a closed one lets go of its inode first.
  unfoldable pub fd_array_free : ℕ → Cmd W (Unit {0})
  fd_array_free i = do
    f ← get_file i
    assert (is_init f.status || is_closed f.status)
    assert (f.open_count == 0)
    _ ← (if is_closed f.status then vfs_close ops f.node else pure (pos 0))
    f' ← get_file i
    put_file i (record f' { status = fd_none })

  unfoldable pub fd_array_release : ℕ → Cmd W (Unit {0})
  unfolding fd_array_free
  fd_array_release i = do
    f ← get_file i
    assert (is_opened f.status || is_closed f.status)
    assert (ltb 0 f.open_count)
    put_file i (record f { open_count = f.open_count - 1 })
    if f.open_count - 1 == 0 then fd_array_free i else pure tt

  unfoldable pub fd_array_close : ℕ → Cmd W (Unit {0})
  unfolding fd_array_free
  fd_array_close i = do
    f ← get_file i
    assert (is_opened f.status)
    assert (ltb 0 f.open_count)
    put_file i (record f { status = fd_closed; open_count = f.open_count - 1 })
    if f.open_count - 1 == 0 then fd_array_free i else pure tt
