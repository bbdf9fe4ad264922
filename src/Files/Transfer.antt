-- ===== src/Files/Transfer.antt =====
-- kern/fs/file.c: `file_read` and `file_write` around the operation of the inode, which may sleep
-- while other threads change the table.
use ucoreonrv.Prelude.{
  ℕ, ◌+◌, ◌-◌, ◌≤◌, ◌≡◌, true, false, some, arith, get_elem?, get_elem?-set-some, set-set,
  set-get_elem?, Bool,
}
use ucoreonrv.Prelude.Int.{ℤ, pos, ◌+ℤ◌}
use ucoreonrv.Prelude.Errors.{done, err, e_inval}
use ucoreonrv.Files.State.{
  fd_none, fd_opened, fd_closed, File, Iobuf, FsState, FsOps, Vop, op_read, op_write, Cmd,
}
use ucoreonrv.Files.Inode.{Callable, vop_op_lem}
use ucoreonrv.Files.FdArray.{fd_array_acquire, fd_array_release, fd_array_free}
use ucoreonrv.Files.Calls.{iobuf_init, iobuf_used, transfer, file_read, file_write}
use ucoreonrv.Files.Close.{Open, with_entry, fd2file_open}
use ucoreonrv.Files.LetGo.{with_inode, released, vfs_close-shared}

-- One more use of an entry.
abbrev pub acquired : File → File
acquired f = record f { open_count = f.open_count + 1 }

module _ {W : Type 0} (s : FsState W) (n : ℕ) (f : File) (o : Open s n f) where
  pub acquire_lem : fd_array_acquire n s ≡ done (tt, with_entry s n (acquired f))
  unfolding fd_array_acquire
  acquire_lem = ground (arith, o.entry, o.opened)

module _ {W : Type 0} (ops : FsOps W) (s : FsState W) (n : ℕ) (f : File)
    (e : get_elem? s.fd_array n ≡ some f) where
  -- Giving back a use that is not the last.
  pub release-shared :
      f.status ≡ fd_opened
      → 2 ≤ f.open_count
      → fd_array_release ops n s
        ≡ done (tt, with_entry s n (record f { open_count = f.open_count - 1 }))
  unfolding fd_array_release
  release-shared st h = ground (arith, e, st)

  -- Giving back the last use of an entry that was closed in between.
  pub release-closed :
      f.status ≡ fd_closed
      → f.open_count ≡ 1
      → 2 ≤ (s.inodes f.node).open_count
      → 2 ≤ (s.inodes f.node).ref_count
      → fd_array_release ops n s
        ≡ done (
          tt,
          record (with_entry s n (record f { status = fd_none; open_count = 0 })) {
            inodes = with_inode s.inodes f.node (released (s.inodes f.node));
          },
        )
  unfolding fd_array_release fd_array_free
  release-closed st one h k = ground (
    arith,
    e,
    st,
    get_elem?-set-some s.fd_array n (record f { open_count = 0 }) e,
    vfs_close-shared ops (with_entry s n (record f { open_count = 0 })) f.node h k,
    set-set s.fd_array n (record f { open_count = 0 })
        (record f { status = fd_none; open_count = 0 }),
  )

module _ {W : Type 0} (ops : FsOps W) (allowed : File → Bool) (op : Vop)
    (vop : ℕ → Iobuf → Cmd W (ℤ × Iobuf)) (s : FsState W) (n : ℕ) (f : File) (o : Open s n f)
    (base len : ℕ) where
  -- Without the right the call is refused, and nothing changes.
  pub transfer-refused :
      allowed f ≡ false
      → transfer ops allowed op vop (pos n) base len s ≡ done ((err e_inval, 0), s)
  unfolding transfer
  transfer-refused h = ground (arith, fd2file_open s n f o, o.entry)

  module _ (may : allowed f ≡ true) (can : Callable ops op s f.node) (ret : ℤ) (iob : Iobuf)
      (s' : FsState W) (f' : File)
      (ran : vop f.node (iobuf_init base len f.pos) (with_entry s n (acquired f))
        ≡ done ((ret, iob), s'))
      (e' : get_elem? s'.fd_array n ≡ some f') where
    abbrev moved : File
    moved = record f' { pos = f'.pos +ℤ pos (iobuf_used iob) }

    pub transfer-open :
        f'.status ≡ fd_opened
        → 2 ≤ f'.open_count
        → transfer ops allowed op vop (pos n) base len s
          ≡ done (
            (ret, iobuf_used iob),
            with_entry s' n (record f' {
              pos = f'.pos +ℤ pos (iobuf_used iob);
              open_count = f'.open_count - 1;
            }),
          )
    unfolding transfer
    transfer-open st h = ground (
      arith,
      fd2file_open s n f o,
      o.entry,
      acquire_lem s n f o,
      vop_op_lem ops op (with_entry s n (acquired f)) f.node can,
      ran,
      e',
      st,
      release-shared ops (with_entry s' n moved) n moved (get_elem?-set-some s'.fd_array n moved e')
          st h,
      set-set s'.fd_array n moved (record moved { open_count = f'.open_count - 1 }),
    )

    pub transfer-closed :
        f'.status ≡ fd_closed
        → f'.open_count ≡ 1
        → 2 ≤ (s'.inodes f'.node).open_count
        → 2 ≤ (s'.inodes f'.node).ref_count
        → transfer ops allowed op vop (pos n) base len s
          ≡ done (
            (ret, iobuf_used iob),
            record (with_entry s' n (record f' { status = fd_none; open_count = 0 })) {
              inodes = with_inode s'.inodes f'.node (released (s'.inodes f'.node));
            },
          )
    unfolding transfer
    transfer-closed st one h k = ground (
      arith,
      fd2file_open s n f o,
      o.entry,
      acquire_lem s n f o,
      vop_op_lem ops op (with_entry s n (acquired f)) f.node can,
      ran,
      e',
      st,
      set-get_elem? s'.fd_array n e',
      release-closed ops s' n f' e' st one h k,
    )

module _ {W : Type 0} (ops : FsOps W) (s : FsState W) (n : ℕ) (f : File) (o : Open s n f)
    (base len : ℕ) (ret : ℤ) (iob : Iobuf) (s' : FsState W) (f' : File)
    (e' : get_elem? s'.fd_array n ≡ some f') where
  -- `file_read` of a readable open file hands `vop_read` its position and one use of its entry. If
  -- the entry is still open afterwards, the position has moved on by the bytes that were copied,
  -- which are returned with the result of `vop_read`, and the use is given back.
  file_read-moves :
      f.readable ≡ true
      → Callable ops op_read s f.node
      → ops.vop_read f.node (iobuf_init base len f.pos) (with_entry s n (acquired f))
        ≡ done ((ret, iob), s')
      → f'.status ≡ fd_opened
      → 2 ≤ f'.open_count
      → file_read ops (pos n) base len s
        ≡ done (
          (ret, iobuf_used iob),
          with_entry s' n
              (record f' { pos = f'.pos +ℤ pos (iobuf_used iob); open_count = f'.open_count - 1 }),
        )
  unfolding file_read
  file_read-moves may can ran st h =
      transfer-open ops (λ g. g.readable) op_read ops.vop_read s n f o base len may can ret iob s'
        f' ran e' st h

  -- Where the file is open and writable, its inode's `vop_write` can be called, and another thread
  -- closes the file while that runs, with `file_write` as its last use, and where at least two openers
  -- and two references of the inode are left then: `file_write` leaves the position, frees the entry,
  -- takes one opener and one reference away, and changes nothing else of what `vop_write` left. It
  -- returns the result of that with the bytes copied.
  pub file_write-closed :
      f.writable ≡ true
      → Callable ops op_write s f.node
      → ops.vop_write f.node (iobuf_init base len f.pos) (with_entry s n (acquired f))
        ≡ done ((ret, iob), s')
      → f'.status ≡ fd_closed
      → f'.open_count ≡ 1
      → 2 ≤ (s'.inodes f'.node).open_count
      → 2 ≤ (s'.inodes f'.node).ref_count
      → file_write ops (pos n) base len s
        ≡ done (
          (ret, iobuf_used iob),
          record (with_entry s' n (record f' { status = fd_none; open_count = 0 })) {
            inodes = with_inode s'.inodes f'.node (released (s'.inodes f'.node));
          },
        )
  unfolding file_write
  file_write-closed may can ran st one h k =
      transfer-closed ops (λ g. g.writable) op_write ops.vop_write s n f o base len may can ret iob
        s' f' ran e' st one h k
