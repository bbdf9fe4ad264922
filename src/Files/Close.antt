-- ===== src/Files/Close.antt =====
-- kern/fs/file.c: `file_close`, alone and while another thread still uses the entry.
use ucoreonrv.Prelude.{
  ℕ, ◌-◌, ◌<◌, ◌≤◌, ◌≡◌, refl, false, some, arith, get_elem?, set, get_elem?-set-some,
}
use ucoreonrv.Prelude.Int.{pos}
use ucoreonrv.Prelude.Errors.{done, err, e_inval}
use ucoreonrv.Files.State.{fd_opened, fd_closed, File, FsState, FsOps, files_struct_nentry}
use ucoreonrv.Files.FdArray.{is_opened, at, failed, fd2file, fd_array_close}
use ucoreonrv.Files.Calls.{file_close}

-- Entry `n` of the table is `f`, an open file, and knows its index.
pub record Open {W : Type 0} (s : FsState W) (n : ℕ) (f : File) : Type 0 where
  pub some_files : 0 < s.files_count
  pub in_table : n < files_struct_nentry
  pub entry : get_elem? s.fd_array n ≡ some f
  pub opened : f.status ≡ fd_opened
  pub own_fd : f.fd ≡ n

-- The state with entry `n` replaced.
abbrev pub with_entry : {W : Type 0} → FsState W → ℕ → File → FsState W
with_entry s n f = record s { fd_array = set s.fd_array n f }

module _ {W : Type 0} (s : FsState W) (n : ℕ) (f : File) (o : Open s n f) where
  pub fd2file_open : fd2file (pos n) s ≡ done (at n, s)
  unfolding fd2file
  fd2file_open = ground (arith, o.entry, o.opened, o.own_fd, o.some_files, o.in_table)

-- A descriptor of an entry that is not open is refused.
pub fd2file-not_open :
    {W : Type 0} (s : FsState W) (n : ℕ) (f : File)
    → 0 < s.files_count
    → get_elem? s.fd_array n ≡ some f
    → is_opened f.status ≡ false
    → fd2file (pos n) s ≡ done (failed (err e_inval), s)
unfolding fd2file
fd2file-not_open s n f c e h = ground (arith, e)

module _ {W : Type 0} (ops : FsOps W) (s : FsState W) (n : ℕ) (f : File) (o : Open s n f) where
  closing : File
  closing = record f { status = fd_closed; open_count = f.open_count - 1 }

  -- Closing a file that another thread reads marks the entry closed and takes one use away; the
  -- inode is not touched. From then on the descriptor is refused, so a second `file_close` answers
  -- `-E_INVAL` and changes nothing.
  file_close-in_use :
      2 ≤ f.open_count
      → let s' = with_entry s n (record f { status = fd_closed; open_count = f.open_count - 1 }) in
        (file_close ops (pos n) s ≡ done (pos 0, s'))
        × (file_close ops (pos n) s' ≡ done (err e_inval, s'))
  unfolding file_close fd_array_close closing
  file_close-in_use h = (
    ground (arith, fd2file_open s n f o, o.entry, o.opened),
    ground (
      arith,
      fd2file-not_open (with_entry s n closing) n closing o.some_files
          (get_elem?-set-some s.fd_array n closing o.entry) refl,
    ),
  )
