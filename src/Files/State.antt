-- ===== src/Files/State.antt =====
-- What the file layer works on: the open-file table of the current process (kern/fs/file.h), the
-- inodes' counters (kern/fs/vfs/inode.h), and the operations that a file system provides.
use ucoreonrv.Prelude.{
  ℕ, ◌-◌, ◌/◌, Bool, true, false, none, some, List, get_elem?, set, ◌==◌, if◌then◌else◌,
}
use ucoreonrv.Prelude.Int.{ℤ}
use ucoreonrv.Prelude.Errors.{Run, fault, done}

pub data Status : Type 0 where
  fd_none fd_init fd_opened fd_closed : Status

-- `struct file`. `node` 0 is NULL. `open_count` is an `int` that every decrement finds positive.
pub record File : Type 0 where
  pub status : Status
  pub readable : Bool
  pub writable : Bool
  pub fd : ℕ
  pub pos : ℤ
  pub node : ℕ
  pub open_count : ℕ

pub record Inode : Type 0 where
  pub ref_count : ℕ
  pub open_count : ℕ

-- FILES_STRUCT_NENTRY: a page less the 48 bytes of `struct files_struct`, in entries of 56 bytes.
abbrev pub files_struct_nentry : ℕ
files_struct_nentry = (4096 - 48) / 56

-- NO_FD
abbrev pub no_fd : ℤ
no_fd = ℤ.negsuc (0x9527 - 1)

-- `world` is the state of the file systems below.
pub record FsState (W : Type 0) : Type 0 where
  pub fd_array : List File
  pub files_count : ℕ
  pub inodes : ℕ → Inode
  pub world : W

-- A command: it may fail an assertion, or return a value and the next state.
abbrev pub Cmd : Type 0 → Type 0 → Type 0
Cmd W A = FsState W → Run (A × FsState W)

infixl 5 ◌>>=◌ ◌>>◌
abbrev pub ◌>>=◌ : {W A B : Type 0} → Cmd W A → (A → Cmd W B) → Cmd W B
◌>>=◌ m f s = elim (m s) [ fault ↦ fault | done (a, s') ↦ f a s' ]

abbrev pub ◌>>◌ : {W B : Type 0} → Cmd W (Unit {0}) → Cmd W B → Cmd W B
◌>>◌ m k s = elim (m s) [ fault ↦ fault | done (_, s') ↦ k s' ]

module _ {W : Type 0} where
  abbrev pub pure : {A : Type 0} → A → Cmd W A
  pure a s = done (a, s)

  abbrev pub assert : Bool → Cmd W (Unit {0})
  assert true s = done (tt, s)
  assert false s = fault

  abbrev pub gets : {A : Type 0} → (FsState W → A) → Cmd W A
  gets f s = done (f s, s)

  -- `fd_array[i]`, a fault outside the array.
  abbrev pub get_file : ℕ → Cmd W File
  get_file i s = elim (get_elem? s.fd_array i) [ none ↦ fault | some f ↦ done (f, s) ]

  abbrev pub put_file : ℕ → File → Cmd W (Unit {0})
  put_file i f s = done (tt, record s { fd_array = set s.fd_array i f })

  abbrev pub put_inode : ℕ → Inode → Cmd W (Unit {0})
  put_inode n v s = done (tt, record s { inodes = λ a. if a == n then v else s.inodes a })

-- `struct iobuf`, less the memory that `io_base` points to.
pub record Iobuf : Type 0 where
  pub io_base : ℕ
  pub io_offset : ℤ
  pub io_len : ℕ
  pub io_resid : ℕ

-- The names of the operations in `struct inode_ops` that the file layer calls.
pub data Vop : Type 0 where
  op_create op_open op_close op_reclaim op_truncate op_read op_write op_fstat op_tryseek op_fsync
        op_getdirentry :
      Vop

-- The function pointers of `struct inode_ops`, the path lookup and the creation of a pipe's inode.
-- A call may sleep, so it may change the whole state, the table of open files too.
-- `has_op` is whether an inode has a table with VOP_MAGIC and with that operation.
pub record FsOps (W : Type 0) : Type 0 where
  pub has_op : Vop → ℕ → Bool
  pub vfs_lookup : List ℕ → Cmd W (ℤ × ℕ)
  pub vfs_lookup_parent : List ℕ → Cmd W (ℤ × ℕ × List ℕ)
  pub pipe_create_inode : Cmd W ℕ
  pub vop_create : ℕ → List ℕ → Bool → Cmd W (ℤ × ℕ)
  pub vop_open : ℕ → ℕ → Cmd W ℤ
  pub vop_close : ℕ → Cmd W ℤ
  pub vop_reclaim : ℕ → Cmd W ℤ
  pub vop_truncate : ℕ → ℕ → Cmd W ℤ
  pub vop_read : ℕ → Iobuf → Cmd W (ℤ × Iobuf)
  pub vop_write : ℕ → Iobuf → Cmd W (ℤ × Iobuf)
  pub vop_fstat : ℕ → Cmd W (ℤ × ℕ)
  pub vop_tryseek : ℕ → ℤ → Cmd W ℤ
  pub vop_fsync : ℕ → Cmd W ℤ
  pub vop_getdirentry : ℕ → Iobuf → Cmd W (ℤ × Iobuf)
