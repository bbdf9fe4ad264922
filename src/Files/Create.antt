-- ===== src/Files/Create.antt =====
-- kern/fs/vfs/vfsfile.c: what `vfs_open` does with O_CREAT.
use ucoreonrv.Prelude.{ℕ, ◌+◌, ◌≡◌, ◌≢◌, true, false, List, arith}
use ucoreonrv.Prelude.Int.{pos}
use ucoreonrv.Prelude.Errors.{done}
use ucoreonrv.Files.State.{FsState, FsOps, op_open, op_truncate}
use ucoreonrv.Files.Inode.{Callable, vop_op_lem, inode_open_inc}
use ucoreonrv.Files.LetGo.{with_inode}
use ucoreonrv.Files.Open.{access, o_creat, o_excl, o_trunc, vfs_open}

module _ {W : Type 0} (ops : FsOps W) (path : List ℕ) (flags : ℕ) (creat : o_creat flags ≡ true)
    (mode : access flags ≢ 3) (whole : o_trunc flags ≡ false) (s s₁ s₂ s₃ : FsState W) where
  -- The inode has one more opener.
  abbrev opened_in : FsState W → ℕ → FsState W
  opened_in s n = record s {
    inodes =
        with_inode s.inodes n (record (s.inodes n) { open_count = (s.inodes n).open_count + 1 });
  }

  -- A file that exists is cut to length 0 by O_CREAT without O_TRUNC or O_EXCL.
  vfs_open-truncates :
      (n : ℕ)
      → o_excl flags ≡ false
      → ops.vfs_lookup path s ≡ done ((pos 0, n), s₁)
      → Callable ops op_open s₁ n
      → ops.vop_open n flags s₁ ≡ done (pos 0, s₂)
      → Callable ops op_truncate (opened_in s₂ n) n
      → ops.vop_truncate n 0 (opened_in s₂ n) ≡ done (pos 0, s₃)
      → vfs_open ops path flags s ≡ done ((pos 0, n), s₃)
  unfolding vfs_open inode_open_inc
  vfs_open-truncates n excl look can opens can' cut = ground (
    arith,
    look,
    can.0,
    vop_op_lem ops op_open s₁ n can,
    opens,
    vop_op_lem ops op_truncate (opened_in s₂ n) n can',
    cut,
  )
