-- ===== src/Files/LetGo.antt =====
-- kern/fs/file.c and kern/fs/vfs/inode.c: the last use of an entry lets go of its inode.
use mathlib.Core.Path.{fun_ext}
use ucoreonrv.Prelude.{ℕ, ◌-◌, ◌≤◌, ◌≡◌, arith, get_elem?-set-some, set-set, ◌==◌, if◌then◌else◌}
use ucoreonrv.Prelude.Int.{pos}
use ucoreonrv.Prelude.Errors.{done}
use ucoreonrv.Files.State.{fd_none, fd_closed, File, Inode, FsState, FsOps}
use ucoreonrv.Files.Inode.{inode_open_dec, inode_ref_dec}
use ucoreonrv.Files.Open.{vfs_close}
use ucoreonrv.Files.FdArray.{fd_array_free, fd_array_close}
use ucoreonrv.Files.Calls.{file_close}
use ucoreonrv.Files.Close.{Open, with_entry, fd2file_open}

-- The counters with those of inode `n` replaced.
abbrev pub with_inode : (ℕ → Inode) → ℕ → Inode → ℕ → Inode
with_inode g n v a = if a == n then v else g a

pub with_inode-twice :
    (g : ℕ → Inode) (n : ℕ) (u v : Inode) → with_inode (with_inode g n u) n v ≡ with_inode g n v
with_inode-twice g n u v = fun_ext λ a. ground arith

pub with_inode-same : (g : ℕ → Inode) (n : ℕ) → with_inode g n (g n) ≡ g
with_inode-same g n = fun_ext λ a. ground arith

-- One opener and one reference less.
abbrev pub released : Inode → Inode
released v = record { ref_count = v.ref_count - 1; open_count = v.open_count - 1 }

-- While others have the inode open, `vfs_close` only takes one opener and one reference away.
pub vfs_close-shared :
    {W : Type 0} (ops : FsOps W) (s : FsState W) (n : ℕ)
    → 2 ≤ (s.inodes n).open_count
    → 2 ≤ (s.inodes n).ref_count
    → vfs_close ops n s
      ≡ done (pos 0, record s { inodes = with_inode s.inodes n (released (s.inodes n)) })
unfolding vfs_close inode_open_dec inode_ref_dec
vfs_close-shared ops s n h k = ground (
  arith,
  with_inode-twice s.inodes n
      (record { ref_count = (s.inodes n).ref_count; open_count = (s.inodes n).open_count - 1 })
      (released (s.inodes n)),
)

module _ {W : Type 0} (ops : FsOps W) (s : FsState W) (n : ℕ) (f : File) (o : Open s n f) where
  -- The entry between the last use and the return to the table, and after.
  abbrev closed : File
  closed = record f { status = fd_closed; open_count = 0 }

  abbrev freed : File
  freed = record f { status = fd_none; open_count = 0 }

  free_lem :
      2 ≤ (s.inodes f.node).open_count
      → 2 ≤ (s.inodes f.node).ref_count
      → fd_array_free ops n (with_entry s n closed)
        ≡ done (
          tt,
          record (with_entry s n freed) {
            inodes = with_inode s.inodes f.node (released (s.inodes f.node));
          },
        )
  unfolding fd_array_free
  free_lem h k = ground (
    arith,
    vfs_close-shared ops (with_entry s n closed) f.node h k,
    get_elem?-set-some s.fd_array n closed o.entry,
    set-set s.fd_array n closed freed,
  )

  -- Closing the last use of an open file frees its entry and lets go of the inode: where others
  -- have that open, it has one opener and one reference less, and nothing else changes.
  pub file_close-last :
      f.open_count ≡ 1
      → 2 ≤ (s.inodes f.node).open_count
      → 2 ≤ (s.inodes f.node).ref_count
      → file_close ops (pos n) s
        ≡ done (
          pos 0,
          record (with_entry s n (record f { status = fd_none; open_count = 0 })) {
            inodes = with_inode s.inodes f.node (released (s.inodes f.node));
          },
        )
  unfolding file_close fd_array_close
  file_close-last one h k = ground (arith, fd2file_open s n f o, o.entry, o.opened, free_lem h k)
