-- ===== src/Files/Tests.antt =====
-- Runs of the file layer on a table of three entries, over a file system that answers at once.
use ucoreonrv.Prelude.{ℕ, ◌-◌, ◌≡◌, refl, true, false, [], ◌∷◌, arith}
use ucoreonrv.Prelude.Int.{pos}
use ucoreonrv.Prelude.Errors.{done}
use ucoreonrv.Files.State.{fd_none, fd_opened, fd_closed, File, FsState, FsOps, ◌>>=◌, pure}
use ucoreonrv.Files.Calls.{file_close, file_dup, file_write}
use ucoreonrv.Files.Table.{EntriesOk}
use ucoreonrv.Files.Close.{Open, with_entry}
use ucoreonrv.Files.LetGo.{with_inode, released}
use ucoreonrv.Files.Dup.{shared, dup-close}
use ucoreonrv.Files.Transfer.{file_write-closed}

abbrev reading : File
reading = record {
  status = fd_opened;
  readable = true;
  writable = true;
  fd = 1;
  pos = pos 6;
  node = 40;
  open_count = 1;
}

-- The entry once another thread has closed it.
abbrev shut : File
shut = record reading { status = fd_closed }

-- A read copies four bytes; a write finds the file closed by another thread.
abbrev quick : FsOps (Unit {0})
quick = record {
  has_op = λ op n. true;
  vfs_lookup = λ path. pure (pos 0, 40);
  vfs_lookup_parent = λ path. pure (pos 0, 41, path);
  pipe_create_inode = pure 42;
  vop_create = λ dir name excl. pure (pos 0, 43);
  vop_open = λ n flags. pure (pos 0);
  vop_close = λ n. pure (pos 0);
  vop_reclaim = λ n. pure (pos 0);
  vop_truncate = λ n size. pure (pos 0);
  vop_read = λ n iob. pure (pos 0, record iob { io_resid = iob.io_resid - 4 });
  vop_write = λ n iob s. done ((pos 0, record iob { io_resid = 0 }), with_entry s 1 shut);
  vop_fstat = λ n. pure (pos 0, 100);
  vop_tryseek = λ n target. pure (pos 0);
  vop_fsync = λ n. pure (pos 0);
  vop_getdirentry = λ n iob. pure (pos 0, iob);
}

abbrev spare : ℕ → File
spare i = record {
  status = fd_none;
  readable = false;
  writable = false;
  fd = i;
  pos = pos 0;
  node = 0;
  open_count = 0;
}

abbrev demo : FsState (Unit {0})
demo = record {
  fd_array = record reading { fd = 0; open_count = 2 } ∷ reading ∷ spare 2 ∷ [];
  files_count = 1;
  inodes = λ n. record { ref_count = 3; open_count = 2 };
  world = tt;
}

demo-EntriesOk : EntriesOk 0 demo.fd_array
demo-EntriesOk = omega arith

one-Open : Open demo 1 reading
one-Open = record {
  some_files = omega arith;
  in_table = omega arith;
  entry = refl;
  opened = refl;
  own_fd = refl;
}

zero_shared-Open : Open demo 0 (record reading { fd = 0; open_count = 2 })
zero_shared-Open = record {
  some_files = omega arith;
  in_table = omega arith;
  entry = refl;
  opened = refl;
  own_fd = refl;
}

dup-close_example :
    (file_dup (pos 1) (pos 2) >>= λ fd. file_close quick fd) demo
    ≡ done (
      pos 0,
      with_entry demo 2 (record (shared (spare 2) reading) { status = fd_none; open_count = 0 }),
    )
dup-close_example =
    dup-close demo demo-EntriesOk 1 reading one-Open (λ e. absurd (omega arith)) 2 (spare 2)
      (omega arith) refl refl quick (omega arith) (omega arith)

file_write-closed_example :
    file_write quick (pos 1) 1000 10 demo
    ≡ done (
      (pos 0, 10),
      record (with_entry demo 1 (record reading { status = fd_none; open_count = 0 })) {
        inodes = with_inode demo.inodes 40 (released (demo.inodes 40));
      },
    )
file_write-closed_example =
    file_write-closed quick demo 1 reading one-Open 1000 10 (pos 0)
      (record { io_base = 1000; io_offset = pos 6; io_len = 10; io_resid = 0 })
      (with_entry demo 1 shut) shut refl refl (omega arith, refl, omega arith, omega arith) refl
      refl refl (omega arith) (omega arith)
