-- ===== src/Files/Dup.antt =====
-- kern/fs/file.c: duplicating a descriptor.
use ucoreonrv.Prelude.{
  ℕ, ◌+◌, ◌<◌, ◌≤◌, ◌≡◌, ◌≢◌, refl, ap, some, arith, get_elem?, get_elem?-set-some,
  get_elem?-set_ne, set-set,
}
use ucoreonrv.Prelude.Int.{pos}
use ucoreonrv.Prelude.Errors.{done}
use ucoreonrv.Files.State.{
  fd_none, fd_opened, File, Inode, FsState, FsOps, ◌>>=◌, files_struct_nentry,
}
use ucoreonrv.Files.FdArray.{fd_array_dup}
use ucoreonrv.Files.Calls.{file_close, file_dup}
use ucoreonrv.Files.Table.{EntriesOk, EntriesOk-get, claimed, fd_array_alloc-at}
use ucoreonrv.Files.Close.{Open, with_entry, fd2file_open}
use ucoreonrv.Files.LetGo.{with_inode, with_inode-twice, with_inode-same, file_close-last}

-- One opener and one reference more.
abbrev pub retained : Inode → Inode
retained v = record { ref_count = v.ref_count + 1; open_count = v.open_count + 1 }

-- The entry `g` once it shares the file of `f`.
abbrev pub shared : File → File → File
shared g f = record g {
  status = fd_opened;
  pos = f.pos;
  readable = f.readable;
  writable = f.writable;
  node = f.node;
  open_count = 1;
}

module _ {W : Type 0} (s : FsState W) (ok : EntriesOk 0 s.fd_array) (m : ℕ) (f : File)
    (o : Open s m f) (real : f.node ≢ 0) (n : ℕ) (g : File) (small : n < files_struct_nentry)
    (e : get_elem? s.fd_array n ≡ some g) (unused : g.status ≡ fd_none) where
  abbrev duplicated : FsState W
  duplicated = record (with_entry s n (shared g f)) {
    inodes = with_inode s.inodes f.node (retained (s.inodes f.node));
  }

  -- The entry before it is opened.
  abbrev pointed : File
  pointed = record (claimed g) {
    pos = f.pos;
    readable = f.readable;
    writable = f.writable;
    node = f.node;
  }

  apart : n ≢ m
  apart z = ground (arith, e, o.entry, o.opened, ap (get_elem? s.fd_array) z)

  dup_lem : fd_array_dup n m (with_entry s n (claimed g)) ≡ done (tt, duplicated)
  unfolding fd_array_dup
  dup_lem = ground (
    arith,
    get_elem?-set-some s.fd_array n (claimed g) e,
    get_elem?-set_ne s.fd_array n m (claimed g) apart,
    o.entry,
    o.opened,
    real,
    (EntriesOk-get 0 n s.fd_array g ok e).1,
    unused,
    set-set s.fd_array n (claimed g) pointed,
    get_elem?-set-some s.fd_array n pointed e,
    set-set s.fd_array n pointed (shared g f),
    with_inode-twice s.inodes f.node
        (record {
          ref_count = (s.inodes f.node).ref_count + 1;
          open_count = (s.inodes f.node).open_count;
        })
        (retained (s.inodes f.node)),
  )

  -- `file_dup` onto an unused entry opens it on the same inode, at the same position and with the
  -- same rights; the inode has one opener and one reference more, and no other entry changes.
  file_dup-shared :
      file_dup (pos m) (pos n) s
      ≡ done (
        pos n,
        record (with_entry s n (shared g f)) {
          inodes = with_inode s.inodes f.node (retained (s.inodes f.node));
        },
      )
  unfolding file_dup
  file_dup-shared = ground (
    arith,
    fd2file_open s m f o,
    fd_array_alloc-at s o.some_files ok n g small e,
    unused,
    dup_lem,
    get_elem?-set-some s.fd_array n (shared g f) e,
    (EntriesOk-get 0 n s.fd_array g ok e).0,
  )

  copy-Open : Open duplicated n (shared g f)
  copy-Open = record {
    some_files = o.some_files;
    in_table = small;
    entry = get_elem?-set-some s.fd_array n (shared g f) e;
    opened = refl;
    own_fd = ground (arith, (EntriesOk-get 0 n s.fd_array g ok e).0);
  }

  -- Closing the duplicate gives its entry back and leaves the counters of the inode, and all
  -- else, as they were before `file_dup`.
  pub dup-close :
      (ops : FsOps W)
      → 1 ≤ (s.inodes f.node).open_count
      → 1 ≤ (s.inodes f.node).ref_count
      → (file_dup (pos m) (pos n) >>= λ fd. file_close ops fd) s
        ≡ done (pos 0, with_entry s n (record (shared g f) { status = fd_none; open_count = 0 }))
  dup-close ops h k = ground (
    arith,
    file_dup-shared,
    file_close-last ops duplicated n (shared g f) copy-Open refl,
    set-set s.fd_array n (shared g f) (record (shared g f) { status = fd_none; open_count = 0 }),
    with_inode-twice s.inodes f.node (retained (s.inodes f.node)) (s.inodes f.node),
    with_inode-same s.inodes f.node,
  )
