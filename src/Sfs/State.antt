-- ===== src/Sfs/State.antt =====
-- kern/fs/sfs/sfs.h: the file system in memory, its disk, and inodes. The locks are left out: each
-- operation runs on its own.
use ucoreonrv.Prelude.{
  ℕ, ◌+◌, ◌*◌, ◌/◌, ◌%◌, Bool, true, false, ◌&&◌, ◌==◌, if◌then◌else◌, ltb, leb, ◌-◌,
}
use ucoreonrv.Prelude.Int.{ℤ}
use ucoreonrv.Prelude.Errors.{Run, fault, done}
use ucoreonrv.Strings.{Memory}
use ucoreonrv.Bitmaps.{Bitmap}

abbrev pub blksize : ℕ
blksize = 4096

abbrev pub ndirect : ℕ
ndirect = 12

-- SFS_BLK_NENTRY, the entries of four bytes of a block.
abbrev pub blk_nentry : ℕ
blk_nentry = 1024

abbrev pub max_file_size : ℕ
max_file_size = 1024 * 1024 * 128

-- The bytes of a block.
abbrev pub Block : Type 0
Block = ℕ → ℕ

-- `struct sfs_fs` with its superblock. `disk` is what the device holds, `codes` are the codes that
-- its next calls of `dop_io` will return, and `mem` is the memory that buffers lie in.
pub record SfsFs : Type 0 where
  pub blocks : ℕ
  pub unused_blocks : ℕ
  pub super_dirty : Bool
  pub freemap : Bitmap
  pub sfs_buffer : Block
  pub disk : ℕ → Block
  pub codes : ℕ → ℤ
  pub mem : Memory

pub data SfsType : Type 0 where
  type_inval type_file type_dir type_link : SfsType

pub record SfsDiskInode : Type 0 where
  pub size : ℕ
  pub type : SfsType
  pub nlinks : ℕ
  pub blocks : ℕ
  pub direct : ℕ → ℕ
  pub indirect : ℕ

-- `struct sfs_inode` with the inode that `din` points to.
pub record SfsInode : Type 0 where
  pub din : SfsDiskInode
  pub ino : ℕ
  pub dirty : Bool
  pub reclaim_count : ℤ

abbrev pub Cmd : Type 0 → Type 0
Cmd A = SfsFs → Run (A × SfsFs)

infixl 5 ◌>>=◌ ◌>>◌
abbrev pub ◌>>=◌ : {A B : Type 0} → Cmd A → (A → Cmd B) → Cmd B
◌>>=◌ m f s = elim (m s) [ fault ↦ fault | done (a, s') ↦ f a s' ]

abbrev pub ◌>>◌ : {B : Type 0} → Cmd (Unit {0}) → Cmd B → Cmd B
◌>>◌ m k s = elim (m s) [ fault ↦ fault | done (_, s') ↦ k s' ]

abbrev pub pure : {A : Type 0} → A → Cmd A
pure a s = done (a, s)

abbrev pub assert : Bool → Cmd (Unit {0})
assert true s = done (tt, s)
assert false s = fault

abbrev pub gets : {A : Type 0} → (SfsFs → A) → Cmd A
gets f s = done (f s, s)

abbrev pub modify : (SfsFs → SfsFs) → Cmd (Unit {0})
modify f s = done (tt, f s)

-- A run on a part of the state.
abbrev pub lift : {A : Type 0} → (SfsFs → Run A) → Cmd A
lift f s = elim (f s) [ fault ↦ fault | done a ↦ done (a, s) ]

-- A `uint32_t` in the bytes from an offset on, the least byte first.
abbrev pub u32_at : Block → (offset : ℕ) → ℕ
u32_at b o = b o + 256 * b (o + 1) + 65536 * b (o + 2) + 16777216 * b (o + 3)

-- The bytes of a `uint32_t` variable.
abbrev pub u32_bytes : (n : ℕ) → Block
u32_bytes n i =
    if i == 0
    then n % 256
    else if i == 1
    then n / 256 % 256
    else if i == 2
    then n / 65536 % 256
    else n / 16777216 % 256

-- `memcpy` of `len` bytes to an offset of a block.
abbrev pub put_bytes : Block → (offset len : ℕ) → (data_bytes : Block) → Block
put_bytes b o len d i = if leb o i && ltb i (o + len) then d (i - o) else b i
