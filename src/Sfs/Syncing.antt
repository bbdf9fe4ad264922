-- ===== src/Sfs/Syncing.antt =====
-- kern/fs/sfs/sfs_inode.c: an inode that is written by `sfs_fsync` and loaded again.
use ucoreonrv.Prelude.{
  ℕ, zero, suc, ◌+◌, ◌-◌, ◌*◌, ◌/◌, ◌%◌, ◌^◌, ◌<◌, ◌≡◌, ◌∙◌, ap, refl, Bool, true, false, not, ◌&&◌,
  ◌==◌, if◌then◌else◌, ◌≤◌, ltb, leb, arith, Option, none, some, List, [], ◌∷◌, subst, sym,
}
use ucoreonrv.Sfs.State.{
  Block, SfsType, type_inval, type_file, type_dir, type_link, SfsFs, SfsDiskInode, SfsInode, u32_at,
  u32_bytes, put_bytes,
}
use ucoreonrv.Prelude.Int.{ℤ}
use ucoreonrv.Prelude.Errors.{Ends}
use ucoreonrv.Files.Open.{is_zero}
use ucoreonrv.Sfs.Device.{sfs_rbuf, sfs_wbuf}
use ucoreonrv.Sfs.Runs.{Ends-then, Ends-assert, Ends-if}
use ucoreonrv.Sfs.Transfers.{Rbuf, sfs_rbuf-Rbuf, Wbuf, sfs_wbuf-Wbuf}
use ucoreonrv.Sfs.Accounts.{Sound, used}
use ucoreonrv.Sfs.Allocation.{Sound-same, used_same, Ends-inuse}
use ucoreonrv.Sfs.Entries.{used-Numbered}
use ucoreonrv.Sfs.Words.{u32_at_same, u32_at-u32_bytes}
use ucoreonrv.Sfs.Inodes.{
  type_code, type_of, inode_bytes, inode_at, Node, is_openable, lookup_sfs_nolock, sfs_create_inode,
  sfs_load_inode, sfs_fsync,
}

-- The fields of an inode fit into their words.
pub record Fits (d : SfsDiskInode) : Type 0 where
  pub size : d.size < 2 ^ 32
  pub nlinks : d.nlinks < 2 ^ 16
  pub blocks : d.blocks < 2 ^ 32
  pub direct : (i : ℕ) → i < 12 → d.direct i < 2 ^ 32
  pub indirect : d.indirect < 2 ^ 32

-- The same inode.
pub record SameInode (d d' : SfsDiskInode) : Type 0 where
  pub size : d'.size ≡ d.size
  pub type : d'.type ≡ d.type
  pub nlinks : d'.nlinks ≡ d.nlinks
  pub blocks : d'.blocks ≡ d.blocks
  pub direct : (i : ℕ) → i < 12 → d'.direct i ≡ d.direct i
  pub indirect : d'.indirect ≡ d.indirect

type_of-type_code : (t : SfsType) → type_of (type_code t) ≡ t
type_of-type_code type_inval = refl
type_of-type_code type_file = refl
type_of-type_code type_dir = refl
type_of-type_code type_link = refl

low_type : (t : SfsType) → type_code t < 4
low_type type_inval = omega arith
low_type type_file = omega arith
low_type type_dir = omega arith
low_type type_link = omega arith

by_four : (P : ℕ → Type 0) → P 0 → P 1 → P 2 → P 3 → (j : ℕ) → j < 4 → P j
by_four P a b c d zero l = a
by_four P a b c d (suc zero) l = b
by_four P a b c d (suc (suc zero)) l = c
by_four P a b c d (suc (suc (suc zero))) l = d
by_four P a b c d (suc (suc (suc (suc n)))) l = absurd (omega (arith, l))

-- The bytes of an inode hold the inode.
pub inode_at-inode_bytes :
    (d : SfsDiskInode) (b : Block)
    → Fits d
    → ((j : ℕ) → j < 64 → b j ≡ inode_bytes d j)
    → SameInode d (inode_at b)
inode_at-inode_bytes d b f h = record {
  size =
      word_at 0 d.size (omega arith) f.size
        (by_four (λ j. inode_bytes d (0 + j) ≡ u32_bytes d.size j) refl refl refl refl);
  type =
      ap type_of (
        let e : b 4 + 256 * b 5 ≡ type_code d.type =
          let p : b 4 ≡ type_code d.type % 256 = h 4 (omega arith) in
          let q : b 5 ≡ type_code d.type / 256 % 256 = h 5 (omega arith) in
          omega (arith, p, q, low_type d.type) in
        e)
      ∙ type_of-type_code d.type;
  nlinks =
      let p : b 6 ≡ d.nlinks % 256 = h 6 (omega arith) in
      let q : b 7 ≡ d.nlinks / 256 % 256 = h 7 (omega arith) in omega (arith, p, q, f.nlinks);
  blocks =
      word_at 8 d.blocks (omega arith) f.blocks
        (by_four (λ j. inode_bytes d (8 + j) ≡ u32_bytes d.blocks j) refl refl refl refl);
  direct = λ i k.
      word_at (12 + i * 4) (d.direct i) (omega (arith, k)) (f.direct i k)
        (λ j l. direct_byte i j k l);
  indirect =
      word_at 60 d.indirect (omega arith) f.indirect
        (by_four (λ j. inode_bytes d (60 + j) ≡ u32_bytes d.indirect j) refl refl refl refl);
}
  where
    word_at :
        (o n : ℕ)
        → o + 4 ≤ 64
        → n < 2 ^ 32
        → ((j : ℕ) → j < 4 → inode_bytes d (o + j) ≡ u32_bytes n j)
        → u32_at b o ≡ n
    word_at o n l small e =
        u32_at_same (u32_bytes n) b 0 o (λ j k.
          h (o + j) (omega (arith, l, k))
          ∙ e j k
          ∙ ap (u32_bytes n) (let q : j ≡ 0 + j = omega arith in q))
        ∙ u32_at-u32_bytes n small

    direct_byte :
        (i j : ℕ) → i < 12 → j < 4 → inode_bytes d (12 + i * 4 + j) ≡ u32_bytes (d.direct i) j
    direct_byte i j k l =
        (let e : inode_bytes d (12 + i * 4 + j)
              ≡ u32_bytes (d.direct ((12 + i * 4 + j - 12) / 4)) ((12 + i * 4 + j - 12) % 4) =
            ground (arith, k, l) in
          e)
        ∙ ap (λ q. u32_bytes (d.direct q) ((12 + i * 4 + j - 12) % 4))
            (let q : (12 + i * 4 + j - 12) / 4 ≡ i = omega (arith, l) in q)
        ∙ ap (u32_bytes (d.direct i))
            (let q : (12 + i * 4 + j - 12) % 4 ≡ j = omega (arith, l) in q)

-- What a load finds: the code is 0 only with a node that has the inode.
abbrev pub LoadedInode : SfsDiskInode → (ino : ℕ) → (ℤ × Option Node × List Node) × SfsFs → Type 0
LoadedInode d ino ((ret, none, ns), t) = is_zero ret ≡ false
LoadedInode d ino ((ret, some n, ns), t) =
    (is_zero ret ≡ true) × (n.sin.ino ≡ ino) × SameInode d n.sin.din × (n.sin.dirty ≡ false)

-- After `sfs_fsync`: the inode is clean, and loading it gives it back; or it still is dirty.
abbrev pub Synced : SfsInode → (din_granted granted : Bool) → (ℤ × SfsInode) × SfsFs → Type 0
Synced sin g g' ((ret, sin'), t) =
    (sin'.dirty ≡ not (is_zero ret))
    × (is_zero ret ≡ true → Ends (LoadedInode sin.din sin.ino) (sfs_load_inode g g' [] sin.ino t))

abbrev Created : SfsDiskInode → (ino : ℕ) → (ℤ × Option Node) × SfsFs → Type 0
Created d ino ((ret, none), t) = is_zero ret ≡ false
Created d ino ((ret, some n), t) =
    (is_zero ret ≡ true) × (n.sin.ino ≡ ino) × (n.sin.din ≡ d) × (n.sin.dirty ≡ false)

sfs_create_inode-Created :
    (s : SfsFs) (g : Bool) (d : SfsDiskInode) (ino : ℕ)
    → is_openable d.type ≡ true
    → Ends (Created d ino) (sfs_create_inode g d ino s)
unfolding sfs_create_inode
sfs_create_inode-Created s g d ino e =
    Ends-if (Created d ino) (not g) _ _ s (λ _. refl)
      (λ _. Ends-assert (Created d ino) (is_openable d.type) _ s e (refl, refl, refl, refl))

load_back :
    (s t : SfsFs) (sin : SfsInode) (g g' : Bool)
    → Sound s
    → used s sin.ino ≡ true
    → Fits sin.din
    → 0 < sin.din.nlinks
    → is_openable sin.din.type ≡ true
    → (ret : ℤ) → is_zero ret ≡ true
    → Wbuf s (inode_bytes sin.din) 64 sin.ino 0 (ret, t)
    → Ends (LoadedInode sin.din sin.ino) (sfs_load_inode g g' [] sin.ino t)
unfolding sfs_load_inode lookup_sfs_nolock
load_back s t sin g g' ok u f live kind ret z ((b, c, e, m), d) =
    let L = LoadedInode sin.din sin.ino in
    let sound : Sound t = Sound-same s t ok b c e in
    let still : used t sin.ino ≡ true = used_same s t sin.ino b e ∙ u in
    Ends-if L (not g) _ _ t (λ _. refl)
      (λ _. Ends-inuse L _ t sin.ino sound still (
        Ends-then (Rbuf t sin.ino 0) L (sfs_rbuf 64 sin.ino 0) _ t
          (sfs_rbuf-Rbuf t 64 sin.ino 0 (used-Numbered t sin.ino sound still)
            (omega arith, omega arith))
          (λ (r, a) v (_, _, h, _).
            Ends-if L (not (is_zero r)) _ _ v (λ w. ground (arith, w))
              (λ w.
                let same = inode_at-inode_bytes sin.din a f (λ j l.
                  h (ground (arith, w)) j
                  ∙ ap (t.disk sin.ino) {x = 0 + j} {y = j} (omega arith)
                  ∙ written j l) in
                Ends-assert L (not ((inode_at a).nlinks == 0)) _ v
                  (ground (arith, same.nlinks, live))
                  (Ends-then (Created (inode_at a) sin.ino) L
                    (sfs_create_inode g' (inode_at a) sin.ino) _ v
                    (sfs_create_inode-Created v g' (inode_at a) sin.ino
                      (ground (arith, ap is_openable same.type, kind)))
                    (λ (r', node) w c. finish (inode_at a) same r' node w c))))))
  where
    finish :
        (d : SfsDiskInode)
        → SameInode sin.din d
        → (r : ℤ) (node : Option Node) (w : SfsFs) → Created d sin.ino ((r, node), w)
        → LoadedInode sin.din sin.ino ((r, node, elim node [ none ↦ [] | some n ↦ n ∷ [] ]), w)
    finish d same r none w c = c
    finish d same r (some n) w (z, i, q, k) = (z, i, subst (SameInode sin.din) (sym q) same, k)

    written : (j : ℕ) → j < 64 → t.disk sin.ino j ≡ inode_bytes sin.din j
    written j l =
        let p : t.disk sin.ino j ≡ put_bytes (s.disk sin.ino) 0 64 (inode_bytes sin.din) j =
          d sin.ino j
          ∙ ap
              (λ b.
                if b && sin.ino == sin.ino
                then put_bytes (s.disk sin.ino) 0 64 (inode_bytes sin.din) j
                else s.disk sin.ino j)
              z
          ∙ ap
              (λ b.
                if b
                then put_bytes (s.disk sin.ino) 0 64 (inode_bytes sin.din) j
                else s.disk sin.ino j)
              (let e : (sin.ino == sin.ino) ≡ true = ground arith in e) in
        let q : put_bytes (s.disk sin.ino) 0 64 (inode_bytes sin.din) j
            ≡ inode_bytes sin.din (j - 0) =
          ap (λ b. if b then inode_bytes sin.din (j - 0) else s.disk sin.ino j)
            (let e : (leb 0 j && ltb j (0 + 64)) ≡ true = ground (arith, l) in e) in
        p ∙ q ∙ ap (inode_bytes sin.din) (let e : j - 0 ≡ j = omega arith in e)

-- If the disk is sound, the block of a dirty inode is in use, the fields of the inode fit into
-- their words, it has a link and is a file or a directory, then `sfs_fsync` fails no assertion
-- and leaves the inode dirty exactly if its code is not 0; and if it is 0, then
-- `sfs_load_inode`, with no inode loaded, ends with a node that has just that inode and is
-- clean, or with a code that is not 0.
pub sfs_fsync-Synced :
    (s : SfsFs) (sin : SfsInode) (din_granted granted : Bool)
    → Sound s
    → used s sin.ino ≡ true
    → Fits sin.din
    → 0 < sin.din.nlinks
    → is_openable sin.din.type ≡ true
    → sin.dirty ≡ true
    → Ends (Synced sin din_granted granted) (sfs_fsync sin s)
unfolding sfs_fsync
sfs_fsync-Synced s sin g g' ok u f live kind dirty =
    Ends-if (Synced sin g g') sin.dirty _ _ s
      (λ _.
        Ends-then (Wbuf s (inode_bytes sin.din) 64 sin.ino 0) (Synced sin g g')
          (sfs_wbuf (inode_bytes sin.din) 64 sin.ino 0) _ s
          (sfs_wbuf-Wbuf s (inode_bytes sin.din) 64 sin.ino 0 (used-Numbered s sin.ino ok u)
            (omega arith, omega arith))
          (λ ret t w. (refl, λ z. load_back s t sin g g' ok u f live kind ret z w)))
      (λ z. absurd (ground (arith, z, dirty)))
