-- ===== src/Sfs/FileBytes.antt =====
-- kern/fs/sfs/sfs_inode.c: what `sfs_io_nolock` reads is what the file holds.
use ucoreonrv.Prelude.{
  ℕ, ◌+◌, ◌-◌, ◌*◌, ◌/◌, ◌%◌, ◌<◌, ◌≤◌, ◌≡◌, ap, ◌∙◌, sym, subst, true, false, ◌==◌, if◌then◌else◌,
  ltb, arith,
}
use ucoreonrv.Prelude.Int.{ℤ, pos}
use ucoreonrv.Prelude.Errors.{Ends, Ends-mono}
use ucoreonrv.Files.Open.{is_zero}
use ucoreonrv.Sfs.State.{ndirect, blksize, SfsFs, SfsDiskInode, SfsInode, Cmd}
use ucoreonrv.Sfs.Device.{rw_loop, sfs_rwblock, sfs_rbuf}
use ucoreonrv.Sfs.Bmap.{sfs_bmap_load_nolock}
use ucoreonrv.Sfs.Io.{on_block, buf_op}
use ucoreonrv.Sfs.Runs.{Ends-then, Ends-if}
use ucoreonrv.Sfs.Transfers.{Rbuf, sfs_rbuf-Rbuf}
use ucoreonrv.Sfs.Accounts.{Sound}
use ucoreonrv.Sfs.Allocation.{Sound-same, used_same}
use ucoreonrv.Sfs.Words.{u32_at_same}
use ucoreonrv.Sfs.Mapped.{entry, Mapped}
use ucoreonrv.Sfs.Subs.{Quiet}
use ucoreonrv.Sfs.Entries.{used-Numbered}
use ucoreonrv.Sfs.Finding.{Found, sfs_bmap_load-Found}
use ucoreonrv.Sfs.Reading.{Passes, Passes-trans, Filled, disk_byte, Copied, rw_loop-Copied}

-- The byte of the file at a place.
abbrev pub file_byte : SfsFs → SfsDiskInode → ℕ → ℕ
file_byte s d x = s.disk (entry s d (x / blksize)) (x % blksize)

-- The file's bytes from `x` on.
abbrev pub from : SfsFs → SfsDiskInode → (x : ℕ) → ℕ → ℕ
from s d x i = file_byte s d (x + i)

pub entry_passed : (s t : SfsFs) (d : SfsDiskInode) (i : ℕ) → Passes s t → entry t d i ≡ entry s d i
entry_passed s t d i (_, _, _, k) =
    ap (λ r. if ltb i ndirect then d.direct i else (if d.indirect == 0 then 0 else r))
      (u32_at_same (s.disk d.indirect) (t.disk d.indirect) ((i - ndirect) * 4) ((i - ndirect) * 4)
        (λ j l. k d.indirect ((i - ndirect) * 4 + j)))

pub from_passed :
    (s t : SfsFs) (d : SfsDiskInode) (x i : ℕ) → Passes s t → from t d x i ≡ from s d x i
from_passed s t d x i p =
    p.3 (entry t d ((x + i) / blksize)) ((x + i) % blksize)
    ∙ ap (λ q. s.disk q ((x + i) % blksize)) (entry_passed s t d ((x + i) / blksize) p)

-- `n` bytes of the file from `x` on are in memory, or the code tells.
abbrev pub Part : SfsFs → SfsDiskInode → (buf x n : ℕ) → ℤ × SfsFs → Type 0
Part s d buf x n (ret, t) = Passes s t × (is_zero ret ≡ true → Filled buf n (from s d x) s t)

abbrev pub OnBlock : SfsFs → SfsInode → (buf x n : ℕ) → (ℤ × SfsInode) × SfsFs → Type 0
OnBlock s sin buf x n ((ret, sin'), t) = (sin' ≡ sin) × Part s sin.din buf x n (ret, t)

module _ (s : SfsFs) (sin : SfsInode) (ok : Sound s) (m : Mapped s sin.din) where
  pub on_block-OnBlock :
      (buf x n i : ℕ) (op : ℕ → Cmd ℤ)
      → i < sin.din.blocks
      → ((t : SfsFs) → Quiet s t → Ends (Part s sin.din buf x n) (op (entry s sin.din i) t))
      → Ends (OnBlock s sin buf x n) (on_block sin i op s)
  unfolding on_block
  on_block-OnBlock buf x n i op l h =
      Ends-then (Found s sin i) (OnBlock s sin buf x n) (sfs_bmap_load_nolock sin i) _ s
        (sfs_bmap_load-Found s sin ok m i l)
        (λ (ret, ino, sin') t (e, q, f, _).
          Ends-if (OnBlock s sin buf x n) (is_zero ret) _ _ t
            (λ z.
              Ends-then (Part s sin.din buf x n) (OnBlock s sin buf x n) (op ino) _ t
                (subst (λ k. Ends (Part s sin.din buf x n) (op k t)) (sym (f z)) (h t q))
                (λ ret' u p. (e, p)))
            (λ z. (e, ((q.0.0, q.0.1, q.0.2, q.1), λ g. absurd (ground (arith, g, z))))))

  -- A part of a block.
  pub piece :
      (buf i o n : ℕ)
      → i < sin.din.blocks
      → o < blksize
      → o + n ≤ blksize
      → (t : SfsFs) → Quiet s t
      → Ends (Part s sin.din buf (i * blksize + o) n) (buf_op false buf n (entry s sin.din i) o t)
  unfolding buf_op
  piece buf i o n l lo hi t ((b, c, f, k), d) =
      let ino = entry s sin.din i in
      Ends-then (Rbuf t ino o) (Part s sin.din buf (i * blksize + o) n) (sfs_rbuf n ino o) _ t
        (sfs_rbuf-Rbuf t n ino o
          (used-Numbered t ino (Sound-same s t ok b c f) (used_same s t ino b f ∙ m.held i l))
          (lo, hi))
        (λ (ret, e) u ((b', c', f', k'), d', h, _). (
          (b' ∙ b, c' ∙ c, f' ∙ f, (λ q j. d' q j ∙ d q j)),
          (λ z a. ground (
            arith,
            z,
            ap (λ g. g a) k,
            ap (λ g. g a) k',
            h z (a - buf),
            d ino (o + (a - buf)),
            same (a - buf),
          )),
        ))
    where
      same :
          (j : ℕ) → j < n → from s sin.din (i * blksize + o) j ≡ s.disk (entry s sin.din i) (o + j)
      same j g =
          ap (λ q. s.disk (entry s sin.din q) ((i * blksize + o + j) % blksize))
            (let r : (i * blksize + o + j) / blksize ≡ i = omega (arith, g, hi) in r)
          ∙ ap (s.disk (entry s sin.din i))
              (let r : (i * blksize + o + j) % blksize ≡ o + j = omega (arith, g, hi) in r)

  -- Whole blocks, one behind another on the disk.
  pub whole :
      (buf i n : ℕ)
      → i + n ≤ sin.din.blocks
      → 0 < n
      → ((j : ℕ) → j < n → entry s sin.din (i + j) ≡ entry s sin.din i + j)
      → (t : SfsFs) → Quiet s t
      → Ends
          (Part s sin.din buf (i * blksize) (n * blksize))
          (sfs_rwblock buf (entry s sin.din i) n false t)
  unfolding sfs_rwblock
  whole buf i n l nz row t ((b, c, f, k), d) =
      let ino = entry s sin.din i in
      Ends-mono (Copied t buf ino n) (Part s sin.din buf (i * blksize) (n * blksize))
        (rw_loop (pos 0) n buf ino false t)
        (rw_loop-Copied n t (pos 0) buf ino first (ground (arith, last, b))
          (omega (arith, b, ok.small)))
        (λ (ret, u) (p, h). (
          Passes-trans s t u (b, c, f, d) p,
          (λ z a. ground (arith, h z a, ap (λ g. g a) k, same (a - buf))),
        ))
    where
      first : 0 < entry s sin.din i
      first = ground (arith, m.held i (omega (arith, l, nz)))

      last : entry s sin.din i + n ≤ s.blocks
      last =
          ground
            (arith, row (n - 1) (omega (arith, nz)), m.held (i + (n - 1)) (omega (arith, l, nz)))

      same :
          (x : ℕ)
          → x < n * blksize
          → disk_byte t (entry s sin.din i) x ≡ from s sin.din (i * blksize) x
      same x g =
          d (entry s sin.din i + x / blksize) (x % blksize)
          ∙ ap (λ q. s.disk q (x % blksize)) (sym (row (x / blksize) (omega (arith, g))))
          ∙ ap (λ q. s.disk (entry s sin.din q) (x % blksize))
              (let r : i + x / blksize ≡ (i * blksize + x) / blksize = omega arith in r)
          ∙ ap (s.disk (entry s sin.din ((i * blksize + x) / blksize)))
              (let r : x % blksize ≡ (i * blksize + x) % blksize = omega arith in r)
