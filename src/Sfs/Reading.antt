-- ===== src/Sfs/Reading.antt =====
-- kern/fs/sfs/sfs_inode.c: what `sfs_io_nolock` reads.
use ucoreonrv.Prelude.{
  ℕ, zero, suc, ◌+◌, ◌-◌, ◌*◌, ◌/◌, ◌%◌, ◌^◌, ◌<◌, ◌≤◌, ◌≡◌, refl, ap, ◌∙◌, subst, true, false,
  if◌then◌else◌, arith,
}
use ucoreonrv.Prelude.Int.{ℤ}
use ucoreonrv.Prelude.Errors.{Ends, Ends-mono}
use ucoreonrv.Files.Open.{is_zero}
use ucoreonrv.Strings.Copying.{inside}
use ucoreonrv.Sfs.State.{blksize, Block, SfsFs, SfsDiskInode, put_bytes}
use ucoreonrv.Sfs.Device.{rw_loop, sfs_rwblock_nolock}
use ucoreonrv.Sfs.Runs.{Ends-then, Ends-if}
use ucoreonrv.Sfs.Transfers.{Called, rwblock-Called}
use ucoreonrv.Sfs.Allocation.{used_same}
use ucoreonrv.Sfs.Mapped.{Mapped}
use ucoreonrv.Sfs.Changing.{kept-Mapped}

-- Only memory changes, and the device's next codes.
abbrev pub Passes : SfsFs → SfsFs → Type 0
Passes s s' =
    (s'.blocks ≡ s.blocks)
    × (s'.unused_blocks ≡ s.unused_blocks)
    × (s'.freemap ≡ s.freemap)
    × ((q j : ℕ) → s'.disk q j ≡ s.disk q j)

pub Passes-trans : (s t u : SfsFs) → Passes s t → Passes t u → Passes s u
Passes-trans s t u (b, c, f, d) (b', c', f', d') = (b' ∙ b, c' ∙ c, f' ∙ f, λ q j. d' q j ∙ d q j)

pub passed-Mapped : (s t : SfsFs) (d : SfsDiskInode) → Mapped s d → Passes s t → Mapped t d
passed-Mapped s t d m (b, c, f, k) =
    let v : SfsFs = record t { mem = s.mem } in
    let n = kept-Mapped s v d m (b, refl, (λ x u. used_same s t x b f ∙ u), (λ x j _ _. k x j)) in
    record {
      bound = n.bound;
      held = n.held;
      beyond = n.beyond;
      apart = n.apart;
      table = n.table;
      table_apart = n.table_apart;
    }

-- The memory holds `n` bytes of `data_bytes` at `buf`, and all else is as it was.
abbrev pub Filled : (buf n : ℕ) → (data_bytes : ℕ → ℕ) → SfsFs → SfsFs → Type 0
Filled buf n d s s' = (a : ℕ) → s'.mem a ≡ (if inside buf n a then d (a - buf) else s.mem a)

pub Filled-join :
    (buf n k : ℕ) (d e : ℕ → ℕ) (s t u : SfsFs)
    → Filled buf n d s t
    → Filled (buf + n) k e t u
    → ((x : ℕ) → x < k → e x ≡ d (n + x))
    → Filled buf (n + k) d s u
Filled-join buf n k d e s t u f g h a =
    ground (arith, f a, g a, h (a - (buf + n)), ap d {x = n + (a - (buf + n))} {y = a - buf})

-- The bytes of the disk from the block `blkno` on.
abbrev pub disk_byte : SfsFs → (blkno : ℕ) → ℕ → ℕ
disk_byte s blkno x = s.disk (blkno + x / blksize) (x % blksize)

abbrev pub Copied : SfsFs → (buf blkno n : ℕ) → ℤ × SfsFs → Type 0
Copied s buf blkno n (ret, s') =
    Passes s s' × (is_zero ret ≡ true → Filled buf (n * blksize) (disk_byte s blkno) s s')

pub rw_loop-Copied :
    (n : ℕ) (s : SfsFs) (ret : ℤ) (buf blkno : ℕ)
    → 0 < blkno
    → blkno + n ≤ s.blocks
    → s.blocks ≤ 2 ^ 20
    → Ends (Copied s buf blkno n) (rw_loop ret n buf blkno false s)
unfolding rw_loop
rw_loop-Copied zero s ret buf blkno nz l small =
    ((refl, refl, refl, λ q j. refl), λ z a. ground arith)
rw_loop-Copied (suc n) s ret buf blkno nz l small =
    let again = rw_loop-Copied n in
    Ends-then (Called s (λ o. s.mem (buf + o)) blkno false) (Copied s buf blkno (suc n))
      (sfs_rwblock_nolock (λ o. s.mem (buf + o)) blkno false true) _ s
      (rwblock-Called s (λ o. s.mem (buf + o)) blkno false (nz, omega (arith, l), small))
      (λ (ret, b) t ((bs, c, f, m), h, d, code).
        let v : SfsFs = record t { mem = put_bytes t.mem buf blksize b } in
        let p : Passes s v = (bs, c, f, (λ q j. ground (arith, d q j))) in
        Ends-if (Copied s buf blkno (suc n)) (is_zero ret) _ _ v
          (λ z.
            Ends-mono (Copied v (buf + blksize) (blkno + 1) n) (Copied s buf blkno (suc n))
              (rw_loop ret n (buf + blksize) (blkno + 1) false v)
              (again v ret (buf + blksize) (blkno + 1) (omega arith) (omega (arith, l, bs))
                (omega (arith, small, bs)))
              (λ (ret', u) (p', g). (
                Passes-trans s v u p p',
                (λ z' a.
                    subst
                      (λ k.
                        u.mem a ≡ (if inside buf k a then disk_byte s blkno (a - buf) else s.mem a))
                      (let r : blksize + n * blksize ≡ suc n * blksize = omega arith in r)
                      (Filled-join buf blksize (n * blksize) (disk_byte s blkno)
                        (disk_byte v (blkno + 1)) s v u
                        (first t ret b ((bs, c, f, m), h, d, code) z) (g z') (λ x _. next v p x)
                        a)),
              )))
          (λ z. (p, λ z'. absurd (ground (arith, z, z')))))
  where
    first :
        (t : SfsFs) (ret : ℤ) (b : Block)
        → Called s (λ o. s.mem (buf + o)) blkno false ((ret, b), t)
        → is_zero ret ≡ true
        → Filled buf blksize
            (disk_byte s blkno)
            s
            (record t { mem = put_bytes t.mem buf blksize b })
    first t ret b ((_, _, _, m), h, d, _) z a = ground (
      arith,
      ap (λ g. g a) m,
      h (a - buf),
      z,
      ap (λ q. s.disk q ((a - buf) % blksize)) {x = blkno + (a - buf) / blksize} {y = blkno},
      ap (s.disk blkno) {x = (a - buf) % blksize} {y = a - buf},
    )

    next :
        (t : SfsFs)
        → Passes s t
        → (x : ℕ) → disk_byte t (blkno + 1) x ≡ disk_byte s blkno (blksize + x)
    next t (_, _, _, d) x =
        d (blkno + 1 + x / blksize) (x % blksize)
        ∙ ap (λ q. s.disk q (x % blksize))
            (let r : blkno + 1 + x / blksize ≡ blkno + (blksize + x) / blksize = omega arith in r)
        ∙ ap (s.disk (blkno + (blksize + x) / blksize))
            (let r : x % blksize ≡ (blksize + x) % blksize = omega arith in r)
