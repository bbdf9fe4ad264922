-- ===== src/Sfs/Transfers.antt =====
-- kern/fs/sfs/sfs_io.c: what the transfers of a part of a block do.
use ucoreonrv.Prelude.{
  ℕ, ◌+◌, ◌^◌, ◌<◌, ◌≤◌, ◌≡◌, ◌∙◌, refl, Bool, true, false, not, ◌&&◌, ◌==◌, if◌then◌else◌, ltb,
  leb, arith,
}
use ucoreonrv.Prelude.Int.{ℤ}
use ucoreonrv.Prelude.Errors.{Ends, Ends-mono}
use ucoreonrv.Files.Open.{is_zero}
use ucoreonrv.Sfs.State.{blksize, Block, SfsFs, put_bytes}
use ucoreonrv.Sfs.Device.{
  dev_block, dop_io, sfs_rwblock_nolock, rw_buffer, sfs_rbuf, sfs_wbuf, clear_loop, sfs_clear_block,
}
use ucoreonrv.Sfs.Runs.{Ends-then, Ends-assert, Ends-if}

-- The block numbers that the code uses, on a disk of at most 2^20 blocks.
abbrev pub Numbered : SfsFs → (n : ℕ) → Type 0
Numbered s n = (0 < n) × (n < s.blocks) × (s.blocks ≤ 2 ^ 20)

-- All but the disk is as it was, and the device's next codes.
abbrev pub Calls : SfsFs → SfsFs → Type 0
Calls s s' =
    (s'.blocks ≡ s.blocks)
    × (s'.unused_blocks ≡ s.unused_blocks)
    × (s'.freemap ≡ s.freemap)
    × (s'.mem ≡ s.mem)

pub dev_block_lem : (n : ℕ) → n < 2 ^ 20 → dev_block n ≡ n
dev_block_lem n l = omega (arith, l)

-- A call for block `n`: the code, the buffer after, and the disk after.
abbrev pub Called : SfsFs → (buf : Block) → (n : ℕ) → (write : Bool) → (ℤ × Block) × SfsFs → Type 0
Called s buf n write ((ret, b), s') =
    Calls s s'
    × ((o : ℕ) → b o ≡ (if is_zero ret && not write then s.disk n o else buf o))
    × ((q o : ℕ) → s'.disk q o ≡ (if is_zero ret && write && q == n then buf o else s.disk q o))
    × (ret ≡ s.codes 0)

dop_io-Called :
    (s : SfsFs) (buf : Block) (n : ℕ) (write : Bool)
    → n < 2 ^ 20
    → Ends (Called s buf n write) (dop_io buf n write s)
unfolding dop_io
dop_io-Called s buf n write l = (
  (refl, refl, refl, refl),
  λ o. ground (arith, dev_block_lem n l),
  λ q o. ground (arith, dev_block_lem n l),
  refl,
)

pub rwblock-Called :
    (s : SfsFs) (buf : Block) (n : ℕ) (write : Bool)
    → Numbered s n
    → Ends (Called s buf n write) (sfs_rwblock_nolock buf n write true s)
unfolding sfs_rwblock_nolock
rwblock-Called s buf n write (nz, l, small) =
    Ends-assert (Called s buf n write) _ (dop_io buf n write) s (ground (arith, nz, l))
      (dop_io-Called s buf n write (omega (arith, l, small)))

abbrev Rw : SfsFs → (n : ℕ) → (write : Bool) → ℤ × SfsFs → Type 0
Rw s n write (ret, s') =
    Calls s s'
    × ((o : ℕ)
        → s'.sfs_buffer o ≡ (if is_zero ret && not write then s.disk n o else s.sfs_buffer o))
    × ((q o : ℕ)
        → s'.disk q o ≡ (if is_zero ret && write && q == n then s.sfs_buffer o else s.disk q o))
    × (ret ≡ s.codes 0)

rw_buffer-Rw :
    (s : SfsFs) (n : ℕ) (write : Bool)
    → Numbered s n
    → Ends (Rw s n write) (rw_buffer n write true s)
unfolding rw_buffer
rw_buffer-Rw s n write k =
    Ends-then (Called s s.sfs_buffer n write) (Rw s n write)
      (sfs_rwblock_nolock s.sfs_buffer n write true) _ s (rwblock-Called s s.sfs_buffer n write k)
      (λ a s' h. h)

-- `len` bytes at an offset lie in a block.
abbrev pub Within : (len o : ℕ) → Type 0
Within len o = (o < blksize) × (o + len ≤ blksize)

abbrev pub Rbuf : SfsFs → (n o : ℕ) → (ℤ × Block) × SfsFs → Type 0
Rbuf s n o ((ret, d), s') =
    Calls s s'
    × ((q j : ℕ) → s'.disk q j ≡ s.disk q j)
    × (is_zero ret ≡ true → (i : ℕ) → d i ≡ s.disk n (o + i))
    × (ret ≡ s.codes 0)

pub sfs_rbuf-Rbuf :
    (s : SfsFs) (len n o : ℕ) → Numbered s n → Within len o → Ends (Rbuf s n o) (sfs_rbuf len n o s)
unfolding sfs_rbuf
sfs_rbuf-Rbuf s len n o k (l, m) =
    Ends-assert (Rbuf s n o) (ltb o blksize && leb (o + len) blksize) _ s (ground (arith, l, m)) (
      Ends-then (Rw s n false) (Rbuf s n o) (rw_buffer n false true) _ s (rw_buffer-Rw s n false k)
        (λ ret s' (c, b, d, r).
          (c, λ q j. ground (arith, d q j), (λ z i. ground (arith, z, b (o + i))), r)))

abbrev pub Wbuf : SfsFs → (d : Block) → (len n o : ℕ) → ℤ × SfsFs → Type 0
Wbuf s d len n o (ret, s') =
    Calls s s'
    × ((q j : ℕ)
        → s'.disk q j
          ≡ (if is_zero ret && q == n then put_bytes (s.disk n) o len d j else s.disk q j))

write_back :
    (s t : SfsFs) (d : Block) (len n o : ℕ)
    → Numbered s n
    → (ret : ℤ) → is_zero ret ≡ true
    → Rw s n false (ret, t)
    → Ends
        (Wbuf s d len n o)
        (rw_buffer n true true (record t { sfs_buffer = put_bytes t.sfs_buffer o len d }))
write_back s t d len n o (nz, l, small) ret z ((e, f, g, h), b, c, _) =
    let u : SfsFs = record t { sfs_buffer = put_bytes t.sfs_buffer o len d } in
    Ends-mono (Rw u n true) (Wbuf s d len n o) (rw_buffer n true true u)
      (rw_buffer-Rw u n true (nz, omega (arith, l, e), omega (arith, small, e)))
      (λ (ret, s') ((e', f', g', h'), b', c', _).
        ((e' ∙ e, f' ∙ f, g' ∙ g, h' ∙ h), λ q j. ground (arith, z, c' q j, c q j, b j)))

pub sfs_wbuf-Wbuf :
    (s : SfsFs) (d : Block) (len n o : ℕ)
    → Numbered s n
    → Within len o
    → Ends (Wbuf s d len n o) (sfs_wbuf d len n o s)
unfolding sfs_wbuf
sfs_wbuf-Wbuf s d len n o k (l, m) =
    Ends-assert (Wbuf s d len n o) (ltb o blksize && leb (o + len) blksize) _ s
      (ground (arith, l, m))
      (Ends-then (Rw s n false) (Wbuf s d len n o) (rw_buffer n false true) _ s
        (rw_buffer-Rw s n false k)
        (λ ret t h.
          Ends-if (Wbuf s d len n o) (is_zero ret) _ _ t (λ z. write_back s t d len n o k ret z h)
            (λ z. (h.0, λ q j. ground (arith, z, h.2 q j)))))

abbrev pub Cleared : SfsFs → (n : ℕ) → ℤ × SfsFs → Type 0
Cleared s n (ret, s') =
    Calls s s' × ((q j : ℕ) → s'.disk q j ≡ (if is_zero ret && q == n then 0 else s.disk q j))

pub sfs_clear_block-Cleared :
    (s : SfsFs) (n : ℕ) → Numbered s n → Ends (Cleared s n) (sfs_clear_block n 1 s)
unfolding sfs_clear_block clear_loop
sfs_clear_block-Cleared s n k =
    let u : SfsFs = record s { sfs_buffer = λ o. 0 } in
    Ends-then (Rw u n true) (Cleared s n) (rw_buffer n true true) _ u (rw_buffer-Rw u n true k)
      (λ ret t h.
        Ends-if (Cleared s n) (is_zero ret) _ _ t (λ z. (h.0, λ q j. ground (arith, z, h.2 q j)))
          (λ z. (h.0, λ q j. ground (arith, z, h.2 q j))))
