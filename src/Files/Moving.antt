-- ===== src/Files/Moving.antt =====
-- kern/fs/iobuf.c: the data of an I/O buffer, over the memory routines of libs/string.c.
use ucoreonrv.Prelude.{
  ℕ, zero, suc, ◌+◌, ◌-◌, ◌<◌, ◌≡◌, refl, sym, subst, Bool, false, arith, ltb, leb, ◌==◌,
  if◌then◌else◌,
}
use ucoreonrv.Prelude.Int.{ℤ, pos, negsuc, ◌+ℤ◌}
use ucoreonrv.Prelude.Errors.{Run, done, assert, Ends, ◌>>=◌, ◌>>◌, err, e_no_mem}
use ucoreonrv.Strings.{Memory}
use ucoreonrv.Strings.Blocks.{memset, memmove}
use ucoreonrv.Strings.Copying.{inside, memset_lem, memmove_lem}
use ucoreonrv.Files.State.{Iobuf}

unfoldable pub iobuf_skip : Iobuf → ℕ → Run Iobuf
iobuf_skip iob n = do
  assert (leb n iob.io_resid)
  done (record iob {
    io_base = iob.io_base + n;
    io_offset = iob.io_offset +ℤ pos n;
    io_resid = iob.io_resid - n;
  })

-- The bytes that are moved: at most what the buffer still takes.
abbrev pub amount : Iobuf → ℕ → ℕ
amount iob len = if ltb len iob.io_resid then len else iob.io_resid

-- The result has the code, what `*copiedp` receives, the memory and the buffer.
abbrev pub Moved : Type 0
Moved = ℤ × ℕ × Memory × Iobuf

abbrev pub code : (left : ℕ) → ℤ
code left = if left == 0 then pos 0 else err e_no_mem

unfoldable pub iobuf_move : Memory → Iobuf → (data_addr len : ℕ) → (m2b : Bool) → Run Moved
unfolding iobuf_skip
iobuf_move m iob data_addr len m2b = do
  let alen = amount iob len
  let dst = if m2b then iob.io_base else data_addr
  let src = if m2b then data_addr else iob.io_base
  let moved = if ltb 0 alen then memmove m dst src alen else m
  iob' ← if ltb 0 alen then iobuf_skip iob alen else done iob
  done (code (len - alen), alen, moved, iob')

unfoldable pub iobuf_move_zeros : Memory → Iobuf → (len : ℕ) → Run Moved
unfolding iobuf_skip
iobuf_move_zeros m iob len = do
  let alen = amount iob len
  let zeroed = if ltb 0 alen then memset m iob.io_base 0 alen else m
  iob' ← if ltb 0 alen then iobuf_skip iob alen else done iob
  done (code (len - alen), alen, zeroed, iob')

abbrev advanced : Iobuf → ℕ → Iobuf
advanced iob n = record iob {
  io_base = iob.io_base + n;
  io_offset = iob.io_offset +ℤ pos n;
  io_resid = iob.io_resid - n;
}

-- The buffer goes on behind the bytes moved, and the code tells whether all `len` were.
abbrev pub Advances : Iobuf → (len : ℕ) → ℤ → ℕ → Iobuf → Type 0
Advances iob len ret alen iob' =
    (alen ≡ (if ltb len iob.io_resid then len else iob.io_resid))
    × (ret ≡ (if leb len iob.io_resid then pos 0 else err e_no_mem))
    × (iob'.io_base ≡ iob.io_base + alen)
    × (iob'.io_offset ≡ iob.io_offset +ℤ pos alen)
    × (iob'.io_resid + alen ≡ iob.io_resid)
    × (iob'.io_len ≡ iob.io_len)

add_zero : (a : ℤ) → a +ℤ pos 0 ≡ a
unfolding ◌+ℤ◌
add_zero (pos n) = ground arith
add_zero (negsuc n) = ground arith

-- The buffer after the move, which is not touched if nothing is moved.
abbrev behind : Iobuf → ℕ → Iobuf
behind iob n = if ltb 0 n then advanced iob n else iob

behind-Advances :
    (iob : Iobuf) (len : ℕ)
    → Advances iob len (code (len - amount iob len)) (amount iob len) (behind iob (amount iob len))
behind-Advances iob len = (
  refl,
  ground arith,
  ground arith,
  ground (arith, add_zero iob.io_offset),
  ground arith,
  ground arith,
)

skips :
    (iob : Iobuf) (len : ℕ)
    → (if ltb 0 (amount iob len) then iobuf_skip iob (amount iob len) else done iob)
      ≡ done (behind iob (amount iob len))
unfolding iobuf_skip
skips iob len = ground arith

-- What a move between `dst` and `src` does to the memory.
abbrev pub Copies : (dst src n : ℕ) → Memory → Memory → Type 0
Copies dst src n m m' =
    ((i : ℕ) → i < n → m' (dst + i) ≡ m (src + i)) × ((a : ℕ) → inside dst n a ≡ false → m' a ≡ m a)

moved-Copies :
    (m : Memory) (dst src n : ℕ) → Copies dst src n m (if ltb 0 n then memmove m dst src n else m)
moved-Copies m dst src zero = ((λ i l. absurd (omega arith)), λ a h. refl)
moved-Copies m dst src (suc n) =
    subst (Copies dst src (suc n) m) (sym moves) (memmove_lem m dst src (suc n))
  where
    moves : (if ltb 0 (suc n) then memmove m dst src (suc n) else m) ≡ memmove m dst src (suc n)
    moves = ground arith

zeroed :
    (m : Memory) (s n a : ℕ)
    → (if ltb 0 n then memset m s 0 n else m) a ≡ (if inside s n a then 0 else m a)
zeroed m s zero a = ground arith
zeroed m s (suc n) a = ground (arith, memset_lem m s 0 (suc n) a)

-- The rest of both operations, once the memory is changed.
goes_on :
    (iob : Iobuf) (len : ℕ) (m' : Memory) (P : ℕ → Memory → Type 0)
    → P (amount iob len) m'
    → Ends
        (λ (ret, alen, m, iob'). Advances iob len ret alen iob' × P alen m)
        ((if ltb 0 (amount iob len) then iobuf_skip iob (amount iob len) else done iob) >>= λ iob'.
          done (code (len - amount iob len), amount iob len, m', iob'))
goes_on iob len m' P h =
    subst
      (λ k.
        Ends (λ (ret, alen, m, iob'). Advances iob len ret alen iob' × P alen m)
          (k >>= λ iob'. done (code (len - amount iob len), amount iob len, m', iob')))
      (sym (skips iob len)) (behind-Advances iob len, h)

-- `iobuf_move` fails no assertion. It moves as many bytes as are asked for and as the buffer still
-- has room for, between `data_addr` and the buffer in the direction that `m2b` says, and changes no other
-- byte; the buffer goes on behind them, and the code is 0 if all were moved and `-E_NO_MEM` if not.
iobuf_move_lem :
    (m : Memory) (iob : Iobuf) (data_addr len : ℕ) (m2b : Bool)
    → Ends
        (λ (ret, alen, m', iob').
          Advances iob len ret alen iob'
          × Copies
              (if m2b then iob.io_base else data_addr)
              (if m2b then data_addr else iob.io_base)
              alen
              m
              m')
        (iobuf_move m iob data_addr len m2b)
unfolding iobuf_move
iobuf_move_lem m iob data_addr len m2b =
    let dst = if m2b then iob.io_base else data_addr in
    let src = if m2b then data_addr else iob.io_base in
    let n = amount iob len in
    goes_on iob len (if ltb 0 n then memmove m dst src n else m) (λ n. Copies dst src n m)
      (moved-Copies m dst src n)

-- `iobuf_move_zeros` fails no assertion, fills the same part of the buffer with zeros, changes no
-- other byte, and leaves the buffer and the code as `iobuf_move` does.
iobuf_move_zeros_lem :
    (m : Memory) (iob : Iobuf) (len : ℕ)
    → Ends
        (λ (ret, alen, m', iob').
          Advances iob len ret alen iob'
          × ((a : ℕ) → m' a ≡ (if inside iob.io_base alen a then 0 else m a)))
        (iobuf_move_zeros m iob len)
unfolding iobuf_move_zeros
iobuf_move_zeros_lem m iob len =
    let n = amount iob len in
    goes_on iob len (if ltb 0 n then memset m iob.io_base 0 n else m)
      (λ n m'. (a : ℕ) → m' a ≡ (if inside iob.io_base n a then 0 else m a))
      (zeroed m iob.io_base n)
