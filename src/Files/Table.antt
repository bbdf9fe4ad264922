-- ===== src/Files/Table.antt =====
-- kern/fs/file.c: taking an entry of the table of open files.
use ucoreonrv.Prelude.{
  ℕ, zero, suc, ◌+◌, ◌<◌, ◌≡◌, ◌≢◌, ◌⊎◌, inl, inr, refl, subst, true, false, none, some, List, [],
  ◌∷◌, arith, get_elem?, set, Bool-cases, if◌then◌else◌,
}
use ucoreonrv.Prelude.Int.{ℤ, pos, eqb_ℤ→eq}
use ucoreonrv.Prelude.Errors.{done, err, e_inval, e_busy, e_max_open}
use ucoreonrv.Files.State.{
  Status, fd_none, fd_init, fd_opened, fd_closed, File, FsState, files_struct_nentry, no_fd,
}
use ucoreonrv.Files.FdArray.{is_none, at, failed, testfd, first_none, fd_array_alloc}

pub some_inj : {A : Type 0} {a b : A} → some a ≡ some b → a ≡ b
some_inj e = cc

-- An unused entry has no users, and a descriptor or a reader holds every other.
abbrev pub CountOk : Status → ℕ → Type 0
CountOk fd_none n = n ≡ 0
CountOk fd_init n = n ≡ 0
CountOk fd_opened n = 0 < n
CountOk fd_closed n = 0 < n

-- The entries from the `i`-th on know their index, and their counts fit their status.
abbrev pub EntriesOk : ℕ → List File → Type 0
EntriesOk i [] = Unit
EntriesOk i (f ∷ fs) = (f.fd ≡ i) × CountOk f.status f.open_count × EntriesOk (suc i) fs

pub EntriesOk-get :
    (i k : ℕ) (fs : List File) (f : File)
    → EntriesOk i fs
    → get_elem? fs k ≡ some f
    → (f.fd ≡ i + k) × CountOk f.status f.open_count
EntriesOk-get i k [] f ok e = absurd (ground arith)
EntriesOk-get i zero (g ∷ fs) f ok e =
    subst (λ h. (h.fd ≡ i + 0) × CountOk h.status h.open_count) (some_inj e)
      (omega (arith, ok.0), ok.1)
EntriesOk-get i (suc k) (g ∷ fs) f ok e =
    let rest = EntriesOk-get (suc i) k fs f ok.2 e in (omega (arith, rest.0), rest.1)

-- The first unused entry of a table.
pub record IsFirst (fs : List File) (k : ℕ) (f : File) : Type 0 where
  pub found : get_elem? fs k ≡ some f
  pub unused : is_none f.status ≡ true
  pub before : (j : ℕ) (g : File) → j < k → get_elem? fs j ≡ some g → is_none g.status ≡ false

abbrev pub AllUsed : List File → Type 0
AllUsed fs = (j : ℕ) (g : File) → get_elem? fs j ≡ some g → is_none g.status ≡ false

AllUsed-cons :
    (f : File) (fs : List File) → is_none f.status ≡ false → AllUsed fs → AllUsed (f ∷ fs)
AllUsed-cons f fs u a zero g e = subst (λ h. is_none h.status ≡ false) (some_inj e) u
AllUsed-cons f fs u a (suc j) g e = a j g e

IsFirst-here : (f : File) (fs : List File) → is_none f.status ≡ true → IsFirst (f ∷ fs) 0 f
IsFirst-here f fs u = record { found = refl; unused = u; before = λ j g lt e. absurd (omega arith) }

IsFirst-later :
    (f : File) (fs : List File) (k : ℕ) (g : File)
    → is_none f.status ≡ false
    → IsFirst fs k g
    → IsFirst (f ∷ fs) (suc k) g
IsFirst-later f fs k g u a = record { found = a.found; unused = a.unused; before = earlier }
  where
    earlier :
        (j : ℕ) (h : File) → j < suc k → get_elem? (f ∷ fs) j ≡ some h → is_none h.status ≡ false
    earlier zero h lt e = subst (λ v. is_none v.status ≡ false) (some_inj e) u
    earlier (suc j) h lt e = a.before j h (omega arith) e

abbrev pub Search : ℕ → List File → Type 0
Search i fs =
    ((first_none i fs ≡ none) × AllUsed fs)
    ⊎ ((k : ℕ) × (f : File) × (first_none i fs ≡ some (i + k)) × IsFirst fs k f)

-- The search finds the first unused entry, or there is none.
pub first_none_lem : (i : ℕ) (fs : List File) → Search i fs
unfolding first_none
first_none_lem i [] = inl (refl, λ j g e. absurd (ground arith))
first_none_lem i (f ∷ fs) = elim (Bool-cases (is_none f.status)) [
  | inl u ↦ inr (0, f, ground arith, IsFirst-here f fs u)
  | inr u ↦ elim (first_none_lem (suc i) fs) [
    | inl (e, all) ↦ inl (ground (arith, e), AllUsed-cons f fs u all)
    | inr (k, g, e, first) ↦ inr (suc k, g, ground (arith, e), IsFirst-later f fs k g u first)
  ]
]

-- What an entry is once it is taken.
abbrev pub claimed : File → File
claimed f = record f { status = fd_init; node = 0 }

module _ {W : Type 0} (s : FsState W) (some_files : 0 < s.files_count)
    (ok : EntriesOk 0 s.fd_array) where
  unused_count :
      (k : ℕ) (f : File)
      → get_elem? s.fd_array k ≡ some f
      → is_none f.status ≡ true
      → f.open_count ≡ 0
  unused_count k f e u = ground (arith, (EntriesOk-get 0 k s.fd_array f ok e).1)

  -- With `NO_FD`, `fd_array_alloc` takes the lowest unused entry, or answers `-E_MAX_OPEN` with
  -- nothing changed when all are in use.
  fd_array_alloc-lowest :
      ((k : ℕ) × (f : File) × IsFirst s.fd_array k f
        × (fd_array_alloc no_fd s
            ≡ done (at k, record s { fd_array = set s.fd_array k (claimed f) })))
      ⊎ (AllUsed s.fd_array × (fd_array_alloc no_fd s ≡ done (failed (err e_max_open), s)))
  unfolding fd_array_alloc
  fd_array_alloc-lowest = elim (first_none_lem 0 s.fd_array) [
    | inl (e, all) ↦ inr (all, ground (arith, e))
    | inr (k, f, e, first) ↦
        inl (k, f, first, ground (arith, e, first.found, unused_count k f first.found first.unused))
  ]

  -- With a descriptor, `fd_array_alloc` takes just that entry if it is unused.
  pub fd_array_alloc-at :
      (n : ℕ) (f : File)
      → n < files_struct_nentry
      → get_elem? s.fd_array n ≡ some f
      → fd_array_alloc (pos n) s ≡ (
          if is_none f.status
          then done (at n, record s { fd_array = set s.fd_array n (claimed f) })
          else done (failed (err e_busy), s))
  unfolding fd_array_alloc
  fd_array_alloc-at n f lt e = ground (arith, e, unused_count n f e)

  -- A descriptor outside the table is refused.
  pub fd_array_alloc-invalid :
      (fd : ℤ)
      → testfd fd ≡ false
      → fd ≢ no_fd
      → fd_array_alloc fd s ≡ done (failed (err e_inval), s)
  unfolding fd_array_alloc
  fd_array_alloc-invalid fd h ne = ground (arith, eqb_ℤ→eq fd no_fd)
