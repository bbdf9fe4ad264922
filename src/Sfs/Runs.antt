-- ===== src/Sfs/Runs.antt =====
-- kern/fs/sfs: rules for the runs of its operations.
use ucoreonrv.Prelude.{◌≡◌, refl, sym, subst, Bool, true, false, if◌then◌else◌}
use ucoreonrv.Prelude.Errors.{Run, fault, done, Ends}
use ucoreonrv.Sfs.State.{SfsFs, Cmd, ◌>>=◌, ◌>>◌, assert, lift}

pub Ends-then :
    {A B : Type 0} (P : A × SfsFs → Type 0) (Q : B × SfsFs → Type 0) (m : Cmd A) (f : A → Cmd B)
    (s : SfsFs)
    → Ends P (m s)
    → ((a : A) (s' : SfsFs) → P (a, s') → Ends Q (f a s'))
    → Ends Q ((m >>= f) s)
Ends-then P Q m f s h k = go (m s) h
  where
    go :
        (r : Run (_ × SfsFs)) → Ends P r → Ends Q (elim r [ fault ↦ fault | done (a, s') ↦ f a s' ])
    go fault h = h
    go (done (a, s')) h = k a s' h

pub Ends-assert :
    {B : Type 0} (Q : B × SfsFs → Type 0) (b : Bool) (k : Cmd B) (s : SfsFs)
    → b ≡ true
    → Ends Q (k s)
    → Ends Q ((assert b >> k) s)
Ends-assert Q true k s e h = h
Ends-assert Q false k s e h = absurd (cc)

pub Ends-if :
    {B : Type 0} (Q : B × SfsFs → Type 0) (b : Bool) (f g : Cmd B) (s : SfsFs)
    → (b ≡ true → Ends Q (f s))
    → (b ≡ false → Ends Q (g s))
    → Ends Q ((if b then f else g) s)
Ends-if Q true f g s h k = h refl
Ends-if Q false f g s h k = k refl

pub Ends-lift :
    {A B : Type 0} (Q : B × SfsFs → Type 0) (f : SfsFs → Run A) (k : A → Cmd B) (s : SfsFs) (a : A)
    → f s ≡ done a
    → Ends Q (k a s)
    → Ends Q ((lift f >>= k) s)
Ends-lift {A} Q f k s a e h =
    subst (λ r. Ends Q (elim (kept r) [ fault ↦ fault | done (a, s') ↦ k a s' ])) (sym e) h
  where
    kept : Run A → Run (A × SfsFs)
    kept r = elim r [ fault ↦ fault | done a ↦ done (a, s) ]

-- A run whose result is known.
pub Ends-known :
    {A B : Type 0} (Q : B × SfsFs → Type 0) (m : Cmd A) (k : A → Cmd B) (s s' : SfsFs) (a : A)
    → m s ≡ done (a, s')
    → Ends Q (k a s')
    → Ends Q ((m >>= k) s)
Ends-known Q m k s s' a e h =
    subst (λ r. Ends Q (elim r [ fault ↦ fault | done (a, s') ↦ k a s' ])) (sym e) h
