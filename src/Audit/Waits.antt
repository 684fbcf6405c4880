-- ===== src/Audit/Waits.antt =====
-- A call that waits for the outside leaves the run's result alone.
use vaultwatch.Base.{◌≡◌, refl}
use vaultwatch.Base.Exec.{Exc, Result, ok, err, Exec, continue}
use vaultwatch.Base.Exec.Ends.{Ends}
use vaultwatch.Audit.{Run, outside}

module _ {N W A B : Type 0} {Q : B → Run N W → Type 0} {E : Exc → Run N W → Type 0} where
  rewrapped :
      (p : Result A × W) (f : A → Exec (Run N W) B) (s : Run N W)
      → ((e : Exc) (w : W) → p ≡ (err e, w) → E e (record s { world = w }))
      → ((a : A) (w : W) → p ≡ (ok a, w) → Ends Q E (f a (record s { world = w })))
      → Ends Q E (continue f (p.0, record s { world = p.1 }))
  rewrapped (ok a, w) f s h k = k a w refl
  rewrapped (err e, w) f s h k = record { at = h e w refl }

  -- what the call answers, with its equation
  pub after-call :
      (m : Exec W A) (f : A → Exec (Run N W) B) (s : Run N W)
      → ((e : Exc) (w : W) → m s.world ≡ (err e, w) → E e (record s { world = w }))
      → ((a : A) (w : W) → m s.world ≡ (ok a, w) → Ends Q E (f a (record s { world = w })))
      → Ends Q E (continue f (outside m s))
  unfolding outside
  after-call m f s h k = rewrapped (m s.world) f s h k

  -- a pure function that may raise
  pub after-lift :
      (r : Result A) (f : A → Exec (Run N W) B) (s : Run N W)
      → ((e : Exc) → r ≡ err e → E e s)
      → ((a : A) → r ≡ ok a → Ends Q E (f a s))
      → Ends Q E (continue f (r, s))
  after-lift (ok a) f s h k = k a refl
  after-lift (err e) f s h k = record { at = h e refl }
