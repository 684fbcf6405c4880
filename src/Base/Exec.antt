-- ===== src/Base/Exec.antt =====
-- Statements that change a state and may raise. What was written before a raise stays written, so
-- the state comes back beside the exception too.
pub mod Ends
pub mod Results
use Prim.Native.Nat.{ℕ}
use Prim.Native.String.{String}
use mathlib.Core.Bool.{Bool, true, false}
use vaultwatch.Base.Tests.{if◌then◌else◌}

-- The exceptions that the handlers tell apart. `http_error` is `httpx.HTTPError`, `http_exception`
-- is FastAPI's with its status; pydantic's `ValidationError` and JSON's decoding error are
-- `ValueError`s. `cancelled` is no `Exception`: `except Exception` lets it through.
pub data Exc : Type 0 where
  value_error runtime_error http_error : String → Exc
  http_exception : ℕ → String → Exc
  other_exception : String → Exc
  cancelled : Exc

-- `isinstance(e, Exception)`
abbrev pub is_exception : Exc → Bool
is_exception cancelled = false
is_exception (value_error _) = true
is_exception (runtime_error _) = true
is_exception (http_error _) = true
is_exception (http_exception _ _) = true
is_exception (other_exception _) = true

pub data Result (A : Type 0) : Type 0 where
  ok : A → Result A
  err : Exc → Result A

abbrev pub Exec : Type 0 → Type 0 → Type 0
Exec S A = S → Result A × S

module _ {S A : Type 0} where
  abbrev pub pure : A → Exec S A
  pure a s = (ok a, s)

  abbrev pub raise : Exc → Exec S A
  raise e s = (err e, s)

  -- a pure function that may raise
  abbrev pub lift : Result A → Exec S A
  lift r s = (r, s)

  abbrev pub gets : (S → A) → Exec S A
  gets f s = (ok (f s), s)

  -- `try: m  except Exception: handler`
  abbrev pub caught : (Exc → Exec S A) → Result A × S → Result A × S
  caught handler (ok a, s) = (ok a, s)
  caught handler (err e, s) = if is_exception e then handler e s else (err e, s)

  abbrev pub try_except : Exec S A → (Exc → Exec S A) → Exec S A
  try_except m handler s = caught handler (m s)

abbrev pub modify : {S : Type 0} → (S → S) → Exec S Unit
modify f s = (ok tt, f s)

module _ {S A B : Type 0} where
  abbrev pub continue : (A → Exec S B) → Result A × S → Result B × S
  continue f (ok a, s) = f a s
  continue f (err e, s) = (err e, s)

  infixl 5 ◌>>=◌ ◌>>◌
  abbrev pub ◌>>=◌ : Exec S A → (A → Exec S B) → Exec S B
  ◌>>=◌ m f s = continue f (m s)

  abbrev pub ◌>>◌ : Exec S A → Exec S B → Exec S B
  m >> n = m >>= λ _. n
