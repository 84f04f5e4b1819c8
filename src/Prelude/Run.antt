-- ===== src/Prelude/Run.antt =====
-- Calls that change a world: a state monad, answers that may be a failure, and the two ways to go
-- on from them.
use Prim.Native.String.{String, ◌++◌}
use mathlib.Core.Bool.{Bool}

abbrev pub Run : Type 0 → Type 0 → Type 0
Run W A = W → W × A

-- A Go error: its text, and whether `apierrors.IsNotFound` holds of it.
pub record Failure : Type 0 where
  pub text : String
  pub is_not_found : Bool

pub data Reply (A : Type 0) : Type 0 where
  done : A → Reply A
  broke : Failure → Reply A

-- `fmt.Errorf(prefix + "%w", err)`.
abbrev pub wrap : String → Failure → Failure
wrap prefix f = record f { text = prefix ++ f.text }

module _ {W : Type 0} where
  abbrev pub pure : {A : Type 0} → A → Run W A
  pure a w = (w, a)

  infixl 5 ◌>>=◌
  abbrev pub ◌>>=◌ : {A B : Type 0} → Run W A → (A → Run W B) → Run W B
  ◌>>=◌ m f w = let (w', a) = m w in f a w'

  abbrev pub go_on : {A B : Type 0} → (Failure → Run W B) → (A → Run W B) → Reply A → Run W B
  go_on handle next (done a) = next a
  go_on handle next (broke f) = handle f

  -- `if err != nil { return handle(err) }`, and what follows.
  abbrev pub on_failure :
      {A B : Type 0} → Run W (Reply A) → (Failure → Run W B) → (A → Run W B) → Run W B
  on_failure m handle next = m >>= go_on handle next
