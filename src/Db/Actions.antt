-- ===== src/Db/Actions.antt =====
-- api/src/errors.ts, and calls that change a state and may throw. What a call has written before it
-- throws stays written.
use protocol_monorepo.Common.{ℕ, String, Bool, true, false, Option, none, some, Result, ok, err}

-- What is thrown: an `AppError`, another `Error`, or another value.
pub data Failure : Type 0 where
  app_error : (message : String) (status : ℕ) → Failure
  other_error : (message : String) → Failure
  other_value : Failure

-- A violated index of the database.
abbrev pub unique_violation : Failure
unique_violation = other_error "UNIQUE constraint failed"

abbrev pub Action : Type 0 → Type 0 → Type 0
Action S A = S → S × Result Failure A

module _ {S A : Type 0} where
  abbrev pub pure : A → Action S A
  pure a s = (s, ok a)

  abbrev pub throw : Failure → Action S A
  throw e s = (s, err e)

  -- What is read or computed without writing.
  abbrev pub lift : Result Failure A → Action S A
  lift r s = (s, r)

  abbrev pub gets : (S → A) → Action S A
  gets f s = (s, ok (f s))

module _ {S A B : Type 0} where
  abbrev pub continue_with : (A → Action S B) → S × Result Failure A → S × Result Failure B
  continue_with next (s, ok a) = next a s
  continue_with next (s, err e) = (s, err e)

  infixl 5 ◌>>=◌
  abbrev pub ◌>>=◌ : Action S A → (A → Action S B) → Action S B
  (step >>= next) s = continue_with next (step s)

module _ {S B : Type 0} where
  infixl 5 ◌>>◌
  abbrev pub ◌>>◌ : Action S (Unit {0}) → Action S B → Action S B
  step >> rest = step >>= λ _. rest

module _ {S : Type 0} where
  -- `if (b) throw e`
  abbrev pub throw_if : Bool → Failure → Action S (Unit {0})
  throw_if true e s = (s, err e)
  throw_if false e s = (s, ok tt)

module _ {S A : Type 0} where
  abbrev pub require : Option A → Failure → Action S A
  require none e s = (s, err e)
  require (some a) e s = (s, ok a)

  -- `try { step } catch (e) { handle(e) }`
  abbrev pub handled : (Failure → Action S A) → S × Result Failure A → S × Result Failure A
  handled handle (s, ok a) = (s, ok a)
  handled handle (s, err e) = handle e s

  abbrev pub try_catch : Action S A → (Failure → Action S A) → Action S A
  try_catch step handle s = handled handle (step s)
