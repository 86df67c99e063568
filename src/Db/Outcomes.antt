-- ===== src/Db/Outcomes.antt =====
-- What holds of an action's outcome: one thing of the state when it throws, another of the state
-- and the value when it returns.
use protocol_monorepo.Common.{
  Bool, true, false, Option, none, some, Result, ok, err, ◌≡◌, refl, subst,
}
use protocol_monorepo.Db.Actions.{
  Failure, Action, continue_with, lift, throw_if, require, handled, throw, ◌>>◌,
}

module _ {S A : Type 0} (Thrown : S → Type 0) (Returned : A → S → Type 0) where
  abbrev pub Ends : S × Result Failure A → Type 0
  Ends (s, ok a) = Returned a s
  Ends (s, err e) = Thrown s

  pub lift-Ends :
      (r : Result Failure A) (s : S)
      → Thrown s
      → ((a : A) → r ≡ ok a → Returned a s)
      → Ends (lift r s)
  lift-Ends (ok a) s h k = k a refl
  lift-Ends (err e) s h k = h

  pub require-Ends :
      (o : Option A) (e : Failure) (s : S)
      → Thrown s
      → ((a : A) → o ≡ some a → Returned a s)
      → Ends (require o e s)
  require-Ends none e s h k = h
  require-Ends (some a) e s h k = k a refl

module _ {S A B : Type 0} (Thrown : S → Type 0) (Returned : A → S → Type 0)
    (After : B → S → Type 0) where
  -- The rule of a chain of two actions.
  pub >>=-Ends :
      (p : S × Result Failure A) (next : A → Action S B)
      → Ends Thrown Returned p
      → ((a : A) (s : S) → Returned a s → Ends Thrown After (next a s))
      → Ends Thrown After (continue_with next p)
  >>=-Ends (s, ok a) next h k = k a s h
  >>=-Ends (s, err e) next h k = h

module _ {S B : Type 0} (Thrown : S → Type 0) (After : B → S → Type 0) where
  -- The rule of a guard.
  pub throw_if-Ends :
      (b : Bool) (e : Failure) (rest : Action S B) (s : S)
      → Thrown s
      → (b ≡ false → Ends Thrown After (rest s))
      → Ends Thrown After ((throw_if b e >> rest) s)
  throw_if-Ends true e rest s h k = h
  throw_if-Ends false e rest s h k = k refl

module _ {S A : Type 0} (Q : S → Type 0) where
  -- Without the value.
  pub Ends-state : (p : S × Result Failure A) → Ends Q (λ (_ : A). Q) p → Q p.0
  Ends-state (s, ok a) h = h
  Ends-state (s, err e) h = h

module _ {S A B : Type 0} (Thrown : S → Type 0) (After : B → S → Type 0) where
  -- The rules of a chain that begins with a value that is computed, or that must be there.
  pub lift_then-Ends :
      (r : Result Failure A) (next : A → Action S B) (s : S)
      → Thrown s
      → ((a : A) → r ≡ ok a → Ends Thrown After (next a s))
      → Ends Thrown After (continue_with next (lift r s))
  lift_then-Ends (ok a) next s h k = k a refl
  lift_then-Ends (err e) next s h k = h

  pub require_then-Ends :
      (o : Option A) (e : Failure) (next : A → Action S B) (s : S)
      → Thrown s
      → ((a : A) → o ≡ some a → Ends Thrown After (next a s))
      → Ends Thrown After (continue_with next (require o e s))
  require_then-Ends none e next s h k = h
  require_then-Ends (some a) e next s h k = k a refl

module _ {S A : Type 0} (Thrown Thrown' : S → Type 0) (Returned Returned' : A → S → Type 0)
    (thrown : (s : S) → Thrown s → Thrown' s)
    (returned : (a : A) (s : S) → Returned a s → Returned' a s) where
  pub Ends-weaken : (p : S × Result Failure A) → Ends Thrown Returned p → Ends Thrown' Returned' p
  Ends-weaken (s, ok a) h = returned a s h
  Ends-weaken (s, err e) h = thrown s h

module _ {S A : Type 0} (Thrown : S → Type 0) (Returned : A → S → Type 0) where
  -- The rule of a `catch` block that only throws.
  pub handled-Ends :
      (f : Failure → Failure) (p : S × Result Failure A)
      → Ends Thrown Returned p
      → Ends Thrown Returned (handled (λ e. throw (f e)) p)
  handled-Ends f (s, ok a) h = h
  handled-Ends f (s, err e) h = h

  -- What holds of an outcome that is known to return.
  pub Ends-ok :
      (p : S × Result Failure A) (s : S) (a : A)
      → p ≡ (s, ok a)
      → Ends Thrown Returned p
      → Returned a s
  Ends-ok p s a e h = subst (Ends Thrown Returned) e h

-- Nothing is said of the state.
abbrev pub Always : {S : Type 0} → S → Type 0
Always s = Unit {0}

module _ {S A : Type 0} where
  pub any-Ends : (p : S × Result Failure A) → Ends Always (λ (_ : A). Always) p
  any-Ends (s, ok a) = tt
  any-Ends (s, err e) = tt
