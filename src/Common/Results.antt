-- ===== src/Common/Results.antt =====
-- A thrown error as a value, with `do`.
use mathlib.Core.Path.{◌≡◌, refl}
use mathlib.Core.Bool.{Bool, true, false}
use mathlib.Core.Logic.{◌⊎◌, inl, inr}
use mathlib.Core.Option.{Option, none, some}

pub data Result {ℓ κ} (E : Type ℓ) (A : Type κ) : Type (ℓ ⊔ κ) where
  ok : A → Result E A
  err : E → Result E A

-- An error skips the rest.
module _ {ℓ κ μ} {E : Type ℓ} {A : Type κ} {B : Type μ} where
  infixl 5 ◌>>=◌
  abbrev pub ◌>>=◌ : Result E A → (A → Result E B) → Result E B
  err e >>= next = err e
  ok a >>= next = next a

module _ {ℓ κ} {E : Type ℓ} {B : Type κ} where
  infixl 5 ◌>>◌
  abbrev pub ◌>>◌ : Result E (Unit {0}) → Result E B → Result E B
  check >> rest = check >>= λ _. rest

-- `if (b) throw e`
abbrev pub fail_if {ℓ} : {E : Type ℓ} → Bool → E → Result E (Unit {0})
fail_if true e = err e
fail_if false e = ok tt

abbrev pub or_fail {ℓ κ} : {E : Type ℓ} {A : Type κ} → Option A → E → Result E A
or_fail none e = err e
or_fail (some a) e = ok a

abbrev pub map_ok {ℓ κ μ} :
    {E : Type ℓ} {A : Type κ} {B : Type μ} → (A → B) → Result E A → Result E B
map_ok f (ok a) = ok (f a)
map_ok f (err e) = err e

module _ {ℓ κ} {E : Type ℓ} {A : Type κ} where
  pub Result-cases : (r : Result E A) → ((a : A) × (r ≡ ok a)) ⊎ ((e : E) × (r ≡ err e))
  Result-cases (ok a) = inl (a, refl)
  Result-cases (err e) = inr (e, refl)

  -- What a chain of two steps that succeeds has gone through.
  pub >>=-eq-ok {μ} :
      {B : Type μ} (step : Result E A) (next : A → Result E B) {last : B}
      → (step >>= next) ≡ ok last
      → (a : A) × (step ≡ ok a) × (next a ≡ ok last)
  >>=-eq-ok (err e) next same = cc
  >>=-eq-ok (ok a) next same = (a, refl, same)

-- What holds of the value of a result, if it has one, and the rules of a chain and of a guard.
abbrev pub Yields {ℓ κ μ} : {E : Type ℓ} {A : Type κ} → (A → Type μ) → Result E A → Type μ
Yields P (ok a) = P a
Yields P (err e) = Unit

module _ {ℓ κ μ ν} {E : Type ℓ} {A : Type κ} {B : Type μ} (P : B → Type ν) where
  pub >>=-Yields :
      (step : Result E A) (next : A → Result E B)
      → ((a : A) → step ≡ ok a → Yields P (next a))
      → Yields P (step >>= next)
  >>=-Yields (ok a) next h = h a refl
  >>=-Yields (err e) next h = tt

module _ {ℓ κ μ} {E : Type ℓ} {B : Type κ} (P : B → Type μ) where
  pub fail_if-Yields :
      (b : Bool) (e : E) (rest : Result E B)
      → (b ≡ false → Yields P rest)
      → Yields P (fail_if b e >> rest)
  fail_if-Yields true e rest h = tt
  fail_if-Yields false e rest h = h refl

module _ {ℓ κ μ} {E : Type ℓ} {A : Type κ} {B : Type μ} where
  -- A chain whose first step is known to succeed.
  pub >>=-ok :
      (step : Result E A) (next : A → Result E B) (a : A) {last : Result E B}
      → step ≡ ok a
      → next a ≡ last
      → (step >>= next) ≡ last
  >>=-ok (ok b) next a same rest = cc
  >>=-ok (err e) next a same rest = cc
