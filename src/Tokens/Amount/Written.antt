-- ===== src/Tokens/Amount/Written.antt =====
-- What the pattern of an amount accepts, and how such a text splits at its dot.
use protocol_monorepo.Common.{
  ℕ, ◌≡◌, ◌≢◌, ◌↔◌, refl, ap, true, false, Option, none, some, List, [], ◌∷◌, ◌++◌, arith, All,
  All-append, ◌==◌, Bool-cases, inl, inr,
}
use protocol_monorepo.Common.Text.{Text}
use protocol_monorepo.Common.Decimal.{split_dot, is_space}
use protocol_monorepo.Common.Decimal.Value.{IsDigit, HasNoSpace, HasNoSpace-digits}
use protocol_monorepo.Tokens.Amount.{is_amount, rest_matches, digits_only, is_digit}

abbrev pub IsDigits : Text → Type 0
IsDigits s = (s ≢ []) × All IsDigit s

-- An amount: digits, and perhaps a dot with more digits.
abbrev pub Parts : Text → Option Text → Type 0
Parts w none = IsDigits w
Parts w (some f) = IsDigits w × IsDigits f

abbrev pub written : Text → Option Text → Text
written w none = w
written w (some f) = w ++ b'.' ∷ f

digits_only_iff : (s : Text) → (digits_only s ≡ true) ↔ All IsDigit s
unfolding digits_only is_digit
digits_only_iff [] = grind arith
digits_only_iff (c ∷ s) = ground (arith, digits_only_iff s)

no_dot : (c : ℕ) → IsDigit c → (c == b'.') ≡ false
no_dot c h = ground arith

split_dot_digits : (w : Text) → All IsDigit w → split_dot w ≡ (w, [])
unfolding split_dot
split_dot_digits [] h = refl
split_dot_digits (c ∷ s) (hc, hs) = rw (no_dot c hc, split_dot_digits s hs)

split_dot_dotted :
    (w f : Text) → All IsDigit w → All IsDigit f → split_dot (w ++ b'.' ∷ f) ≡ (w, f ∷ [])
unfolding split_dot
split_dot_dotted [] f h k = rw (split_dot_digits f k)
split_dot_dotted (c ∷ s) f (hc, hs) k = rw (no_dot c hc, split_dot_dotted s f hs k)

abbrev pub fractions : Option Text → List Text
fractions none = []
fractions (some f) = f ∷ []

pub split_dot-written :
    (w : Text) (f : Option Text) → Parts w f → split_dot (written w f) ≡ (w, fractions f)
split_dot-written w none h = split_dot_digits w h.1
split_dot-written w (some f) (h, k) = split_dot_dotted w f h.1 k.1

pub written-HasNoSpace : (w : Text) (f : Option Text) → Parts w f → HasNoSpace (written w f)
unfolding is_space
written-HasNoSpace w none h = HasNoSpace-digits w h.1
written-HasNoSpace w (some f) (h, k) =
    All-append _ w (b'.' ∷ f) (HasNoSpace-digits w h.1) (refl, HasNoSpace-digits f k.1)

-- What may stand behind a first digit.
abbrev Rest : Text → Option Text → Type 0
Rest w none = All IsDigit w
Rest w (some f) = All IsDigit w × IsDigits f

fraction_iff : (f : Text) → (rest_matches (b'.' ∷ f) ≡ true) ↔ IsDigits f
unfolding rest_matches is_digit
fraction_iff [] = grind arith
fraction_iff (c ∷ f) =
    ((λ h. ((cc), ground (arith, digits_only_iff f))), λ h. ground (arith, digits_only_iff f))

rest_matches-written : (w : Text) (f : Option Text) → Rest w f → rest_matches (written w f) ≡ true
unfolding rest_matches is_digit
rest_matches-written [] none h = refl
rest_matches-written [] (some f) h = (fraction_iff f).1 h.1
rest_matches-written (c ∷ w) none (hc, hw) = ground (arith, rest_matches-written w none hw)
rest_matches-written (c ∷ w) (some f) ((hc, hw), hf) =
    ground (arith, rest_matches-written w (some f) (hw, hf))

Rest-longer :
    (c : ℕ) (s : Text)
    → IsDigit c
    → ((w : Text) × (f : Option Text) × Rest w f × (s ≡ written w f))
    → (w : Text) × (f : Option Text) × Rest w f × (c ∷ s ≡ written w f)
Rest-longer c s hc (w, none, h, e) = (c ∷ w, none, (hc, h), ap (◌∷◌ c) e)
Rest-longer c s hc (w, some f, (h, k), e) = (c ∷ w, some f, ((hc, h), k), ap (◌∷◌ c) e)

rest_matches_parts :
    (s : Text)
    → rest_matches s ≡ true
    → (w : Text) × (f : Option Text) × Rest w f × (s ≡ written w f)
unfolding rest_matches is_digit
rest_matches_parts [] h = ([], none, tt, refl)
rest_matches_parts (c ∷ s) h = elim (Bool-cases (c == b'.')) [
  | inl dot ↦ ([], some s, (tt, (fraction_iff s).0 (ground arith)), ground arith)
  | inr other ↦ Rest-longer c s (ground arith) (rest_matches_parts s (ground arith))
]

Parts-of_Rest :
    (c : ℕ) (s : Text)
    → IsDigit c
    → ((w : Text) × (f : Option Text) × Rest w f × (s ≡ written w f))
    → (w : Text) × (f : Option Text) × Parts w f × (c ∷ s ≡ written w f)
Parts-of_Rest c s hc (w, none, h, e) = (c ∷ w, none, ((cc), (hc, h)), ap (◌∷◌ c) e)
Parts-of_Rest c s hc (w, some f, (h, k), e) = (c ∷ w, some f, (((cc), (hc, h)), k), ap (◌∷◌ c) e)

is_amount-written : (w : Text) (f : Option Text) → Parts w f → is_amount (written w f) ≡ true
unfolding is_amount
is_amount-written [] none h = absurd (h.0 refl)
is_amount-written [] (some f) h = absurd (h.0.0 refl)
is_amount-written (c ∷ w) none h = ground (arith, rest_matches-written w none h.1.1)
is_amount-written (c ∷ w) (some f) h =
    ground (arith, rest_matches-written w (some f) (h.0.1.1, h.1))

is_amount-Parts :
    (s : Text) → is_amount s ≡ true → (w : Text) × (f : Option Text) × Parts w f × (s ≡ written w f)
unfolding is_amount is_digit
is_amount-Parts [] h = cc
is_amount-Parts (c ∷ s) h = Parts-of_Rest c s (ground arith) (rest_matches_parts s (ground arith))

-- The pattern accepts exactly the written amounts.
pub is_amount_iff :
    (s : Text)
    → (is_amount s ≡ true) ↔ ((w : Text) × (f : Option Text) × Parts w f × (s ≡ written w f))
is_amount_iff s = (is_amount-Parts s, λ h. rw h.3 (is_amount-written h.0 h.1 h.2))
