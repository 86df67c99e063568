-- ===== src/Strategy/Guardrails/Amounts.antt =====
-- How guardrails.ts reads an amount, beside tokens/amount-utils.ts.
use mathlib.Core.List.{append_assoc}
use protocol_monorepo.Common.{
  lt→ltb, leb→le, leb, if◌then◌else◌, ℕ, ◌+◌, ◌-◌, ◌*◌, ◌/◌, ◌^◌, ◌≤◌, ◌<◌, ◌≡◌, refl, sym, subst,
  false, [], ◌∷◌, ◌++◌, ltb, length, Option, none, some, ok, err, All, All-append, Bool-cases, inl,
  inr, arith,
}
use protocol_monorepo.Common.Int.{pos}
use protocol_monorepo.Common.Text.{Text}
use protocol_monorepo.Common.Decimal.{pad_end}
use protocol_monorepo.Common.Decimal.Value.{IsDigit, value, big_int_digits, All-IsDigit_zeros}
use protocol_monorepo.Tokens.Amount.Written.{Parts, written, split_dot-written}
use protocol_monorepo.Tokens.Amount.Floor.{
  fraction_of, atomic_units, second_part-fractions, fraction_digits, scaled_down, short_value,
}
use protocol_monorepo.Strategy.Guardrails.{invalid_usdc_amount, is_empty, parse_usdc_amount}

whole_not_empty : (w : Text) (f : Option Text) → Parts w f → is_empty w ≡ false
whole_not_empty [] none h = absurd (h.0 refl)
whole_not_empty [] (some f) h = absurd (h.0.0 refl)
whole_not_empty (c ∷ w) f h = refl

ltb-false : (a b : ℕ) → b ≤ a → ltb a b ≡ false
ltb-false a b h = ground arith

-- The digits that the guardrail reads spell the atomic units, when none is cut.
joined_digits :
    (w f : Text) (d : ℕ)
    → length f ≤ d
    → value (w ++ pad_end f d) ≡ value (w ++ f) * 10 ^ d / 10 ^ length f
unfolding pad_end
joined_digits w f d h =
    let e : d ≡ d - length f + length f = omega arith in
    rw (← append_assoc, short_value (w ++ f) (d - length f))
      (subst (λ k. value (w ++ f) * 10 ^ (d - length f) ≡ value (w ++ f) * 10 ^ k / 10 ^ length f)
        (sym e) (sym (scaled_down (value (w ++ f)) (d - length f) (length f))))

digits_of : (w f : Text) (d : ℕ) → All IsDigit w → All IsDigit f → All IsDigit (w ++ pad_end f d)
unfolding pad_end
digits_of w f d hw hf =
    All-append IsDigit w _ hw (All-append IsDigit f _ hf (All-IsDigit_zeros (d - length f)))

exact :
    (w : Text) (f : Option Text) (d : ℕ)
    → Parts w f
    → length (fraction_of f) ≤ d
    → parse_usdc_amount (written w f) d ≡ ok (pos (atomic_units w f d))
unfolding parse_usdc_amount atomic_units
exact w f d h short = rw (
  split_dot-written w f h,
  second_part-fractions f,
  whole_not_empty w f h,
  ltb-false d (length (fraction_of f)) short,
  big_int_digits (w ++ pad_end (fraction_of f) d)
      (digits_of w (fraction_of f) d (fraction_digits w f h).0 (fraction_digits w f h).1),
  joined_digits w (fraction_of f) d short,
)

refused :
    (w : Text) (f : Option Text) (d : ℕ)
    → Parts w f
    → d < length (fraction_of f)
    → parse_usdc_amount (written w f) d ≡ err invalid_usdc_amount
unfolding parse_usdc_amount
refused w f d h long = rw (
  split_dot-written w f h,
  second_part-fractions f,
  whole_not_empty w f h,
  lt→ltb d (length (fraction_of f)) long,
)

-- A written amount with at most `decimals` digits behind the dot is read by the guardrails as
-- its exact number of atomic units; one with more digits is refused.
pub parse_usdc_amount-written :
    (w : Text) (f : Option Text) (decimals : ℕ)
    → Parts w f
    → parse_usdc_amount (written w f) decimals ≡ (
        if leb (length (fraction_of f)) decimals
        then ok (pos (atomic_units w f decimals))
        else err invalid_usdc_amount)
parse_usdc_amount-written w f d h = elim (Bool-cases (leb (length (fraction_of f)) d)) [
  | inl short ↦ rw short (exact w f d h (leb→le (length (fraction_of f)) d short))
  | inr long ↦ rw long (refused w f d h (ground (arith, long)))
]
