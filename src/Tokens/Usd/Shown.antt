-- ===== src/Tokens/Usd/Shown.antt =====
-- The text of an amount is read back as the amount.
use native.Mathlib.Nat.{div-add-mod', pow-zero, mod-lt, one-le-pow}
use mathlib.Core.List.{append-nil}
use protocol_monorepo.Common.{
  ℕ, zero, suc, ◌+◌, ◌-◌, ◌*◌, ◌/◌, ◌%◌, ◌^◌, ◌≤◌, ◌<◌, ◌≡◌, refl, sym, subst, ap, ◌∙◌, Option,
  none, some, [], ◌∷◌, ◌++◌, ◌==◌, arith, All, All-append, length, length-append, length-replicate,
  ok, replicate, Bool-cases, inl, inr, ==_iff,
}
use protocol_monorepo.Common.Int.{pos}
use protocol_monorepo.Common.Text.{Text}
use protocol_monorepo.Common.Decimal.Print.{
  to_string, to_string-digits, to_string_some, length-to_string, value-to_string,
}
use protocol_monorepo.Common.Decimal.Value.{
  IsDigit, value, value-append, All-IsDigit_zeros, value-zeros,
}
use protocol_monorepo.Tokens.Amount.{parse_human_amount}
use protocol_monorepo.Tokens.Amount.Written.{IsDigits, Parts, written}
use protocol_monorepo.Tokens.Amount.Floor.{
  atomic_units, parse_human_amount-written, short_value, scaled_down, pow-add,
}
use protocol_monorepo.Tokens.Usd.{
  pad_start, drop_last_zero, without_last_zeros, atomic_usdc_to_usd_string,
}

cons-eq : {a b : ℕ} {s t : Text} → a ≡ b → s ≡ t → a ∷ s ≡ b ∷ t
cons-eq e e' = cc

-- The zeros that are taken off.
Cut-last_zero :
    (c : ℕ) (s t : Text) (k : ℕ)
    → All IsDigit s
    → IsDigit c
    → s ≡ t ++ replicate k b'0'
    → All IsDigit t
    → (n : ℕ) × (c ∷ s ≡ drop_last_zero c t ++ replicate n b'0') × All IsDigit (drop_last_zero c t)
Cut-last_zero c s (d ∷ t) k hs hc e ht = (k, ap (◌∷◌ c) e, (hc, ht))
Cut-last_zero c s [] k hs hc e ht = elim (Bool-cases (c == b'0')) [
  | inl z ↦ (suc k, rw z (cons-eq ((==_iff c b'0').0 z) e), rw z tt)
  | inr other ↦ (k, rw other (ap (◌∷◌ c) e), rw other (hc, tt))
]

without_last_zeros_cut :
    (s : Text)
    → All IsDigit s
    → (k : ℕ) × (s ≡ without_last_zeros s ++ replicate k b'0') × All IsDigit (without_last_zeros s)
unfolding without_last_zeros
without_last_zeros_cut [] h = (0, refl, tt)
without_last_zeros_cut (c ∷ s) (hc, hs) =
    let (k, e, ht) = without_last_zeros_cut s hs in
    Cut-last_zero c s (without_last_zeros s) k hs hc e ht

pad_start-value : (s : Text) (d : ℕ) → value (pad_start s d) ≡ value s
unfolding pad_start
pad_start-value s d =
    rw (value-append (replicate (d - length s) b'0') s, value-zeros (d - length s)) (omega arith)

pad_start-IsDigit : (s : Text) (d : ℕ) → All IsDigit s → All IsDigit (pad_start s d)
unfolding pad_start
pad_start-IsDigit s d h =
    All-append IsDigit (replicate (d - length s) b'0') s (All-IsDigit_zeros (d - length s)) h

length-pad_start : (s : Text) (d : ℕ) → length s ≤ d → length (pad_start s d) ≡ d
unfolding pad_start
length-pad_start s d h = omega (
  arith,
  length-append (replicate (d - length s) b'0') s,
  length-replicate {A = ℕ} (d - length s) b'0',
)

-- The digits behind the dot, and the zeros that are left out.
cents_cut :
    (frac d : ℕ)
    → 0 < frac
    → frac < 10 ^ d
    → (f : Text) × (k : ℕ) × (without_last_zeros (pad_start (to_string frac) d) ≡ f)
      × IsDigits f
      × (d ≡ k + length f)
      × (value (f ++ replicate k b'0') ≡ frac)
cents_cut frac zero h less = absurd (omega arith)
cents_cut frac (suc d) h less =
    let padded = pad_start (to_string frac) (suc d) in
    let (k, e, digits) =
      without_last_zeros_cut padded
        (pad_start-IsDigit (to_string frac) (suc d) (to_string-digits frac)) in
    let f = without_last_zeros padded in
    let long : length padded ≡ suc d =
      length-pad_start (to_string frac) (suc d) (length-to_string frac d less) in
    let same : value padded ≡ frac =
      pad_start-value (to_string frac) (suc d) ∙ value-to_string frac in
    let spelled : value (f ++ replicate k b'0') ≡ frac = ap value (sym e) ∙ same in
    let total : length padded ≡ length (f ++ replicate k b'0') = ap length e in
    (
      f,
      k,
      refl,
      (
        (λ empty.
            let nought : 0 ≡ frac =
              sym (value-zeros k)
              ∙ subst (λ t. value (t ++ replicate k b'0') ≡ frac) empty spelled in
            absurd (omega arith)),
        digits,
      ),
      omega (arith, length-append f (replicate k b'0'), length-replicate {A = ℕ} k b'0'),
      spelled,
    )

cents_value :
    (whole frac d : ℕ) (w f : Text) (k : ℕ)
    → value w ≡ whole
    → d ≡ k + length f
    → value (f ++ replicate k b'0') ≡ frac
    → atomic_units w (some f) d ≡ whole * 10 ^ d + frac
unfolding atomic_units
cents_value whole frac d w f k hw hd hf =
    let units : value f * 10 ^ k ≡ frac = sym (short_value f k) ∙ hf in
    rw
      (hd, scaled_down (value (w ++ f)) k (length f), value-append w f, hw, pow-add 10 k (length f))
      (omega arith)

whole_value : (whole d : ℕ) (w : Text) → value w ≡ whole → atomic_units w none d ≡ whole * 10 ^ d
unfolding atomic_units
whole_value whole d w hw = rw (append-nil, hw) (omega (arith, pow-zero))

-- The text begins with a dollar sign, and what stands behind it is a written amount that
-- parseHumanAmount reads as the very same number of atomic units.
pub parse_human_amount-usd :
    (amount decimals : ℕ)
    → (w : Text) × (f : Option Text) × Parts w f
      × (atomic_usdc_to_usd_string amount decimals ≡ b'$' ∷ written w f)
      × (parse_human_amount (written w f) decimals ≡ ok (pos amount))
unfolding atomic_usdc_to_usd_string
parse_human_amount-usd amount decimals = elim (Bool-cases (amount % 10 ^ decimals == 0)) [
  | inl none_left ↦
      let whole = amount / 10 ^ decimals in
      let parts : Parts (to_string whole) none = (to_string_some whole, to_string-digits whole) in
      let remainder = (==_iff (amount % 10 ^ decimals) 0).0 none_left in
      let units : atomic_units (to_string whole) none decimals ≡ amount =
        whole_value whole decimals (to_string whole) (value-to_string whole)
        ∙ omega (arith, div-add-mod' amount (10 ^ decimals)) in
      (
        to_string whole,
        none,
        parts,
        rw none_left refl,
        parse_human_amount-written (to_string whole) none decimals parts
            ∙ ap (λ v. ok (pos v)) units,
      )
  | inr cents ↦
      let whole = amount / 10 ^ decimals in
      let frac = amount % 10 ^ decimals in
      let some_left : 0 < frac = ground arith in
      let (f, k, shown, digits, long, spelled) =
        cents_cut frac decimals some_left (mod-lt amount (one-le-pow decimals 10 (omega arith))) in
      let parts : Parts (to_string whole) (some f) =
        ((to_string_some whole, to_string-digits whole), digits) in
      let units : atomic_units (to_string whole) (some f) decimals ≡ amount =
        cents_value whole frac decimals (to_string whole) f k (value-to_string whole) long spelled
        ∙ div-add-mod' amount (10 ^ decimals) in
      (
        to_string whole,
        some f,
        parts,
        rw (cents, shown) refl,
        parse_human_amount-written (to_string whole) (some f) decimals parts
            ∙ ap (λ v. ok (pos v)) units,
      )
]
