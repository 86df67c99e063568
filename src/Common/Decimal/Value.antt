-- ===== src/Common/Decimal/Value.antt =====
-- Texts of decimal digits: the number that they spell, and how the functions above treat them.
use native.Mathlib.Nat.{mul-le-mul_right, pow-suc}
use protocol_monorepo.Common.{
  ℕ, zero, suc, ◌+◌, ◌-◌, ◌*◌, ◌^◌, ◌≤◌, ◌<◌, ◌≡◌, refl, ◌∙◌, false, none, some, [], ◌∷◌, ◌++◌,
  length, replicate, All, arith,
}
use protocol_monorepo.Common.Int.{pos, neg_ℕ}
use protocol_monorepo.Common.Text.{Text, codes}
use protocol_monorepo.Common.Decimal.{
  is_space, trim_end, trim, digit_value, scan_digits, digits_literal, radix_of, unsigned_literal,
  big_int,
}

abbrev pub IsDigit : ℕ → Type 0
IsDigit c = (b'0' ≤ c) × (c ≤ b'9')

-- The number that decimal digits spell behind `acc`.
unfoldable pub value_from : ℕ → Text → ℕ
value_from acc [] = acc
value_from acc (c ∷ s) = value_from (acc * 10 + (c - b'0')) s

unfoldable pub value : Text → ℕ
unfolding value_from
value s = value_from 0 s

pub not_space : (c : ℕ) → IsDigit c → is_space c ≡ false
unfolding is_space
not_space c h = ground arith

-- Text with no white space at all.
abbrev pub HasNoSpace : Text → Type 0
HasNoSpace = All (λ c. is_space c ≡ false)

pub HasNoSpace-digits : (s : Text) → All IsDigit s → HasNoSpace s
HasNoSpace-digits [] h = tt
HasNoSpace-digits (c ∷ s) (hc, hs) = (not_space c hc, HasNoSpace-digits s hs)

trim_end_of : (s : Text) → HasNoSpace s → trim_end s ≡ s
unfolding trim_end
trim_end_of [] h = refl
trim_end_of (c ∷ []) (hc, h) = rw hc
trim_end_of (c ∷ d ∷ s) (hc, h) = rw (trim_end_of (d ∷ s) h)

pub trim_of_HasNoSpace : (s : Text) → HasNoSpace s → trim s ≡ s
unfolding trim
trim_of_HasNoSpace [] h = refl
trim_of_HasNoSpace (c ∷ s) h = ground (arith, trim_end_of (c ∷ s) h)

digit_value_lem : (c : ℕ) → IsDigit c → digit_value c ≡ c - b'0'
unfolding digit_value
digit_value_lem c h = ground arith

pub scan_digits-value :
    (acc : ℕ) (s : Text) → All IsDigit s → scan_digits 10 acc s ≡ some (value_from acc s)
unfolding scan_digits value_from
scan_digits-value acc [] h = refl
scan_digits-value acc (c ∷ s) (hc, hs) =
    ground (arith, digit_value_lem c hc, scan_digits-value (acc * 10 + (c - b'0')) s hs)

digit_no_radix : (c : ℕ) → IsDigit c → radix_of c ≡ none
unfolding radix_of
digit_no_radix c h = ground arith

unsigned_literal-value :
    (c : ℕ) (s : Text) → All IsDigit (c ∷ s) → unsigned_literal (c ∷ s) ≡ some (value (c ∷ s))
unfolding unsigned_literal digits_literal value
unsigned_literal-value c [] h = scan_digits-value 0 (c ∷ []) h
unsigned_literal-value c (d ∷ s) h =
    rw (digit_no_radix d h.1.0, unsigned_literal) (scan_digits-value 0 (c ∷ d ∷ s) h)

-- Digits are read as the number that they spell, and no text as zero.
pub big_int_digits : (s : Text) → All IsDigit s → big_int s ≡ some (pos (value s))
unfolding big_int value
big_int_digits [] h = refl
big_int_digits (c ∷ s) h =
    rw (trim_of_HasNoSpace (c ∷ s) (HasNoSpace-digits (c ∷ s) h))
      (ground (arith, unsigned_literal-value c s h))

value_from-append :
    (acc : ℕ) (s t : Text) → value_from acc (s ++ t) ≡ value_from (value_from acc s) t
unfolding value_from
value_from-append acc [] t = refl
value_from-append acc (c ∷ s) t = value_from-append (acc * 10 + (c - b'0')) s t

value_from-value : (acc : ℕ) (s : Text) → value_from acc s ≡ acc * 10 ^ length s + value s
unfolding value value_from
value_from-value acc [] = omega arith
value_from-value acc (c ∷ s) =
    rw
      (
        value_from-value (acc * 10 + (c - b'0')) s,
        value_from-value (0 * 10 + (c - b'0')) s,
        pow-suc,
      )
      (omega arith)

-- Digits behind digits.
pub value-append : (s t : Text) → value (s ++ t) ≡ value s * 10 ^ length t + value t
unfolding value
value-append s t = value_from-append 0 s t ∙ value_from-value (value s) t

pub All-IsDigit_zeros : (n : ℕ) → All IsDigit (replicate n b'0')
All-IsDigit_zeros zero = tt
All-IsDigit_zeros (suc n) = ((omega arith, omega arith), All-IsDigit_zeros n)

value_zeros : (n acc : ℕ) → value_from acc (replicate n b'0') ≡ acc * 10 ^ n
unfolding value_from
value_zeros zero acc = omega arith
value_zeros (suc n) acc = rw (value_zeros n (acc * 10 + 0), pow-suc) (omega arith)

nine : (c : ℕ) → IsDigit c → c - b'0' ≤ 9
nine c h = omega arith

pub value-lt : (s : Text) → All IsDigit s → value s < 10 ^ length s
unfolding value value_from
value-lt [] h = omega arith
value-lt (c ∷ s) (hc, hs) =
    rw (value_from-value (0 * 10 + (c - b'0')) s, pow-suc)
      (omega (arith, value-lt s hs, mul-le-mul_right (10 ^ length s) (nine c hc)))

pub value-zeros : (n : ℕ) → value (replicate n b'0') ≡ 0
unfolding value
value-zeros n = value_zeros n 0 ∙ omega arith

big_int_check : big_int (codes " -0012 ") ≡ some (neg_ℕ 12)
unfolding big_int
big_int_check = refl

big_int_hex : big_int (codes "0x10") ≡ some (pos 16)
unfolding big_int
big_int_hex = refl
