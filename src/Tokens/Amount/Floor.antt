-- ===== src/Tokens/Amount/Floor.antt =====
-- parseHumanAmount against the exact value of a written amount.
use native.Mathlib.Nat.{
  pow-suc, pow-zero, mul-div-mul_right, mul-div_cancel, mul-add-div_right, div-eq_of_lt-le,
  mul_assoc, zero-add, one-le-pow,
}
use mathlib.Core.List.{append-nil}
use native.Mathlib.Decide.{dec_le}
use protocol_monorepo.Common.{
  ℕ, zero, suc, ◌+◌, ◌-◌, ◌*◌, ◌/◌, ◌^◌, ◌≤◌, ◌<◌, ◌≡◌, refl, sym, subst, ap, ◌∙◌, Option, none,
  some, [], ◌++◌, arith, All, All-append, All-take, All-drop, take, drop, take-append-drop, length,
  length-append, length-replicate, length-take, length-drop, take_all, ok, replicate,
}
use protocol_monorepo.Common.Int.{pos, ◌+ℤ◌, scale}
use protocol_monorepo.Common.Text.{Text}
use protocol_monorepo.Common.Decimal.{second_part, pad_end}
use protocol_monorepo.Common.Decimal.Value.{
  IsDigit, value, trim_of_HasNoSpace, big_int_digits, value-append, All-IsDigit_zeros, value-lt,
  value-zeros,
}
use protocol_monorepo.Tokens.Amount.{parse_human_amount}
use protocol_monorepo.Tokens.Amount.Written.{
  Parts, written, fractions, split_dot-written, written-HasNoSpace, is_amount_iff,
}

pub pow-add : (a m n : ℕ) → a ^ (m + n) ≡ a ^ m * a ^ n
pow-add a zero n = rw (zero-add, pow-zero) (omega arith)
pow-add a (suc m) n =
    let e : suc m + n ≡ suc (m + n) = omega arith in
    rw (e, pow-suc, pow-suc, pow-add a m n) (omega arith)

-- The digits behind the dot, and the number of atomic units of a written amount, rounded down.
abbrev pub fraction_of : Option Text → Text
fraction_of none = []
fraction_of (some f) = f

unfoldable pub atomic_units : Text → Option Text → ℕ → ℕ
atomic_units w f decimals = value (w ++ fraction_of f) * 10 ^ decimals / 10 ^ length (fraction_of f)

pos_pow : (n : ℕ) → 0 < 10 ^ n
pos_pow n = one-le-pow n 10 (omega arith)

-- The fraction as the code pads and cuts it.
abbrev padded : Text → ℕ → Text
padded f d = pad_end (take d (pad_end f d)) d

pad_end_full : (s : Text) (d : ℕ) → d ≤ length s → pad_end s d ≡ s
unfolding pad_end
pad_end_full s d h = let e : d - length s ≡ 0 = omega arith in rw (e, append-nil)

zero_count : (n : ℕ) → length {A = ℕ} (replicate n b'0') ≡ n
zero_count n = length-replicate {A = ℕ} n b'0'

padded_short : (f : Text) (d : ℕ) → length f ≤ d → padded f d ≡ f ++ replicate (d - length f) b'0'
unfolding pad_end
padded_short f d h =
    let zeros = replicate (d - length f) b'0' in
    let n : d ≡ length (f ++ zeros) =
      omega (arith, length-append f zeros, zero_count (d - length f)) in
    let whole : take d (f ++ zeros) ≡ f ++ zeros =
      subst (λ k. take k (f ++ zeros) ≡ f ++ zeros) (sym n) (take_all (f ++ zeros)) in
    rw whole (pad_end_full (f ++ zeros) d (omega arith))

padded_long : (f : Text) (d : ℕ) → d ≤ length f → padded f d ≡ take d f
padded_long f d h =
    rw (pad_end_full f d h) (pad_end_full (take d f) d (omega (arith, length-take d f)))

value_cut : (s t : Text) → All IsDigit t → value (s ++ t) / 10 ^ length t ≡ value s
value_cut s t h =
    rw value-append (div-eq_of_lt-le (10 ^ length t) (omega arith) (omega (arith, value-lt t h)))

pub short_value : (f : Text) (n : ℕ) → value (f ++ replicate n b'0') ≡ value f * 10 ^ n
short_value f n = rw (value-append, zero_count n, value-zeros n) (omega arith)

pub scaled_down : (v a b : ℕ) → v * 10 ^ (a + b) / 10 ^ b ≡ v * 10 ^ a
scaled_down v a b = rw (pow-add, ← mul_assoc) (mul-div_cancel (v * 10 ^ a) (pos_pow b))

long_value :
    (f : Text) (d : ℕ)
    → d ≤ length f
    → All IsDigit f
    → value (take d f) ≡ value f * 10 ^ d / 10 ^ length f
long_value f d h k =
    let s = take d f in
    let t = drop d f in
    let e : length f ≡ length t + d = omega (arith, length-drop d f) in
    let split : value f ≡ value (s ++ t) = ap value (sym (take-append-drop d f)) in
    let cut : value f * 10 ^ d / (10 ^ length t * 10 ^ d) ≡ value s =
      mul-div-mul_right (value f) (10 ^ length t) (pos_pow d)
      ∙ ap (λ v. v / 10 ^ length t) split
      ∙ value_cut s t (All-drop IsDigit d f k) in
    sym (ap (λ v. value f * 10 ^ d / v) (ap (λ n. 10 ^ n) e ∙ pow-add 10 (length t) d) ∙ cut)

fraction_value :
    (f : Text) (d : ℕ) → All IsDigit f → value (padded f d) ≡ value f * 10 ^ d / 10 ^ length f
fraction_value f d h = elim (dec_le (length f) d) [
  | yes short ↦
      let e : d ≡ d - length f + length f = omega arith in
      rw (padded_short f d short) (
        short_value f (d - length f)
        ∙ subst (λ k. value f * 10 ^ (d - length f) ≡ value f * 10 ^ k / 10 ^ length f) (sym e)
            (sym (scaled_down (value f) (d - length f) (length f))))
  | no long ↦ rw (padded_long f d (omega arith)) (long_value f d (omega arith) h)
]

padded_digits : (f : Text) (d : ℕ) → All IsDigit f → All IsDigit (padded f d)
unfolding pad_end
padded_digits f d h =
    All-append IsDigit (take d (pad_end f d)) _
      (All-take IsDigit d (pad_end f d)
        (All-append IsDigit f _ h (All-IsDigit_zeros (d - length f))))
      (All-IsDigit_zeros _)

-- The whole and the fraction together are the number that all the digits spell.
joined_value :
    (w f : Text) (d : ℕ)
    → value w * 10 ^ d + value f * 10 ^ d / 10 ^ length f ≡ value (w ++ f) * 10 ^ d / 10 ^ length f
joined_value w f d =
    let e : value (w ++ f) * 10 ^ d ≡ value w * 10 ^ d * 10 ^ length f + value f * 10 ^ d =
      rw value-append (omega arith) in
    rw e (sym (mul-add-div_right (pos_pow (length f)) (value w * 10 ^ d) (value f * 10 ^ d)))

pub second_part-fractions : (f : Option Text) → second_part (fractions f) ≡ fraction_of f
second_part-fractions none = refl
second_part-fractions (some f) = refl

pub fraction_digits :
    (w : Text) (f : Option Text) → Parts w f → All IsDigit w × All IsDigit (fraction_of f)
fraction_digits w none h = (h.1, tt)
fraction_digits w (some f) (h, k) = (h.1, k.1)

add_pos : (a n b : ℕ) → scale (pos a) n +ℤ pos b ≡ pos (a * n + b)
unfolding scale ◌+ℤ◌
add_pos a n b = ground arith

-- A written amount is accepted, and becomes its exact value in atomic units, rounded down.
pub parse_human_amount-written :
    (w : Text) (f : Option Text) (decimals : ℕ)
    → Parts w f
    → parse_human_amount (written w f) decimals ≡ ok (pos (atomic_units w f decimals))
unfolding parse_human_amount atomic_units
parse_human_amount-written w f d h =
    let (hw, hf) = fraction_digits w f h in
    rw (
      trim_of_HasNoSpace (written w f) (written-HasNoSpace w f h),
      (is_amount_iff (written w f)).1 (w, f, h, refl),
      split_dot-written w f h,
      second_part-fractions f,
      big_int_digits w hw,
      big_int_digits (padded (fraction_of f) d) (padded_digits (fraction_of f) d hf),
      add_pos,
      fraction_value (fraction_of f) d hf,
      joined_value,
    )
