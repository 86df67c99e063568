-- ===== src/Common/Decimal/Print.antt =====
-- `n.toString()` of a natural number, which `BigInt` reads back.
use native.Mathlib.Nat.{pow-suc}
use protocol_monorepo.Common.{
  ℕ, zero, suc, ◌+◌, ◌/◌, ◌%◌, ◌<◌, ◌≡◌, ◌≢◌, ◌≤◌, ◌^◌, length, length-append, refl, ◌∙◌, ap, some,
  [], ◌∷◌, ◌++◌, ltb, true, if◌then◌else◌, All, All-append, arith, Bool-cases, inl, inr,
}
use protocol_monorepo.Common.Int.{pos}
use protocol_monorepo.Common.Text.{Text, codes}
use protocol_monorepo.Common.Decimal.{big_int}
use protocol_monorepo.Common.Decimal.Value.{
  IsDigit, value, value_from, value-append, big_int_digits,
}

abbrev last_digit : ℕ → Text
last_digit n = (b'0' + n % 10) ∷ []

-- The digits of a number below the fuel.
unfoldable pub digits_of : ℕ → ℕ → Text
digits_of zero n = []
digits_of (suc fuel) n =
    let front = digits_of fuel (n / 10) in if ltb n 10 then last_digit n else front ++ last_digit n

unfoldable pub to_string : ℕ → Text
unfolding digits_of
to_string n = digits_of (suc n) n

last_digit-IsDigit : (n : ℕ) → All IsDigit (last_digit n)
last_digit-IsDigit n = ((omega arith, omega arith), tt)

value-last_digit : (n : ℕ) → value (last_digit n) ≡ n % 10
unfolding value value_from
value-last_digit n = omega arith

digits_of-IsDigit : (fuel n : ℕ) → All IsDigit (digits_of fuel n)
unfolding digits_of
digits_of-IsDigit zero n = tt
digits_of-IsDigit (suc fuel) n = elim (Bool-cases (ltb n 10)) [
  | inl small ↦ rw small (last_digit-IsDigit n)
  | inr large ↦ rw large (
      All-append IsDigit (digits_of fuel (n / 10)) (last_digit n) (digits_of-IsDigit fuel (n / 10))
        (last_digit-IsDigit n))
]

value-digits_of : (fuel n : ℕ) → n < fuel → value (digits_of fuel n) ≡ n
unfolding digits_of
value-digits_of zero n h = absurd (omega arith)
value-digits_of (suc fuel) n h = elim (Bool-cases (ltb n 10)) [
  | inl small ↦ rw (small, value-last_digit n) (ground arith)
  | inr large ↦
      let shorter = value-digits_of fuel (n / 10) (ground arith) in
      rw (large, value-append (digits_of fuel (n / 10)) (last_digit n), shorter, value-last_digit n)
        (omega arith)
]

-- There is at least one digit, and there are as many as needed.
last_digit_behind : (s : Text) (n : ℕ) → s ++ last_digit n ≢ []
last_digit_behind [] n = cc
last_digit_behind (c ∷ s) n = cc

digits_of_some : (fuel n : ℕ) → digits_of (suc fuel) n ≢ []
unfolding digits_of
digits_of_some fuel n = elim (Bool-cases (ltb n 10)) [
  | inl small ↦ rw small (last_digit_behind [] n)
  | inr large ↦ rw large (last_digit_behind (digits_of fuel (n / 10)) n)
]

pub to_string_some : (n : ℕ) → to_string n ≢ []
unfolding to_string
to_string_some n = digits_of_some n n

length-digits_of : (fuel n d : ℕ) → n < 10 ^ suc d → length (digits_of fuel n) ≤ suc d
unfolding digits_of
length-digits_of zero n d h = omega arith
length-digits_of (suc fuel) n zero h =
    let small : ltb n 10 ≡ true = ground arith in rw small (omega arith)
length-digits_of (suc fuel) n (suc d) h = elim (Bool-cases (ltb n 10)) [
  | inl small ↦ rw small (omega arith)
  | inr large ↦
      let fewer : n / 10 < 10 ^ suc d = omega (arith, pow-suc) in
      rw (large, length-append (digits_of fuel (n / 10)) (last_digit n))
        (omega (arith, length-digits_of fuel (n / 10) d fewer))
]

pub length-to_string : (n d : ℕ) → n < 10 ^ suc d → length (to_string n) ≤ suc d
unfolding to_string
length-to_string n d h = length-digits_of (suc n) n d h

pub value-to_string : (n : ℕ) → value (to_string n) ≡ n
unfolding to_string
value-to_string n = value-digits_of (suc n) n (omega arith)

pub to_string-digits : (n : ℕ) → All IsDigit (to_string n)
unfolding to_string
to_string-digits n = digits_of-IsDigit (suc n) n

pub big_int-to_string : (n : ℕ) → big_int (to_string n) ≡ some (pos n)
unfolding to_string
big_int-to_string n =
    big_int_digits (to_string n) (to_string-digits n)
    ∙ ap (λ v. some (pos v)) (value-digits_of (suc n) n (omega arith))

to_string_check : to_string 1200 ≡ codes "1200"
unfolding to_string
to_string_check = refl
