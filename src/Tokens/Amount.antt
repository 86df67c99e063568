-- ===== src/Tokens/Amount.antt =====
-- api/src/lib/tokens/amount-utils.ts: human decimal amounts as atomic units.
pub mod Written
pub mod Floor
use protocol_monorepo.Common.{
  ℕ, ◌^◌, Bool, true, false, not, ◌&&◌, List, [], ◌∷◌, leb, ◌==◌, if◌then◌else◌, Result, ok, err,
  ◌>>=◌, ◌>>◌, fail_if, or_fail, take,
}
use protocol_monorepo.Common.Int.{ℤ, ◌+ℤ◌, scale}
use protocol_monorepo.Common.Text.{Text}
use protocol_monorepo.Common.Decimal.{trim, split_dot, second_part, pad_end, big_int}

pub data AmountError : Type 0 where
  invalid_amount syntax_error : AmountError

unfoldable pub is_digit : ℕ → Bool
is_digit c = leb b'0' c && leb c b'9'

pub digits_only : Text → Bool
digits_only [] = true
digits_only (c ∷ s) = is_digit c && digits_only s

-- The rest of the pattern behind a first digit, and behind a dot.
abbrev fraction_matches : Text → Bool
fraction_matches [] = false
fraction_matches (c ∷ s) = is_digit c && digits_only s

pub rest_matches : Text → Bool
rest_matches [] = true
rest_matches (c ∷ s) = if c == b'.' then fraction_matches s else is_digit c && rest_matches s

-- `/^\d+(\.\d+)?$/`
unfoldable pub is_amount : Text → Bool
unfolding rest_matches digits_only is_digit
is_amount [] = false
is_amount (c ∷ s) = is_digit c && rest_matches s

unfoldable pub parse_human_amount : Text → ℕ → Result AmountError ℤ
parse_human_amount value decimals = do
  let trimmed = trim value
  fail_if (not (is_amount trimmed)) invalid_amount
  let (whole_part, parts) = split_dot trimmed
  let fraction = take decimals (pad_end (second_part parts) decimals)
  whole ← or_fail (big_int whole_part) syntax_error
  frac ← or_fail (big_int (pad_end fraction decimals)) syntax_error
  ok (scale whole (10 ^ decimals) +ℤ frac)
