-- ===== src/Strategy/Cooldown/Setting.antt =====
-- The setting of the cooldown, loadStrategyRunManualCooldownMs.
use protocol_monorepo.Common.{ℕ, ◌*◌, ◌≡◌, refl, [], ◌∷◌, some, All, arith}
use protocol_monorepo.Common.Int.{pos}
use protocol_monorepo.Common.Text.{Text}
use protocol_monorepo.Common.Decimal.{trim_start}
use protocol_monorepo.Common.Decimal.Value.{IsDigit, value, not_space, scan_digits-value}
use protocol_monorepo.Tokens.Amount.{is_digit}
use protocol_monorepo.Tokens.Amount.Written.{IsDigits}
use protocol_monorepo.Strategy.Cooldown.{
  leading_digits, parse_int, load_strategy_run_manual_cooldown_ms,
}

leading_digits_id : (s : Text) → All IsDigit s → leading_digits s ≡ s
unfolding leading_digits is_digit
leading_digits_id [] h = refl
leading_digits_id (c ∷ s) h = ground (arith, leading_digits_id s h.1)

parse_int_digits :
    (c : ℕ) (s : Text) → All IsDigit (c ∷ s) → parse_int (c ∷ s) ≡ some (pos (value (c ∷ s)))
unfolding parse_int value trim_start
parse_int_digits c s h =
    ground (arith, not_space c h.0, leading_digits_id (c ∷ s) h, scan_digits-value 0 (c ∷ s) h)

-- A setting of digits is that number of seconds, in milliseconds.
pub load_strategy_run_manual_cooldown_ms_digits :
    (s : Text) → IsDigits s → load_strategy_run_manual_cooldown_ms (some s) ≡ value s * 1000
unfolding load_strategy_run_manual_cooldown_ms
load_strategy_run_manual_cooldown_ms_digits [] h = absurd (h.0 refl)
load_strategy_run_manual_cooldown_ms_digits (c ∷ s) h = rw (parse_int_digits c s h.1)
