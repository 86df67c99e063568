-- ===== src/Strategy/Cooldown.antt =====
-- api/src/lib/strategy/run-cooldown.ts and schedule.ts: how soon a manual run may follow the last
-- one, and when the next scheduled run is due. `Date.parse` and `toISOString` are arguments.
pub mod Retry
pub mod Setting
use mathlib.Core.Option
use protocol_monorepo.Common.{
  ℕ, ◌+◌, ◌*◌, ◌/◌, Bool, true, false, ◌||◌, ◌==◌, ltb, if◌then◌else◌, Option, none, some, List, [],
  ◌∷◌,
}
use protocol_monorepo.Common.Int.{ℤ, pos, ◌+ℤ◌, ◌-ℤ◌, pos_part, neg_ℕ, leb_ℤ}
use protocol_monorepo.Common.Text.{Text}
use protocol_monorepo.Common.Decimal.{trim_start, scan_digits}
use protocol_monorepo.Tokens.Amount.{is_digit}

-- The decimal digits at the start of a text, and the number they spell.
pub leading_digits : Text → Text
leading_digits [] = []
leading_digits (c ∷ s) = let rest = leading_digits s in if is_digit c then c ∷ rest else []

abbrev some_digits : Text → Option ℕ
some_digits [] = none
some_digits (c ∷ s) = scan_digits 10 0 (c ∷ s)

abbrev signed_digits : Text → Option ℤ
signed_digits [] = none
signed_digits (c ∷ s) =
    if c == b'-'
    then Option.map neg_ℕ (some_digits (leading_digits s))
    else if c == b'+'
    then Option.map pos (some_digits (leading_digits s))
    else Option.map pos (some_digits (leading_digits (c ∷ s)))

-- `Number.parseInt(text, 10)`; `none` is NaN.
unfoldable pub parse_int : Text → Option ℤ
unfolding leading_digits
parse_int s = signed_digits (trim_start s)

abbrev pub default_manual_cooldown_ms : ℕ
default_manual_cooldown_ms = 5 * 60 * 1000

abbrev cooldown_of : Option ℤ → ℕ
cooldown_of none = default_manual_cooldown_ms
cooldown_of (some (ℤ.negsuc n)) = default_manual_cooldown_ms
cooldown_of (some (pos n)) = n * 1000

-- From the value of STRATEGY_RUN_MANUAL_COOLDOWN_SECONDS.
unfoldable pub load_strategy_run_manual_cooldown_ms : Option Text → ℕ
load_strategy_run_manual_cooldown_ms none = default_manual_cooldown_ms
load_strategy_run_manual_cooldown_ms (some []) = default_manual_cooldown_ms
load_strategy_run_manual_cooldown_ms (some (c ∷ s)) = cooldown_of (parse_int (c ∷ s))

pub data RunCooldown : Type 0 where
  allowed : RunCooldown
  retry_after : (seconds : ℕ) → RunCooldown

-- `Math.ceil(ms / 1000)` of a positive difference.
abbrev ceil_seconds : ℤ → ℕ
ceil_seconds ms = (pos_part ms + 999) / 1000

-- The part behind the early returns, with the start of the last run in milliseconds.
unfoldable pub cooldown_since : ℤ → ℕ → ℤ → RunCooldown
cooldown_since last_ms cooldown_ms now_ms =
    let elapsed = now_ms -ℤ last_ms in
    if leb_ℤ (pos cooldown_ms) elapsed
    then allowed
    else retry_after (ceil_seconds (pos cooldown_ms -ℤ elapsed))

abbrev cooldown_if_parsed : Option ℤ → ℕ → ℤ → RunCooldown
cooldown_if_parsed none cooldown_ms now_ms = allowed
cooldown_if_parsed (some last_ms) cooldown_ms now_ms = cooldown_since last_ms cooldown_ms now_ms

module _ (date_parse : Text → Option ℤ) where
  unfoldable pub get_strategy_run_cooldown : Option Text → ℕ → ℤ → RunCooldown
  get_strategy_run_cooldown none cooldown_ms now_ms = allowed
  get_strategy_run_cooldown (some []) cooldown_ms now_ms = allowed
  get_strategy_run_cooldown (some (c ∷ s)) cooldown_ms now_ms =
      if cooldown_ms == 0
      then allowed
      else cooldown_if_parsed (date_parse (c ∷ s)) cooldown_ms now_ms

pub data BotFrequency : Type 0 where
  hourly daily : BotFrequency

abbrev delay_ms : BotFrequency → ℕ
delay_ms daily = 24 * (60 * 60 * 1000)
delay_ms hourly = 60 * 60 * 1000

module _ (to_iso : ℤ → Text) where
  unfoldable pub compute_next_run_at : BotFrequency → ℤ → Text
  compute_next_run_at bot_frequency from_ms = to_iso (from_ms +ℤ pos (delay_ms bot_frequency))
