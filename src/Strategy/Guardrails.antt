-- ===== src/Strategy/Guardrails.antt =====
-- api/src/lib/strategy/guardrails.ts: the checks on a decision before it is executed.
pub mod Permitted
pub mod Amounts
use protocol_monorepo.Common.{
  ℕ, String, Bool, true, false, not, ◌&&◌, ◌||◌, List, [], ◌∷◌, ◌++◌, any, length, ltb, str_eq,
  Option, none, some, Result, ok, err, ◌>>=◌, ◌>>◌, fail_if, or_fail,
}
use protocol_monorepo.Common.Int.{ℤ, pos, ltb_ℤ, leb_ℤ}
use protocol_monorepo.Common.Text.{Text}
use protocol_monorepo.Common.Decimal.{split_dot, second_part, pad_end, big_int}
use protocol_monorepo.Strategy.Decision.{
  TriggerType, stop_loss, take_profit, ExitRuleInput, StrategyAction, open_position, close_position,
  add_to_position, reduce_position, StrategyDecision, PositionStatus, is_open, is_closed,
  AgentPosition, ExitBounds, StrategyContext,
}

-- One constructor for each message.
pub data GuardrailError : Type 0 where
  invalid_usdc_amount syntax_error : GuardrailError
  amount_not_positive amount_exceeds_available : GuardrailError
  stop_loss_required take_profit_required trigger_not_positive : GuardrailError
  stop_loss_too_wide take_profit_too_low take_profit_too_high : GuardrailError
  position_not_open : (position_id : String) → GuardrailError
  breach_active : GuardrailError
  symbol_not_allowed duplicate_position : (symbol : String) → GuardrailError

abbrev pub Check : Type 0
Check = Result GuardrailError (Unit {0})

abbrev pub is_empty : Text → Bool
is_empty [] = true
is_empty (c ∷ s) = false

unfoldable pub parse_usdc_amount : Text → ℕ → Result GuardrailError ℤ
parse_usdc_amount value decimals = do
  let (whole, parts) = split_dot value
  let fraction = second_part parts
  fail_if (is_empty whole || ltb decimals (length fraction)) invalid_usdc_amount
  or_fail (big_int (whole ++ pad_end fraction decimals)) syntax_error

unfoldable pub assert_amount_within_available : Text → StrategyContext → Check
assert_amount_within_available usdc_amount context = do
  amount ← parse_usdc_amount usdc_amount context.guardrails.usdc_decimals
  available ← or_fail (big_int context.guardrails.available) syntax_error
  fail_if (leb_ℤ amount (pos 0)) amount_not_positive
  fail_if (ltb_ℤ available amount) amount_exceeds_available

abbrev pub is_stop_loss : TriggerType → Bool
is_stop_loss stop_loss = true
is_stop_loss take_profit = false

-- The body of the loop over the rules.
unfoldable pub assert_exit_rule : ExitBounds → ExitRuleInput → Check
assert_exit_rule bounds rule = do
  fail_if (leb_ℤ rule.trigger_bps (pos 0)) trigger_not_positive
  fail_if (is_stop_loss rule.trigger_type && ltb_ℤ (pos bounds.max_stop_loss_bps) rule.trigger_bps)
      stop_loss_too_wide
  fail_if
      (not (is_stop_loss rule.trigger_type)
        && ltb_ℤ rule.trigger_bps (pos bounds.min_take_profit_bps))
      take_profit_too_low
  fail_if
      (not (is_stop_loss rule.trigger_type)
        && ltb_ℤ (pos bounds.max_take_profit_bps) rule.trigger_bps)
      take_profit_too_high

-- `for (const x of xs) check(x)`
unfoldable pub assert_each {ℓ} : {A : Type ℓ} → (A → Check) → List A → Check
assert_each check [] = ok tt
assert_each check (x ∷ xs) = check x >> assert_each check xs

unfoldable pub assert_exit_rules : List ExitRuleInput → StrategyContext → Check
assert_exit_rules rules context = do
  let bounds = context.guardrails.exit_bounds
  let has_stop_loss = any (λ rule. is_stop_loss rule.trigger_type) rules
  let has_take_profit = any (λ rule. not (is_stop_loss rule.trigger_type)) rules
  fail_if (bounds.require_stop_loss && not has_stop_loss) stop_loss_required
  fail_if (bounds.require_take_profit && not has_take_profit) take_profit_required
  assert_each (assert_exit_rule bounds) rules

-- `if (action.exits) assertExitRules(action.exits, context)`
abbrev pub assert_exits : Option (List ExitRuleInput) → StrategyContext → Check
assert_exits none context = ok tt
assert_exits (some rules) context = assert_exit_rules rules context

abbrev pub has_status_open : PositionStatus → Bool
has_status_open is_open = true
has_status_open is_closed = false

unfoldable pub assert_open_position : String → StrategyContext → Check
assert_open_position position_id context =
    fail_if
      (not
        (any (λ p. str_eq p.position_id position_id && has_status_open p.status) context.positions))
      (position_not_open position_id)

abbrev pub buys : StrategyAction → Bool
buys (open_position _ _ _ _ _) = true
buys (add_to_position _ _ _ _) = true
buys (close_position _ _) = false
buys (reduce_position _ _) = false

-- The switch on the action's type.
unfoldable pub assert_action_kind : StrategyContext → StrategyAction → Check
assert_action_kind context (open_position symbol amount _ _ exits) = do
  fail_if (not (any (λ s. str_eq s symbol) context.guardrails.allowed_symbols))
      (symbol_not_allowed symbol)
  fail_if (any (λ p. has_status_open p.status && str_eq p.symbol symbol) context.positions)
      (duplicate_position symbol)
  assert_amount_within_available amount context
  assert_exits exits context
assert_action_kind context (add_to_position position_id amount _ _) = do
  assert_open_position position_id context
  assert_amount_within_available amount context
assert_action_kind context (reduce_position position_id _) =
    assert_open_position position_id context
assert_action_kind context (close_position position_id _) = assert_open_position position_id context

-- The body of the loop over the actions.
unfoldable pub assert_action : StrategyContext → StrategyAction → Check
assert_action context action = do
  let breaches = context.guardrails.breaches
  fail_if ((breaches.drawdown || breaches.daily_loss) && buys action) breach_active
  assert_action_kind context action

unfoldable pub assert_strategy_decision_guardrails : StrategyDecision → StrategyContext → Check
assert_strategy_decision_guardrails decision context =
    assert_each (assert_action context) decision.actions
