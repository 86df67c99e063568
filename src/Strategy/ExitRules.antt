-- ===== src/Strategy/ExitRules.antt =====
-- api/src/lib/trading/exit-rule-convention.ts and intent-builder.ts: exit rules and intents as
-- the router contract takes them. On chain a stop-loss trigger is negative.
pub mod Convention
use protocol_monorepo.Common.{
  ℕ, String, Bool, true, false, ◌==◌, if◌then◌else◌, List, [], ◌∷◌, map, Option, none, some, Result,
  ok, err, ◌>>=◌, or_fail,
}
use protocol_monorepo.Common.Int.{ℤ, pos, neg_ℕ, abs_ℕ}
use protocol_monorepo.Common.Text.{Text, to_upper_case}
use protocol_monorepo.Common.Decimal.{big_int}
use protocol_monorepo.Tokens.Amount.{AmountError, syntax_error, parse_human_amount}
use protocol_monorepo.Tokens.Catalog.{TokenCatalog, chain_token_address}
use protocol_monorepo.Strategy.Decision.{TriggerType, stop_loss, take_profit, ExitRuleInput}

unfoldable pub to_on_chain_trigger_bps : TriggerType → ℤ → ℤ
to_on_chain_trigger_bps stop_loss bps = neg_ℕ (abs_ℕ bps)
to_on_chain_trigger_bps take_profit bps = pos (abs_ℕ bps)

abbrev pub default_exit_ladder : List ExitRuleInput
default_exit_ladder =
    record { trigger_type = stop_loss; trigger_bps = neg_ℕ 1000; exit_bps = 10000 } ∷ []

pub record OnChainExitRule : Type 0 where
  pub trigger_type : ℕ
  pub trigger_bps : ℤ
  pub exit_bps : ℕ

unfoldable pub map_trigger_type : TriggerType → ℕ
map_trigger_type stop_loss = 0
map_trigger_type take_profit = 1

abbrev trigger_type_of : ℕ → TriggerType
trigger_type_of n = if n == 0 then stop_loss else take_profit

unfoldable pub map_on_chain_exit_rule : OnChainExitRule → ExitRuleInput
map_on_chain_exit_rule rule = record {
  trigger_type = trigger_type_of rule.trigger_type;
  trigger_bps = rule.trigger_bps;
  exit_bps = rule.exit_bps;
}

-- The body of `map` in `mapExitRules`.
unfoldable pub map_exit_rule : ExitRuleInput → OnChainExitRule
unfolding map_trigger_type to_on_chain_trigger_bps
map_exit_rule rule = record {
  trigger_type = map_trigger_type rule.trigger_type;
  trigger_bps = to_on_chain_trigger_bps rule.trigger_type rule.trigger_bps;
  exit_bps = rule.exit_bps;
}

unfoldable pub map_exit_rules : List ExitRuleInput → List OnChainExitRule
map_exit_rules exits = map map_exit_rule exits

pub record IntentParams : Type 0 where
  pub agent_id : ℕ
  pub vault : Text
  pub symbol : String
  pub chain_id : ℕ
  pub usdc_amount_human : Text
  pub usdc_decimals : ℕ
  pub min_token_out : Text
  pub max_slippage_bps : ℕ
  pub exits : List ExitRuleInput
  pub deadline : ℕ
  pub nonce : ℕ

pub record OnChainPositionIntent : Type 0 where
  pub agent_id : ℕ
  pub vault : Text
  pub token : Text
  pub usdc_amount : ℤ
  pub min_token_out : ℤ
  pub max_slippage_bps : ℕ
  pub exits : List OnChainExitRule
  pub deadline : ℕ
  pub nonce : ℕ

pub data IntentError : Type 0 where
  unknown_token_symbol : (symbol : String) → IntentError
  amount_refused : AmountError → IntentError

-- An exception of `parseHumanAmount` passes through.
abbrev pub amount_thrown : Result AmountError ℤ → Result IntentError ℤ
amount_thrown (ok a) = ok a
amount_thrown (err e) = err (amount_refused e)

-- The object literal that is returned.
abbrev pub intent_of : IntentParams → Text → ℤ → ℤ → OnChainPositionIntent
intent_of params token usdc_amount min_token_out = record {
  agent_id = params.agent_id;
  vault = params.vault;
  token = token;
  usdc_amount = usdc_amount;
  min_token_out = min_token_out;
  max_slippage_bps = params.max_slippage_bps;
  exits = map_exit_rules params.exits;
  deadline = params.deadline;
  nonce = params.nonce;
}

module _ (catalog : TokenCatalog) where
  unfoldable pub resolve_token_address : ℕ → String → Option Text
  resolve_token_address chain_id symbol =
      chain_token_address catalog chain_id (to_upper_case symbol)

  unfoldable pub build_on_chain_intent : IntentParams → Result IntentError OnChainPositionIntent
  build_on_chain_intent params = do
    token ←
        or_fail (resolve_token_address params.chain_id params.symbol)
          (unknown_token_symbol params.symbol)
    usdc_amount ← amount_thrown (parse_human_amount params.usdc_amount_human params.usdc_decimals)
    min_token_out ← or_fail (big_int params.min_token_out) (amount_refused syntax_error)
    ok (intent_of params token usdc_amount min_token_out)
