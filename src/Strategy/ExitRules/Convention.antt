-- ===== src/Strategy/ExitRules/Convention.antt =====
-- The sign convention of exit rules on chain, and intents with such rules.
use protocol_monorepo.Common.{◌≡◌, ◌⊎◌, refl, List, [], ◌∷◌, map, All, some, Option, ok, arith}
use protocol_monorepo.Common.Int.{pos, ◌≤ℤ◌}
use protocol_monorepo.Common.Text.{Text}
use protocol_monorepo.Common.Decimal.Value.{value, big_int_digits}
use protocol_monorepo.Tokens.Catalog.{TokenCatalog}
use protocol_monorepo.Tokens.Amount.Written.{IsDigits, Parts, written}
use protocol_monorepo.Tokens.Amount.Floor.{atomic_units, parse_human_amount-written}
use protocol_monorepo.Strategy.Decision.{ExitRuleInput}
use protocol_monorepo.Strategy.ExitRules.{
  to_on_chain_trigger_bps, OnChainExitRule, map_trigger_type, map_on_chain_exit_rule, map_exit_rule,
  map_exit_rules, IntentParams, intent_of, OnChainPositionIntent, resolve_token_address,
  build_on_chain_intent,
}

-- Type 0 with a trigger that is not positive, or type 1 with one that is not negative.
abbrev pub IsOnChain : OnChainExitRule → Type 0
IsOnChain rule =
    (rule.trigger_type ≡ 0) × (rule.trigger_bps ≤ℤ pos 0)
    ⊎ (rule.trigger_type ≡ 1) × (pos 0 ≤ℤ rule.trigger_bps)

map_exit_rule-IsOnChain : (rule : ExitRuleInput) → IsOnChain (map_exit_rule rule)
unfolding map_exit_rule map_trigger_type to_on_chain_trigger_bps
map_exit_rule-IsOnChain rule = ground arith

there_and_back :
    (rule : OnChainExitRule) → IsOnChain rule → map_exit_rule (map_on_chain_exit_rule rule) ≡ rule
unfolding map_exit_rule map_on_chain_exit_rule map_trigger_type to_on_chain_trigger_bps
there_and_back rule h = ground arith

-- Whatever the sign of the triggers given, the rules are sent in the convention of the chain.
pub map_exit_rules-IsOnChain : (exits : List ExitRuleInput) → All IsOnChain (map_exit_rules exits)
unfolding map_exit_rules
map_exit_rules-IsOnChain [] = tt
map_exit_rules-IsOnChain (rule ∷ rules) =
    (map_exit_rule-IsOnChain rule, map_exit_rules-IsOnChain rules)

-- Rules that follow the convention, read from the chain and sent back, are the same rules.
pub map_exit_rules-map_on_chain :
    (rules : List OnChainExitRule)
    → All IsOnChain rules
    → map_exit_rules (map map_on_chain_exit_rule rules) ≡ rules
unfolding map_exit_rules
map_exit_rules-map_on_chain [] h = refl
map_exit_rules-map_on_chain (rule ∷ rules) (h, hs) =
    ground (arith, there_and_back rule h, map_exit_rules-map_on_chain rules hs)

-- An intent on a listed token, with a written amount and a written lower bound on the tokens
-- received, is built: it carries the amount rounded down to atomic units, and exit rules in the
-- convention of the chain.
pub build_on_chain_intent-written :
    (catalog : TokenCatalog) (params : IntentParams) (token : Text) (w : Text) (f : Option Text)
    → resolve_token_address catalog params.chain_id params.symbol ≡ some token
    → Parts w f
    → params.usdc_amount_human ≡ written w f
    → IsDigits params.min_token_out
    → (intent : OnChainPositionIntent) × (build_on_chain_intent catalog params ≡ ok intent)
      × (intent.token ≡ token)
      × (intent.usdc_amount ≡ pos (atomic_units w f params.usdc_decimals))
      × (intent.min_token_out ≡ pos (value params.min_token_out))
      × All IsOnChain intent.exits
unfolding build_on_chain_intent
build_on_chain_intent-written catalog params token w f known parts eq digits = (
  intent_of params token (pos (atomic_units w f params.usdc_decimals))
      (pos (value params.min_token_out)),
  rw (
    known,
    eq,
    parse_human_amount-written w f params.usdc_decimals parts,
    big_int_digits params.min_token_out digits.1,
  ),
  refl,
  refl,
  refl,
  map_exit_rules-IsOnChain params.exits,
)
