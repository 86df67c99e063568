-- ===== src/Examples/Amounts.antt =====
-- Amounts, exit rules, metrics and risk limits at concrete inputs.
use protocol_monorepo.Common.{
  ◌≡◌, refl, inl, inr, List, [], ◌∷◌, Option, none, some, ok, err, All, arith, map,
}
use protocol_monorepo.Common.Int.{pos, neg_ℕ}
use protocol_monorepo.Common.Text.{Text, codes, to_upper_case}
use protocol_monorepo.Common.Decimal.Value.{value}
use protocol_monorepo.Tokens.Catalog.{TokenCatalog, chain_token_address}
use protocol_monorepo.Tokens.Amount.{parse_human_amount}
use protocol_monorepo.Tokens.Amount.Written.{Parts}
use protocol_monorepo.Tokens.Amount.Floor.{atomic_units, parse_human_amount-written}
use protocol_monorepo.Strategy.Guardrails.{parse_usdc_amount, invalid_usdc_amount}
use protocol_monorepo.Strategy.Guardrails.Amounts.{parse_usdc_amount-written}
use protocol_monorepo.Strategy.ExitRules.{
  OnChainExitRule, map_on_chain_exit_rule, map_exit_rules, IntentParams, OnChainPositionIntent,
  build_on_chain_intent, resolve_token_address, default_exit_ladder,
}
use protocol_monorepo.Strategy.ExitRules.Convention.{
  IsOnChain, map_exit_rules-map_on_chain, build_on_chain_intent-written,
}

-- "12.345"
abbrev whole : Text
whole = codes "12"

abbrev fraction : Option Text
fraction = some (codes "345")

parts : Parts whole fraction
parts = (
  ((λ e. cc), ((omega arith, omega arith), ((omega arith, omega arith), tt))),
  (
    (λ e. cc),
    ((omega arith, omega arith), ((omega arith, omega arith), ((omega arith, omega arith), tt))),
  ),
)

parse_human_amount-written_example :
    parse_human_amount (codes "12.345") 2 ≡ ok (pos (atomic_units whole fraction 2))
parse_human_amount-written_example = parse_human_amount-written whole fraction 2 parts

parse_usdc_amount-written_example : parse_usdc_amount (codes "12.345") 2 ≡ err invalid_usdc_amount
parse_usdc_amount-written_example = parse_usdc_amount-written whole fraction 2 parts

abbrev stored_rules : List OnChainExitRule
stored_rules =
    record { trigger_type = 0; trigger_bps = neg_ℕ 1000; exit_bps = 5000 }
    ∷ record { trigger_type = 1; trigger_bps = pos 2500; exit_bps = 10000 }
    ∷ []

stored_rules-IsOnChain : All IsOnChain stored_rules
stored_rules-IsOnChain = (inl (refl, omega arith), (inr (refl, omega arith), tt))

map_exit_rules-map_on_chain_example :
    map_exit_rules (map map_on_chain_exit_rule stored_rules) ≡ stored_rules
map_exit_rules-map_on_chain_example =
    map_exit_rules-map_on_chain stored_rules stored_rules-IsOnChain

abbrev catalog : TokenCatalog
catalog = record {
  tokens = record { symbol = "NVDA"; finnhub_symbol = none } ∷ [];
  chains = (1, ("NVDA", some (codes "0xabc")) ∷ []) ∷ [];
}

abbrev order : IntentParams
order = record {
  agent_id = 7;
  vault = codes "0xdef";
  symbol = "nvda";
  chain_id = 1;
  usdc_amount_human = codes "12.345";
  usdc_decimals = 2;
  min_token_out = codes "5";
  max_slippage_bps = 100;
  exits = default_exit_ladder;
  deadline = 1000;
  nonce = 0;
}

listed : resolve_token_address catalog 1 "nvda" ≡ some (codes "0xabc")
unfolding resolve_token_address chain_token_address to_upper_case
listed = refl

build_on_chain_intent-written_example :
    (intent : OnChainPositionIntent) × (build_on_chain_intent catalog order ≡ ok intent)
    × (intent.token ≡ codes "0xabc")
    × (intent.usdc_amount ≡ pos (atomic_units whole fraction 2))
    × (intent.min_token_out ≡ pos (value (codes "5")))
    × All IsOnChain intent.exits
build_on_chain_intent-written_example =
    build_on_chain_intent-written catalog order (codes "0xabc") whole fraction listed parts refl
      ((λ e. cc), ((omega arith, omega arith), tt))
