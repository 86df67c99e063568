-- ===== src/Orders/Quotes.antt =====
-- api/src/services/trading.service.ts: getQuote, and the quotes for a position. Decimal strings of
-- amounts stand as the numbers; the nonce is the text that the client sends back. `primaryType`
-- is the operation's.
use protocol_monorepo.Common.{
  ℕ, ◌/◌, String, Bool, true, false, ◌++◌, Option, none, some, List, [], ◌∷◌, drop, Result, ok, err,
  ◌==◌, ltb, if◌then◌else◌, ◌>>=◌, ◌>>◌, or_fail,
}
use protocol_monorepo.Common.Int.{ℤ}
use protocol_monorepo.Common.Text.{Text, codes}
use protocol_monorepo.Common.Decimal.Print.{to_string}
use protocol_monorepo.Tokens.Catalog.{TokenCatalog, chain_tokens}
use protocol_monorepo.Trading.Risk.{Allocation, available_of}
use protocol_monorepo.Strategy.Decision.{ExitRuleInput, ExitBounds}
use protocol_monorepo.Strategy.ExitRules.{default_exit_ladder, resolve_token_address}
use protocol_monorepo.Orders.Errors.{OrderFailure, big_nat}
use protocol_monorepo.Orders.Chain.{Chain, TradingConfig, TypedDomain, AccountRiskBounds, get_agent}
use protocol_monorepo.Orders.Checks.{
  bad_request, typed_domain, get_exit_bounds, get_account_risk_bounds, assert_token_allowed,
  require_own_open,
}
use protocol_monorepo.Orders.Positions.{PositionRecord, map_position_record}

-- `used`, `cap` and `available`
pub record AllocationQuote : Type 0 where
  pub used : ℕ
  pub cap : ℕ
  pub available : ℕ

pub record TradeIntentQuote : Type 0 where
  pub agent_id : Text
  pub vault : Text
  pub signer : Text
  pub nonce : Text
  pub allocation : AllocationQuote
  pub allowed_symbols : List String
  pub track_id : ℕ
  pub exit_bounds : ExitBounds
  pub account_risk_bounds : AccountRiskBounds
  pub daily_realized_pnl_usdc : ℤ
  pub default_exit : List ExitRuleInput
  pub eip712 : TypedDomain
  pub trade_router : Text
  pub token : Option Text

pub record PositionQuote : Type 0 where
  pub agent_id : Text
  pub position_id : Text
  pub signer : Text
  pub nonce : Text
  pub eip712 : TypedDomain
  pub trade_router : Text
  pub position : PositionRecord
  pub exit_bounds : ExitBounds
  pub allocation : Option AllocationQuote

pub record ExitLadderQuote : Type 0 where
  pub base : PositionQuote
  pub current_rules : List ExitRuleInput
  pub pending_rules : List ExitRuleInput
  pub next_rule_index : ℕ

abbrev pub quoted_allocation : Allocation → AllocationQuote
quoted_allocation a = record { used = a.used; cap = a.cap; available = available_of a }

-- The order of JavaScript's `sort`, by code units.
abbrev pub symbol_leb : Text → Text → Bool
symbol_leb [] t = true
symbol_leb (c ∷ s) [] = false
symbol_leb (c ∷ s) (d ∷ t) = if c == d then symbol_leb s t else ltb c d

unfoldable pub insert_symbol : String → List String → List String
insert_symbol x [] = x ∷ []
insert_symbol x (y ∷ ys) =
    let later = insert_symbol x ys in
    if symbol_leb (codes x) (codes y) then x ∷ y ∷ ys else y ∷ later

unfoldable pub sort_symbols : List String → List String
unfolding insert_symbol
sort_symbols [] = []
sort_symbols (x ∷ xs) = insert_symbol x (sort_symbols xs)

-- A failed read skips the symbol.
abbrev pub symbol_if : Result OrderFailure Bool → String → List String → List String
symbol_if (ok true) symbol rest = symbol ∷ rest
symbol_if (ok false) symbol rest = rest
symbol_if (err e) symbol rest = rest

-- `if (symbol)`: an empty one is not asked for.
abbrev pub asked_symbol : Option String → Option String
asked_symbol none = none
asked_symbol (some String.[]) = none
asked_symbol (some (String.◌∷◌ c s)) = some (String.◌∷◌ c s)

module _ {W : Type 0} (chain : Chain W) where
  -- A null or empty address is skipped.
  unfoldable pub allowed_among : W → Text → List (String × Option Text) → List String
  allowed_among w vault [] = []
  allowed_among w vault ((symbol, none) ∷ more) = allowed_among w vault more
  allowed_among w vault ((symbol, some []) ∷ more) = allowed_among w vault more
  allowed_among w vault ((symbol, some (c ∷ s)) ∷ more) =
      symbol_if (chain.is_allowed_token w vault (c ∷ s)) symbol (allowed_among w vault more)

  module _ (config : TradingConfig) (catalog : TokenCatalog) where
    unfoldable pub list_allowed_symbols : W → Text → List String
    unfolding allowed_among sort_symbols
    list_allowed_symbols w vault =
        sort_symbols (allowed_among w vault (chain_tokens config.chain_id catalog.chains))

    -- The token of the symbol that a quote is asked for.
    abbrev pub quoted_token : W → Text → Option String → Result OrderFailure (Option Text)
    quoted_token w vault none = ok none
    quoted_token w vault (some symbol) = do
      token ←
          or_fail (resolve_token_address catalog config.chain_id symbol)
            (bad_request (codes "Unknown token symbol: " ++ codes symbol))
      assert_token_allowed chain w vault token
      ok (some token)

    unfoldable pub get_quote : W → Text → Option String → Result OrderFailure TradeIntentQuote
    unfolding list_allowed_symbols
    get_quote w agent_id_str symbol = do
      agent_id ← big_nat agent_id_str
      agent ← get_agent chain w agent_id
      nonce ← chain.nonces w agent_id
      domain ← chain.eip712_domain w
      exit_bounds ← get_exit_bounds chain config w agent.vault agent.track
      risk_bounds ← get_account_risk_bounds chain config w agent.vault agent.track
      daily ← chain.daily_realized_pnl_usdc w agent_id (chain.now w / 86400)
      allocation ← chain.get_allocation w agent_id
      token ← quoted_token w agent.vault (asked_symbol symbol)
      ok record {
        agent_id = agent_id_str;
        vault = agent.vault;
        signer = agent.signer;
        nonce = to_string nonce;
        allocation = quoted_allocation allocation;
        allowed_symbols = list_allowed_symbols w agent.vault;
        track_id = agent.track;
        exit_bounds = exit_bounds;
        account_risk_bounds = risk_bounds;
        daily_realized_pnl_usdc = daily;
        default_exit = default_exit_ladder;
        eip712 = typed_domain chain config domain;
        trade_router = config.trade_router_address;
        token = token;
      }

    -- `includeAllocation`
    abbrev pub allocation_if : Bool → W → ℕ → Result OrderFailure (Option AllocationQuote)
    allocation_if false w agent_id = ok none
    allocation_if true w agent_id = do
      allocation ← chain.get_allocation w agent_id
      ok (some (quoted_allocation allocation))

    unfoldable pub build_position_quote : W → Text → Text → Bool → Result OrderFailure PositionQuote
    build_position_quote w agent_id_str position_id_str include_allocation = do
      agent_id ← big_nat agent_id_str
      position_id ← big_nat position_id_str
      agent ← get_agent chain w agent_id
      nonce ← chain.nonces w agent_id
      domain ← chain.eip712_domain w
      position ← chain.get_position w position_id
      exit_rules ← chain.get_exit_rules w position_id
      require_own_open position agent_id agent_id_str position_id_str
      exit_bounds ← get_exit_bounds chain config w position.vault agent.track
      allocation ← allocation_if include_allocation w agent_id
      ok record {
        agent_id = agent_id_str;
        position_id = position_id_str;
        signer = agent.signer;
        nonce = to_string nonce;
        eip712 = typed_domain chain config domain;
        trade_router = config.trade_router_address;
        position = map_position_record config catalog position exit_rules agent_id_str none none;
        exit_bounds = exit_bounds;
        allocation = allocation;
      }

    unfoldable pub get_add_quote : W → Text → Text → Result OrderFailure PositionQuote
    unfolding build_position_quote
    get_add_quote w agent_id_str position_id_str =
        build_position_quote w agent_id_str position_id_str true

    unfoldable pub get_reduce_quote : W → Text → Text → Result OrderFailure PositionQuote
    unfolding build_position_quote
    get_reduce_quote w agent_id_str position_id_str =
        build_position_quote w agent_id_str position_id_str false

    unfoldable pub get_exit_ladder_quote : W → Text → Text → Result OrderFailure ExitLadderQuote
    unfolding build_position_quote
    get_exit_ladder_quote w agent_id_str position_id_str = do
      base ← build_position_quote w agent_id_str position_id_str false
      ok record {
        base = base;
        current_rules = base.position.exit_rules;
        pending_rules = drop base.position.next_rule_index base.position.exit_rules;
        next_rule_index = base.position.next_rule_index;
      }
