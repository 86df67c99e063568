-- ===== src/Orders/Positions.antt =====
-- Positions as api/src/services/trading.service.ts reports them: mapPositionRecord, getPosition and
-- listOpenPositions. Decimal strings of amounts stand as the numbers.
pub mod Opened
use mathlib.Core.Option
use protocol_monorepo.Common.{
  ℕ, String, Bool, true, false, not, ◌&&◌, ◌||◌, ◌++◌, Option, none, some, List, [], ◌∷◌, map, drop,
  Result, ok, err, ◌==◌, if◌then◌else◌, ◌>>=◌, ◌>>◌, fail_if, get_or_else,
}
use protocol_monorepo.Common.Int.{ℤ, pos}
use protocol_monorepo.Common.Text.{Text, codes, to_lower, text_eq}
use protocol_monorepo.Common.Decimal.Print.{to_string}
use protocol_monorepo.Tokens.Catalog.{TokenCatalog, chain_tokens}
use protocol_monorepo.Trading.Metrics.{position_return_bps, position_total_pnl_usdc}
use protocol_monorepo.Strategy.Decision.{ExitRuleInput, PositionStatus, is_open, is_closed}
use protocol_monorepo.Strategy.ExitRules.{OnChainExitRule, map_on_chain_exit_rule}
use protocol_monorepo.Orders.Errors.{
  OrderFailure, trading_error, plain_error, or_not_found, big_nat,
}
use protocol_monorepo.Orders.Chain.{Chain, TradingConfig, PositionOnChain, get_agent}
use protocol_monorepo.Orders.Checks.{position_status_open, position_status_closed}
use protocol_monorepo.Orders.Router.{LensCache, not_looked_up, get_trade_router_lens_address}

-- The position of `GetAgentPositionResponse`.
pub record PositionRecord : Type 0 where
  pub position_id : ℕ
  pub agent_id : Text
  pub symbol : Text
  pub token : Text
  pub vault : Text
  pub token_amount : ℕ
  pub entry_price_usdc : ℕ
  pub usdc_cost_basis : ℕ
  pub max_slippage_bps : ℕ
  pub status : PositionStatus
  pub next_rule_index : ℕ
  pub exit_rules : List ExitRuleInput
  pub pending_rules : List ExitRuleInput
  pub opened_at : ℕ
  pub unrealized_pnl_usdc : Option ℤ
  pub realized_pnl_usdc : Option ℤ
  pub total_pnl_usdc : ℤ
  pub return_bps : Option ℤ

-- `address?.toLowerCase() === token.toLowerCase()`
abbrev pub same_address : Option Text → Text → Bool
same_address none token = false
same_address (some address) token = text_eq (map to_lower address) (map to_lower token)

unfoldable pub symbol_among : List (String × Option Text) → Text → Text
symbol_among [] token = token
symbol_among ((symbol, address) ∷ more) token =
    let later = symbol_among more token in
    if same_address address token then codes symbol else later

module _ (config : TradingConfig) (catalog : TokenCatalog) where
  unfoldable pub symbol_of_token : Text → Text
  symbol_of_token token = symbol_among (chain_tokens config.chain_id catalog.chains) token

  unfoldable pub map_position_record :
      PositionOnChain → List OnChainExitRule → Text → Option ℤ → Option ℤ → PositionRecord
  unfolding symbol_of_token
  map_position_record position exit_rules agent_id_str unrealized realized =
      let mapped_rules = map map_on_chain_exit_rule exit_rules in
      let open_now = position.status == position_status_open in
      let total_pnl = position_total_pnl_usdc open_now unrealized realized in
      record {
        position_id = position.position_id;
        agent_id = agent_id_str;
        symbol = symbol_of_token position.token;
        token = position.token;
        vault = position.vault;
        token_amount = position.token_amount;
        entry_price_usdc = position.entry_price_usdc;
        usdc_cost_basis = position.usdc_cost_basis;
        max_slippage_bps = position.max_slippage_bps;
        status = if open_now then is_open else is_closed;
        next_rule_index = position.next_rule_index;
        exit_rules = mapped_rules;
        pending_rules = drop position.next_rule_index mapped_rules;
        opened_at = position.opened_at;
        unrealized_pnl_usdc = unrealized;
        realized_pnl_usdc = realized;
        total_pnl_usdc = total_pnl;
        return_bps = position_return_bps position.usdc_cost_basis total_pnl;
      }

-- A read that a flag asks for.
abbrev pub read_if : {A : Type 0} → Bool → Result OrderFailure A → Result OrderFailure (Option A)
read_if false read = ok none
read_if true (ok a) = ok (some a)
read_if true (err e) = err e

-- `if (b) value else undefined`
abbrev pub some_if : {A : Type 0} → Bool → A → Option A
some_if false a = none
some_if true a = some a

abbrev pub push_some : {A : Type 0} → Option A → List A → List A
push_some none rest = rest
push_some (some a) rest = a ∷ rest

module _ {W : Type 0} (chain : Chain W) (config : TradingConfig) where
  -- `positionUnrealizedPnlUsdc` of the router service, which looks the lens up first.
  unfoldable pub position_unrealized_pnl_usdc : W → ℕ → Result OrderFailure ℤ
  position_unrealized_pnl_usdc w position_id = do
    lens ← (get_trade_router_lens_address chain config w not_looked_up).1
    chain.unrealized_pnl_usdc w lens position_id

  module _ (catalog : TokenCatalog) where
    unfoldable pub get_position_record : W → Text → Text → Result OrderFailure PositionRecord
    unfolding position_unrealized_pnl_usdc
    get_position_record w agent_id_str position_id_str = do
      agent_id ← big_nat agent_id_str
      position_id ← big_nat position_id_str
      agent ← or_not_found (get_agent chain w agent_id)
      position ← chain.get_position w position_id
      fail_if (not (position.agent_id == agent_id) || position.position_id == 0)
          (trading_error (codes "Position " ++ position_id_str ++ codes " not found") 404)
      exit_rules ← chain.get_exit_rules w position_id
      realized ← chain.realized_pnl_usdc w position_id
      unrealized ←
          read_if (position.status == position_status_open)
            (position_unrealized_pnl_usdc w position_id)
      ok (
          map_position_record config catalog position exit_rules agent_id_str unrealized
            (some_if (position.status == position_status_closed) realized))

    -- The loop's body for an id: its three results, and the record if the position is open.
    unfoldable pub open_record :
        Text
        → Result OrderFailure PositionOnChain
        → Result OrderFailure (List OnChainExitRule)
        → Result OrderFailure ℤ
        → Result OrderFailure (Option PositionRecord)
    open_record agent_id_str position_result exit_rules_result unrealized_result = do
      position ← position_result
      exit_rules ← exit_rules_result
      unrealized ← unrealized_result
      ok (
          some_if (position.status == position_status_open) (
            map_position_record config catalog position exit_rules agent_id_str (some unrealized)
              none))

    -- A call of a multicall answers what the single read answers. With no ids the code returns
    -- before the lens is looked up.
    unfoldable pub open_records :
        W → Text → Text → List ℕ → Result OrderFailure (List PositionRecord)
    unfolding open_record
    open_records w agent_id_str lens [] = ok []
    open_records w agent_id_str lens (position_id ∷ ids) = do
      record_here ←
          open_record agent_id_str (chain.get_position w position_id)
            (chain.get_exit_rules w position_id) (chain.unrealized_pnl_usdc w lens position_id)
      later ← open_records w agent_id_str lens ids
      ok (push_some record_here later)

    abbrev pub records_of_ids : W → Text → List ℕ → Result OrderFailure (List PositionRecord)
    records_of_ids w agent_id_str [] = ok []
    records_of_ids w agent_id_str (position_id ∷ ids) = do
      lens ← (get_trade_router_lens_address chain config w not_looked_up).1
      open_records w agent_id_str lens (position_id ∷ ids)

    unfoldable pub list_open_positions : W → Text → Result OrderFailure (List PositionRecord)
    unfolding open_records
    list_open_positions w agent_id_str = do
      agent_id ← big_nat agent_id_str
      agent ← or_not_found (get_agent chain w agent_id)
      position_ids ← chain.get_open_position_ids w agent_id
      records_of_ids w agent_id_str position_ids
