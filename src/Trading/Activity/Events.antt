-- ===== src/Trading/Activity/Events.antt =====
-- The logs, the activities that they become, and the order of the activities.
use protocol_monorepo.Common.{
  ℕ, Bool, ◌&&◌, ◌||◌, Option, List, [], ◌∷◌, String, ltb, leb, ◌==◌, if◌then◌else◌,
}
use mathlib.Core.Option
use protocol_monorepo.Common.Int.{ℤ}
use protocol_monorepo.Common.Text.{Text}
use protocol_monorepo.Tokens.Catalog.{TokenCatalog, catalog_entry_for_address, TokenCatalogEntry}

pub data AgentTradeActivityType : Type 0 where
  position_opened position_increased position_reduced : AgentTradeActivityType
  exit_ladder_updated exit_executed position_force_closed : AgentTradeActivityType
  position_closed : AgentTradeActivityType

pub data AgentTradeActivitySource : Type 0 where
  trade_router position_manager : AgentTradeActivitySource

pub data TradeRouterEventName : Type 0 where
  position_opened_from_intent position_increased_from_intent : TradeRouterEventName
  position_reduced_from_intent position_exit_ladder_updated_from_intent : TradeRouterEventName
  exit_executed_event position_force_closed_event : TradeRouterEventName

abbrev pub trade_router_event_names : List TradeRouterEventName
trade_router_event_names =
    position_opened_from_intent ∷ position_increased_from_intent ∷ position_reduced_from_intent
    ∷ position_exit_ladder_updated_from_intent ∷ exit_executed_event ∷ position_force_closed_event
    ∷ []

-- `log.args` of every event: each reads its own fields only.
pub record LogArgs : Type 0 where
  pub position_id : ℕ
  pub vault : Text
  pub token : Text
  pub usdc_in : ℕ
  pub usdc_out : ℕ
  pub tokens_added : ℕ
  pub exit_bps : ℕ
  pub rule_index : ℕ
  pub next_rule_index : ℕ
  pub keeper : Text
  pub keeper_bounty : ℕ
  pub operator : Text
  pub realized_pnl_usdc : ℤ

pub record Log : Type 0 where
  pub args : LogArgs
  pub block_number : ℕ
  pub transaction_hash : Text
  pub log_index : ℕ

-- Decimal strings of numbers stand as the numbers; the fields of one event in `detail`.
pub data ActivityDetail : Type 0 where
  opened : (vault token : Text) (symbol : Option String) (usdc_in : ℕ) → ActivityDetail
  increased : (usdc_in tokens_added : ℕ) → ActivityDetail
  reduced : (exit_bps usdc_out : ℕ) → ActivityDetail
  ladder_updated : (next_rule_index : ℕ) → ActivityDetail
  executed : (rule_index : ℕ) (keeper : Text) (usdc_out keeper_bounty : ℕ) → ActivityDetail
  force_closed : (operator : Text) (usdc_out : ℕ) → ActivityDetail
  closed : (realized_pnl_usdc : ℤ) → ActivityDetail

pub record RawActivity : Type 0 where
  pub type : AgentTradeActivityType
  pub position_id : ℕ
  pub block_number : ℕ
  pub transaction_hash : Text
  pub log_index : ℕ
  pub source : AgentTradeActivitySource
  pub detail : ActivityDetail

router_activity : AgentTradeActivityType → ActivityDetail → Log → RawActivity
router_activity type detail log = record {
  type = type;
  position_id = log.args.position_id;
  block_number = log.block_number;
  transaction_hash = log.transaction_hash;
  log_index = log.log_index;
  source = trade_router;
  detail = detail;
}

module _ (catalog : TokenCatalog) (chain_id : ℕ) where
  unfoldable pub map_trade_router_log : TradeRouterEventName → Log → RawActivity
  unfolding router_activity
  map_trade_router_log position_opened_from_intent log =
      let symbol =
        Option.map TokenCatalogEntry.symbol
          (catalog_entry_for_address catalog chain_id log.args.token) in
      router_activity position_opened (opened log.args.vault log.args.token symbol log.args.usdc_in)
        log
  map_trade_router_log position_increased_from_intent log =
      router_activity position_increased (increased log.args.usdc_in log.args.tokens_added) log
  map_trade_router_log position_reduced_from_intent log =
      router_activity position_reduced (reduced log.args.exit_bps log.args.usdc_out) log
  map_trade_router_log position_exit_ladder_updated_from_intent log =
      router_activity exit_ladder_updated (ladder_updated log.args.next_rule_index) log
  map_trade_router_log exit_executed_event log =
      router_activity exit_executed
        (executed log.args.rule_index log.args.keeper log.args.usdc_out log.args.keeper_bounty) log
  map_trade_router_log position_force_closed_event log =
      router_activity position_force_closed (force_closed log.args.operator log.args.usdc_out) log

unfoldable pub map_position_closed_log : Log → RawActivity
map_position_closed_log log = record {
  type = position_closed;
  position_id = log.args.position_id;
  block_number = log.block_number;
  transaction_hash = log.transaction_hash;
  log_index = log.log_index;
  source = position_manager;
  detail = closed log.args.realized_pnl_usdc;
}

-- `sortActivitiesNewestFirst(a, b) <= 0`: a may stand before b.
unfoldable pub newest_first : RawActivity → RawActivity → Bool
newest_first a b =
    ltb b.block_number a.block_number
    || (a.block_number == b.block_number && leb b.log_index a.log_index)

unfoldable pub insert_newest : RawActivity → List RawActivity → List RawActivity
insert_newest x [] = x ∷ []
insert_newest x (y ∷ ys) = if newest_first x y then x ∷ y ∷ ys else y ∷ insert_newest x ys

-- `activities.sort(sortActivitiesNewestFirst)`, which is stable.
unfoldable pub sort_newest_first : List RawActivity → List RawActivity
unfolding insert_newest newest_first
sort_newest_first [] = []
sort_newest_first (x ∷ xs) = insert_newest x (sort_newest_first xs)
