-- ===== src/Orders/History/Lists.antt =====
-- `listClosedPositions`, `listTradeActivity` and `listEquityHistory`: with a subgraph they read it,
-- without one they scan the chain or refuse.
use protocol_monorepo.Common.{
  ℕ, Bool, true, false, Option, none, some, List, map, Result, ok, err, get_or_else, ◌>>=◌,
}
use protocol_monorepo.Common.Int.{ℤ}
use protocol_monorepo.Common.Text.{Text, codes}
use protocol_monorepo.Tokens.Catalog.{TokenCatalog}
use protocol_monorepo.Trading.LogScan.{Thrown, resolve_min_log_scan_block}
use protocol_monorepo.Trading.Activity.{Client, AgentTradeActivity, fetch_agent_trade_activity}
use protocol_monorepo.Orders.Errors.{OrderFailure, trading_error, or_not_found, big_nat}
use protocol_monorepo.Orders.Chain.{Chain, TradingConfig, get_agent}
use protocol_monorepo.Orders.Positions.{PositionRecord}
use protocol_monorepo.Orders.Closed.{scan_closed_positions}
use protocol_monorepo.Orders.History.Graph.{
  HistoryFailure, from_trading, from_logs, HttpResponse, GraphActivity, GraphClosedPosition,
  GraphEquitySnapshot, query_result, map_subgraph_activity, map_subgraph_closed_position,
  map_subgraph_equity_snapshots,
}

-- `agent { equitySnapshots }`, or null.
pub record SnapshotsAnswer : Type 0 where
  pub block_number : ℕ
  pub snapshots : Option (List GraphEquitySnapshot)

pub record ActivitiesAnswer : Type 0 where
  pub block_number : ℕ
  pub activities : List GraphActivity

pub data OrderDirection : Type 0 where
  asc desc : OrderDirection

-- What the query for the snapshots of an agent asks for: the first ones in the order of their times.
pub record EquitySnapshotsQuery : Type 0 where
  pub agent_id : Text
  pub order_direction : OrderDirection
  pub first : ℕ

-- `AGENT_EQUITY_SNAPSHOTS_QUERY` with its variables.
abbrev pub agent_equity_snapshots_query : Text → ℕ → EquitySnapshotsQuery
agent_equity_snapshots_query agent_id first = record {
  agent_id = agent_id;
  order_direction = asc;
  first = first;
}

-- What `fetch` answers to each query; to the first two, for an agent's id and a limit.
pub record Subgraph : Type 0 where
  pub activities : Text → ℕ → Result (Option Text) (HttpResponse ActivitiesAnswer)
  pub closed_positions : Text → ℕ → Result (Option Text) (HttpResponse (List GraphClosedPosition))
  pub equity_snapshots : EquitySnapshotsQuery → Result (Option Text) (HttpResponse SnapshotsAnswer)

pub record IndexedSnapshots : Type 0 where
  pub indexed_through_block : ℕ
  pub snapshots : List GraphEquitySnapshot

module _ (subgraph : Subgraph) where
  unfoldable pub list_agent_activities : Text → ℕ → Result HistoryFailure ActivitiesAnswer
  list_agent_activities agent_id_str limit = query_result (subgraph.activities agent_id_str limit)

  unfoldable pub indexed_closed_positions :
      Text → ℕ → Result HistoryFailure (List GraphClosedPosition)
  indexed_closed_positions agent_id_str limit =
      query_result (subgraph.closed_positions agent_id_str limit)

  unfoldable pub list_agent_equity_snapshots : Text → ℕ → Result HistoryFailure IndexedSnapshots
  list_agent_equity_snapshots agent_id_str limit = do
    answer ←
        query_result (subgraph.equity_snapshots (agent_equity_snapshots_query agent_id_str limit))
    ok record {
      indexed_through_block = answer.block_number;
      snapshots = get_or_else answer.snapshots List.[];
    }

-- The answers of the services about trades: from the index, or from the chain's logs.
pub data TradesAnswer : Type 0 where
  indexed : (through_block : ℕ) (trades : List GraphActivity) → TradesAnswer
  on_chain_events : (scanned_from_block : ℕ) (trades : List AgentTradeActivity) → TradesAnswer

-- The fields of the risk state that the current point shows.
pub record CurrentEquity : Type 0 where
  pub timestamp : ℕ
  pub equity_usdc : ℤ
  pub peak_equity_usdc : ℤ
  pub drawdown_bps : ℕ
  pub return_bps : Option ℤ

pub record EquityOptions : Type 0 where
  pub limit : Option ℕ
  pub from_timestamp : Option ℕ
  pub to_timestamp : Option ℕ
  pub include_current : Option Bool

pub record EquityHistory : Type 0 where
  pub indexed_through_block : ℕ
  pub points : List GraphEquitySnapshot
  pub current : Option CurrentEquity

abbrev pub as_history : {A : Type 0} → Result OrderFailure A → Result HistoryFailure A
as_history (ok a) = ok a
as_history (err e) = err (from_trading e)

abbrev pub as_history_scan :
    {A : Type 0} → Option (Result OrderFailure A) → Option (Result HistoryFailure A)
as_history_scan none = none
as_history_scan (some r) = some (as_history r)

abbrev pub trades_from :
    ℕ
    → Option (Result Thrown (List AgentTradeActivity))
    → Option (Result HistoryFailure TradesAnswer)
trades_from min_block none = none
trades_from min_block (some (err e)) = some (err (from_logs e))
trades_from min_block (some (ok trades)) = some (ok (on_chain_events min_block trades))

-- A value that is there goes on; an error ends the request.
abbrev pub scan_after :
    {A B : Type 0}
    → Result OrderFailure A
    → (A → Option (Result HistoryFailure B))
    → Option (Result HistoryFailure B)
scan_after (err e) next = some (err (from_trading e))
scan_after (ok a) next = next a

module _ {W : Type 0} (chain : Chain W) (w : W) where
  -- The agent's id, when the agent exists.
  unfoldable pub existing_agent : Text → Result OrderFailure ℕ
  existing_agent agent_id_str = do
    agent_id ← big_nat agent_id_str
    agent ← or_not_found (get_agent chain w agent_id)
    ok agent_id

  module _ (config : TradingConfig) (catalog : TokenCatalog) (limit : ℕ) (agent_id_str : Text) where
    abbrev pub closed_from :
        Option Subgraph → ℕ → Option (Result HistoryFailure (List PositionRecord))
    closed_from none agent_id =
        as_history_scan (scan_closed_positions chain config catalog w agent_id_str agent_id limit)
    closed_from (some subgraph) agent_id = some (do
      positions ← indexed_closed_positions subgraph agent_id_str limit
      ok (map (map_subgraph_closed_position agent_id_str) positions))

    -- `none` is a scan that has not ended within its fuel.
    unfoldable pub list_closed_positions :
        Option Subgraph → Option (Result HistoryFailure (List PositionRecord))
    unfolding existing_agent indexed_closed_positions
    list_closed_positions subgraph = scan_after (existing_agent agent_id_str) (closed_from subgraph)

    -- The log scan of `Trading.Activity`, with its lower bound as the parameter's.
    abbrev pub activity_from :
        Option Subgraph
        → Client
        → Bool
        → Option ℕ
        → Option ℕ
        → ℕ
        → Option (Result HistoryFailure TradesAnswer)
    activity_from none client has_position_manager chain_from_block query_from_block agent_id =
        let min_block = resolve_min_log_scan_block chain_from_block query_from_block in
        trades_from min_block (
          fetch_agent_trade_activity client catalog config.chain_id has_position_manager limit
            min_block)
    activity_from (some subgraph) client has_position_manager chain_from_block query_from_block
          agent_id =
        some (do
          answer ← list_agent_activities subgraph agent_id_str limit
          ok (indexed answer.block_number (map map_subgraph_activity answer.activities)))

    unfoldable pub list_trade_activity :
        Option Subgraph
        → Client
        → Bool
        → Option ℕ
        → Option ℕ
        → Option (Result HistoryFailure TradesAnswer)
    unfolding existing_agent list_agent_activities
    list_trade_activity subgraph client has_position_manager chain_from_block query_from_block =
        scan_after (existing_agent agent_id_str)
          (activity_from subgraph client has_position_manager chain_from_block query_from_block)

  module _ (agent_id_str : Text) (risk : Result HistoryFailure CurrentEquity) where
    -- `includeCurrent`; `risk` is what `getRiskState` answers, with the time.
    abbrev pub current_if : Bool → Result HistoryFailure (Option CurrentEquity)
    current_if false = ok none
    current_if true = do tip ← risk; ok (some tip)

    abbrev pub equity_from : Option Subgraph → EquityOptions → Result HistoryFailure EquityHistory
    equity_from none options = err (
        from_trading
          (trading_error (codes "Equity history requires SUBGRAPH_URL to be configured") 503))
    equity_from (some subgraph) options = do
      answer ← list_agent_equity_snapshots subgraph agent_id_str (get_or_else options.limit 200)
      tip ← current_if (get_or_else options.include_current true)
      ok record {
        indexed_through_block = answer.indexed_through_block;
        points =
            map_subgraph_equity_snapshots answer.snapshots options.from_timestamp
              options.to_timestamp;
        current = tip;
      }

    unfoldable pub list_equity_history :
        Option Subgraph → EquityOptions → Result HistoryFailure EquityHistory
    unfolding existing_agent list_agent_equity_snapshots
    list_equity_history subgraph options = do
      agent_id ← as_history (existing_agent agent_id_str)
      equity_from subgraph options
