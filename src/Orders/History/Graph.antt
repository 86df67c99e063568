-- ===== src/Orders/History/Graph.antt =====
-- What the subgraph answers and how it is mapped. Its numbers come as decimal strings and stand as
-- the numbers; texts that it leaves out are `none`.
use protocol_monorepo.Common.{
  ℕ, Bool, true, false, not, ◌++◌, Option, none, some, List, [], ◌∷◌, map, drop, filter_by, Result,
  ok, err, leb, ltb, if◌then◌else◌, get_or_else, ◌>>=◌, ◌>>◌, fail_if, or_fail,
}
use protocol_monorepo.Common.Int.{ℤ, pos}
use protocol_monorepo.Common.Text.{Text, codes, join, includes}
use protocol_monorepo.Common.Decimal.Print.{to_string}
use protocol_monorepo.Trading.LogScan.{Thrown}
use protocol_monorepo.Trading.Metrics.{position_return_bps, position_total_pnl_usdc}
use protocol_monorepo.Strategy.Decision.{TriggerType, ExitRuleInput, is_closed}
use protocol_monorepo.Orders.Errors.{OrderFailure}
use protocol_monorepo.Orders.Positions.{PositionRecord}

-- A `SubgraphError`, an error of the trading service, or one of the log scan.
pub data HistoryFailure : Type 0 where
  subgraph_error : (message : Text) (status : ℕ) → HistoryFailure
  from_trading : OrderFailure → HistoryFailure
  from_logs : Thrown → HistoryFailure

-- `GraphqlResponse`. A body that is no JSON is left out.
pub record GraphqlResponse (T : Type 0) : Type 0 where
  pub data_field : Option T
  pub errors : List Text

pub record HttpResponse (T : Type 0) : Type 0 where
  pub is_ok : Bool
  pub status : ℕ
  pub status_text : Text
  pub payload : GraphqlResponse T

abbrev pub outdated_schema : Text
outdated_schema =
    codes
      ". The deployed subgraph schema is outdated — redeploy with AgentEquitySnapshot (scripts/deploy-subgraph.sh) and wait for sync."

-- `if (payload.errors?.length)`
abbrev pub refuse_errors : List Text → Result HistoryFailure (Unit {0})
refuse_errors [] = ok tt
refuse_errors (e ∷ es) =
    let message = join (codes "; ") (e ∷ es) in
    if includes (codes "has no field") message
    then err (subgraph_error (message ++ outdated_schema) 503)
    else err (subgraph_error message 502)

-- `fetch` throws an `Error` with a message, or another value.
abbrev pub or_request_failed : {A : Type 0} → Result (Option Text) A → Result HistoryFailure A
or_request_failed (ok a) = ok a
or_request_failed (err e) =
    err (subgraph_error (get_or_else e (codes "Subgraph request failed")) 502)

-- `query`, from the outcome of `fetch`.
unfoldable pub query_result :
    {T : Type 0} → Result (Option Text) (HttpResponse T) → Result HistoryFailure T
query_result fetched = do
  response ← or_request_failed fetched
  fail_if (not response.is_ok) (
      subgraph_error
        (codes "Subgraph HTTP " ++ to_string response.status ++ codes ": " ++ response.status_text)
        502)
  refuse_errors response.payload.errors
  or_fail response.payload.data_field (subgraph_error (codes "Subgraph returned no data") 502)

pub record GraphExitRule : Type 0 where
  pub index : ℕ
  pub trigger_type : TriggerType
  pub trigger_bps : ℤ
  pub exit_bps : ℕ

pub record GraphClosedPosition : Type 0 where
  pub id : ℕ
  pub symbol : Text
  pub token : Text
  pub vault : Text
  pub token_amount : ℕ
  pub entry_price_usdc : ℕ
  pub usdc_cost_basis : ℕ
  pub max_slippage_bps : ℕ
  pub next_rule_index : ℕ
  pub exit_rules : List GraphExitRule
  pub opened_at : ℕ
  pub realized_pnl_usdc : Option ℤ

-- The fields of an activity that may be missing.
pub record ActivityFields : Type 0 where
  pub vault : Option Text
  pub token : Option Text
  pub symbol : Option Text
  pub usdc_in : Option Text
  pub usdc_out : Option Text
  pub tokens_added : Option Text
  pub exit_bps : Option ℕ
  pub rule_index : Option ℕ
  pub next_rule_index : Option ℕ
  pub keeper : Option Text
  pub keeper_bounty : Option Text
  pub operator : Option Text
  pub realized_pnl_usdc : Option Text

pub record GraphActivity : Type 0 where
  pub type : Text
  pub position_id : Text
  pub block_number : Text
  pub block_timestamp : Text
  pub transaction_hash : Text
  pub log_index : ℕ
  pub source : Text
  pub fields : ActivityFields

pub record GraphEquitySnapshot : Type 0 where
  pub block_number : ℕ
  pub block_timestamp : ℕ
  pub transaction_hash : Option Text
  pub log_index : Option ℕ
  pub trigger : Text
  pub allocation_cap : ℕ
  pub lifetime_realized_pnl_usdc : ℤ
  pub unrealized_pnl_usdc : ℤ
  pub equity_usdc : ℤ
  pub peak_equity_usdc : ℤ
  pub drawdown_bps : ℕ
  pub return_bps : Option ℤ

-- A missing text and an empty one are left out.
abbrev pub present : Option Text → Option Text
present none = none
present (some []) = none
present (some (c ∷ s)) = some (c ∷ s)

unfoldable pub map_subgraph_activity : GraphActivity → GraphActivity
map_subgraph_activity a = record a {
  fields = record {
    vault = present a.fields.vault;
    token = present a.fields.token;
    symbol = present a.fields.symbol;
    usdc_in = present a.fields.usdc_in;
    usdc_out = present a.fields.usdc_out;
    tokens_added = present a.fields.tokens_added;
    exit_bps = a.fields.exit_bps;
    rule_index = a.fields.rule_index;
    next_rule_index = a.fields.next_rule_index;
    keeper = present a.fields.keeper;
    keeper_bounty = present a.fields.keeper_bounty;
    operator = present a.fields.operator;
    realized_pnl_usdc = present a.fields.realized_pnl_usdc;
  };
}

abbrev pub map_graph_rule : GraphExitRule → ExitRuleInput
map_graph_rule rule = record {
  trigger_type = rule.trigger_type;
  trigger_bps = rule.trigger_bps;
  exit_bps = rule.exit_bps;
}

-- `slice().sort((a, b) => a.index - b.index)`, which keeps the order of equal indexes.
unfoldable pub insert_rule : GraphExitRule → List GraphExitRule → List GraphExitRule
insert_rule r [] = r ∷ []
insert_rule r (s ∷ rules) =
    let later = insert_rule r rules in if leb r.index s.index then r ∷ s ∷ rules else s ∷ later

unfoldable pub sort_rules : List GraphExitRule → List GraphExitRule
unfolding insert_rule
sort_rules [] = []
sort_rules (r ∷ rules) = insert_rule r (sort_rules rules)

unfoldable pub map_subgraph_closed_position : Text → GraphClosedPosition → PositionRecord
unfolding sort_rules
map_subgraph_closed_position agent_id_str position =
    let mapped_rules = map map_graph_rule (sort_rules position.exit_rules) in
    let realized = get_or_else position.realized_pnl_usdc (pos 0) in
    let total_pnl = position_total_pnl_usdc false none (some realized) in
    record {
      position_id = position.id;
      agent_id = agent_id_str;
      symbol = position.symbol;
      token = position.token;
      vault = position.vault;
      token_amount = position.token_amount;
      entry_price_usdc = position.entry_price_usdc;
      usdc_cost_basis = position.usdc_cost_basis;
      max_slippage_bps = position.max_slippage_bps;
      status = is_closed;
      next_rule_index = position.next_rule_index;
      exit_rules = mapped_rules;
      pending_rules = drop position.next_rule_index mapped_rules;
      opened_at = position.opened_at;
      unrealized_pnl_usdc = none;
      realized_pnl_usdc = some realized;
      total_pnl_usdc = total_pnl;
      return_bps = position_return_bps position.usdc_cost_basis total_pnl;
    }

-- `if (bound !== undefined && ts < bound) return false`, and the upper bound.
abbrev pub not_before : Option ℕ → ℕ → Bool
not_before none ts = true
not_before (some from) ts = not (ltb ts from)

abbrev pub not_after : Option ℕ → ℕ → Bool
not_after none ts = true
not_after (some last) ts = not (ltb last ts)

abbrev pub in_range : Option ℕ → Option ℕ → GraphEquitySnapshot → Bool
in_range from last snapshot =
    if not_before from snapshot.block_timestamp
    then not_after last snapshot.block_timestamp
    else false

abbrev pub map_subgraph_equity_snapshot : GraphEquitySnapshot → GraphEquitySnapshot
map_subgraph_equity_snapshot snapshot = record snapshot {
  transaction_hash = present snapshot.transaction_hash;
}

unfoldable pub map_subgraph_equity_snapshots :
    List GraphEquitySnapshot → Option ℕ → Option ℕ → List GraphEquitySnapshot
map_subgraph_equity_snapshots snapshots from last =
    map map_subgraph_equity_snapshot (filter_by (in_range from last) snapshots)
