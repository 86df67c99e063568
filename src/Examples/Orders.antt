-- ===== src/Examples/Orders.antt =====
-- Orders, their execution and closed positions at concrete inputs.
use protocol_monorepo.Common.{
  ℕ, ◌+◌, ◌≡◌, ◌⊎◌, refl, ap, none, some, List, [], ◌∷◌, ok, err, true, false, if◌then◌else◌, ◌==◌,
  take, arith,
}
use protocol_monorepo.Common.Int.{ℤ, pos, neg_ℕ}
use protocol_monorepo.Common.Text.{Text, codes, text_eq, text_eq_iff, to_upper_case}
use protocol_monorepo.Common.Decimal.{big_int, split_dot, pad_end}
use protocol_monorepo.Common.Decimal.Print.{to_string}
use protocol_monorepo.Tokens.Amount.{parse_human_amount, is_amount}
use protocol_monorepo.Tokens.Catalog.{TokenCatalog, chain_token_address}
use protocol_monorepo.Strategy.Decision.{ExitBounds}
use protocol_monorepo.Strategy.ExitRules.{
  OnChainExitRule, OnChainPositionIntent, default_exit_ladder, resolve_token_address,
  build_on_chain_intent,
}
use protocol_monorepo.Orders.Errors.{OrderFailure, big_nat}
use protocol_monorepo.Orders.Chain.{
  Chain, TradingConfig, AgentRecord, PositionOnChain, TypedDomain, TypedMessage, get_agent,
}
use protocol_monorepo.Orders.Checks.{get_exit_bounds, get_account_risk_bounds, assert_token_allowed}
use protocol_monorepo.Orders.Router.{open_position}
use protocol_monorepo.Orders.Submit.{OpenPositionRequest, submit_intent, opened_response}
use protocol_monorepo.Orders.Submit.Guards.{IsAuthorized, submit_intent-guarded}
use protocol_monorepo.Orders.Adjust.{AdjustRequest, reduce, submit_adjust_intent}
use protocol_monorepo.Orders.Adjust.Own.{Guarded, submit_adjust_intent-Guarded}
use protocol_monorepo.Orders.Quotes.{get_quote}
use protocol_monorepo.Orders.History.{
  GraphEquitySnapshot, Subgraph, CurrentEquity, EquityOptions, list_equity_history, OrderDirection,
  asc, desc, existing_agent,
}
use protocol_monorepo.Orders.History.Equity.{answer_of, list_equity_history_cut}
use protocol_monorepo.Orders.Execute.{
  OpenAction, trade_deadline, signed_open, execute_open, executed_trade, open_request,
}
use protocol_monorepo.Orders.Execute.Accepted.{execute_open-IsAuthorized}

abbrev vault : Text
vault = codes "0xva"

abbrev key_address : Text
key_address = codes "0xaa"

abbrev agent : AgentRecord
agent = record { vault = vault; signer = key_address; track = 1; status = 1 }

-- The second position is closed, the others are open.
abbrev position : ℕ → PositionOnChain
position id = record {
  position_id = id;
  agent_id = 7;
  vault = vault;
  token = codes "0xnv";
  token_amount = 5;
  entry_price_usdc = 100;
  usdc_cost_basis = 500;
  max_slippage_bps = 100;
  status = if id == 2 then 1 else 0;
  next_rule_index = 0;
  opened_at = 10;
}

abbrev bounds : ExitBounds
bounds = record {
  require_stop_loss = true;
  require_take_profit = false;
  max_stop_loss_bps = 2000;
  min_take_profit_bps = 100;
  max_take_profit_bps = 5000;
}

abbrev sign : TypedDomain → TypedMessage → Text
sign d m = d.name

abbrev router_address : Text
router_address = codes "0xro"

-- The chain counts its transactions, which are the agent's nonces.
abbrev chain : Chain ℕ
chain = record {
  now = λ w. 100;
  registry_get_agent = λ w id. ok agent;
  vault_of = λ w id. ok vault;
  signer_of = λ w id. ok key_address;
  nonces = λ w id. ok w;
  eip712_domain = λ w. ok record { name = codes "TR"; version = codes "1" };
  router_lens = λ w. ok (codes "0xle");
  daily_realized_pnl_usdc = λ w id day. ok (pos 0);
  get_allocation = λ w id. ok record { cap = 1000; used = 0 };
  vault_track_config = λ w v track. ok record {
    exit_bounds = bounds;
    risk_bounds = record { max_daily_loss_bps = 100; max_drawdown_bps = 100 };
  };
  is_allowed_token = λ w v token. ok true;
  get_position = λ w id. ok (position id);
  get_exit_rules = λ w id. ok [];
  realized_pnl_usdc = λ w id. ok (neg_ℕ 3);
  unrealized_pnl_usdc = λ w lens id. ok (pos 4);
  get_open_position_ids = λ w id. ok (1 ∷ 2 ∷ 3 ∷ []);
  position_count = λ w. ok 3;
  write_contract = λ w key call. (w + 1, ok (codes "0x01"));
  receipt = λ w hash. ok record {
    status = "success";
    logs = record { address = router_address; data_hex = []; topics = [] } ∷ [];
  };
  decode_event_log = λ d topics. some ("PositionOpenedFromIntent", 9);
  hash_exit_rules = λ rules. [];
  verify_typed_data = λ signer d m signature. ok (text_eq signature d.name);
}

abbrev config : TradingConfig
config = record {
  chain_id = 1;
  trade_router_address = router_address;
  trade_router_lens_address = none;
  vault_track_registry = some (codes "0xvt");
  executor_private_key = some (codes "0xke");
  usdc_decimals = 2;
}

abbrev catalog : TokenCatalog
catalog = record { tokens = []; chains = (1, ("NVDA", some (codes "0xnv")) ∷ []) ∷ [] }

abbrev agent_id : Text
agent_id = codes "7"

abbrev action : OpenAction
action = record {
  symbol = "NVDA";
  usdc_amount = codes "12.5";
  min_token_out = none;
  max_slippage_bps = none;
  exits = none;
}

abbrev request : OpenPositionRequest
request = open_request action default_exit_ladder (codes "3700") (codes "0") (codes "TR")

submit_intent-guarded_example :
    ((e : OrderFailure) × (submit_intent chain config catalog agent_id request 0 ≡ (0, err e)))
    ⊎ ((intent : OnChainPositionIntent) × IsAuthorized chain config 0 agent_id request intent
        × (submit_intent chain config catalog agent_id request 0
            ≡ opened_response chain config agent_id
                (open_position chain config intent (codes "TR") 0)))
submit_intent-guarded_example = submit_intent-guarded chain config 0 catalog agent_id request

abbrev reduction : AdjustRequest
reduction = record {
  position_id = codes "1";
  adjustment = reduce 10000;
  deadline = codes "3700";
  nonce = codes "0";
  signature = codes "TR";
}

submit_adjust_intent-Guarded_example :
    Guarded chain config 0 agent_id reduction
      (submit_adjust_intent chain config agent_id reduction 0)
submit_adjust_intent-Guarded_example =
    submit_adjust_intent-Guarded chain config 0 agent_id reduction

abbrev realized : ℕ → ℤ
realized id = neg_ℕ 3

abbrev rules : ℕ → List OnChainExitRule
rules id = []

signed_by_key : signed_open chain config catalog sign 0 agent_id action ≡ ok request
unfolding signed_open get_quote big_nat big_int get_agent get_exit_bounds get_account_risk_bounds
    resolve_token_address chain_token_address to_upper_case assert_token_allowed trade_deadline
    to_string build_on_chain_intent parse_human_amount is_amount split_dot pad_end
signed_by_key = refl

execute_open-IsAuthorized_example :
    (intent : OnChainPositionIntent) × IsAuthorized chain config 0 agent_id request intent
    × (execute_open chain config catalog sign agent_id action 0
        ≡ executed_trade (
            opened_response chain config agent_id
              (open_position chain config intent (codes "TR") 0)))
unfolding big_nat big_int get_agent
execute_open-IsAuthorized_example =
    execute_open-IsAuthorized chain config catalog 0 sign key_address agent_id action 7 agent refl
      refl
      (record {
        key = refl;
        active = refl;
        own_vault = refl;
        own_signer = refl;
        scheme = λ d m. ap ok ((text_eq_iff d.name d.name).1 refl);
      })
      refl (λ h. cc) request signed_by_key

abbrev snapshot : ℕ → GraphEquitySnapshot
snapshot time = record {
  block_number = time;
  block_timestamp = time;
  transaction_hash = none;
  log_index = none;
  trigger = codes "PositionOpened";
  allocation_cap = 1000;
  lifetime_realized_pnl_usdc = pos 0;
  unrealized_pnl_usdc = pos 0;
  equity_usdc = pos 1000;
  peak_equity_usdc = pos 1000;
  drawdown_bps = 0;
  return_bps = none;
}

-- The index stores snapshots of the times 1, 2 and 3, and answers in either order.
abbrev stored : List GraphEquitySnapshot
stored = snapshot 1 ∷ snapshot 2 ∷ snapshot 3 ∷ []

abbrev in_order : OrderDirection → List GraphEquitySnapshot
in_order asc = stored
in_order desc = snapshot 3 ∷ snapshot 2 ∷ snapshot 1 ∷ []

abbrev subgraph : Subgraph
subgraph = record {
  activities = λ id limit. err none;
  closed_positions = λ id limit. err none;
  equity_snapshots = λ q. ok (answer_of 9 (take q.first (in_order q.order_direction)));
}

abbrev tip : CurrentEquity
tip = record {
  timestamp = 100;
  equity_usdc = pos 1000;
  peak_equity_usdc = pos 1000;
  drawdown_bps = 0;
  return_bps = none;
}

abbrev options : EquityOptions
options = record {
  limit = some 2;
  from_timestamp = some 3;
  to_timestamp = none;
  include_current = none;
}

list_equity_history_cut_example :
    list_equity_history chain 0 agent_id (ok tip) (some subgraph) options
    ≡ ok (record { indexed_through_block = 9; points = []; current = some tip })
unfolding existing_agent big_nat big_int get_agent
list_equity_history_cut_example =
    list_equity_history_cut chain 0 agent_id (ok tip) subgraph options 7 9 3 stored (some tip) refl
      refl ((omega arith, (omega arith, tt)), ((omega arith, tt), (tt, tt))) refl refl (omega arith)
