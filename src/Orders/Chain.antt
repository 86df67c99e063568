-- ===== src/Orders/Chain.antt =====
-- What the trading services read and write on chain, as a record of functions of the chain's state,
-- and the reads of api/src/services/agent-registry.service.ts. Contracts and signatures are
-- arguments; a read takes what is behind the contract's address.
use protocol_monorepo.Common.{ℕ, String, Bool, ◌++◌, List, Option, Result, ok, err, if◌then◌else◌}
use protocol_monorepo.Common.Int.{ℤ}
use protocol_monorepo.Common.Text.{Text, codes}
use protocol_monorepo.Common.Decimal.Print.{to_string}
use protocol_monorepo.Strategy.ExitRules.{OnChainExitRule, OnChainPositionIntent}
use protocol_monorepo.Strategy.Decision.{ExitBounds}
use protocol_monorepo.Trading.Risk.{Allocation}
use protocol_monorepo.Orders.Errors.{OrderFailure, agent_not_found_error, is_contract_revert}

-- The fields that trading reads.
pub record AgentRecord : Type 0 where
  pub vault : Text
  pub signer : Text
  pub track : ℕ
  pub status : ℕ

pub record PositionOnChain : Type 0 where
  pub position_id : ℕ
  pub agent_id : ℕ
  pub vault : Text
  pub token : Text
  pub token_amount : ℕ
  pub entry_price_usdc : ℕ
  pub usdc_cost_basis : ℕ
  pub max_slippage_bps : ℕ
  pub status : ℕ
  pub next_rule_index : ℕ
  pub opened_at : ℕ

pub record AccountRiskBounds : Type 0 where
  pub max_daily_loss_bps : ℕ
  pub max_drawdown_bps : ℕ

-- `getVaultTrackConfig`, the fields that quotes read.
pub record VaultTrackConfig : Type 0 where
  pub exit_bounds : ExitBounds
  pub risk_bounds : AccountRiskBounds

pub record Eip712Domain : Type 0 where
  pub name : Text
  pub version : Text

pub record TypedDomain : Type 0 where
  pub name : Text
  pub version : Text
  pub chain_id : ℕ
  pub verifying_contract : Text

pub record AddToPositionIntent : Type 0 where
  pub agent_id : ℕ
  pub position_id : ℕ
  pub usdc_amount : ℤ
  pub min_token_out : ℤ
  pub max_slippage_bps : ℕ
  pub deadline : ℕ
  pub nonce : ℕ

pub record ReducePositionIntent : Type 0 where
  pub agent_id : ℕ
  pub position_id : ℕ
  pub exit_bps : ℕ
  pub deadline : ℕ
  pub nonce : ℕ

pub record UpdateExitLadderIntent : Type 0 where
  pub agent_id : ℕ
  pub position_id : ℕ
  pub exits : List OnChainExitRule
  pub deadline : ℕ
  pub nonce : ℕ

-- The typed messages, with the primary type as the constructor.
pub data TypedMessage : Type 0 where
  open_message :
      (agent_id : ℕ) (vault token : Text) (usdc_amount min_token_out : ℤ) (max_slippage_bps : ℕ)
      (exits_hash : Text) (deadline nonce : ℕ)
      → TypedMessage
  add_message :
      (agent_id position_id : ℕ) (usdc_amount min_token_out : ℤ)
      (max_slippage_bps deadline nonce : ℕ)
      → TypedMessage
  reduce_message : (agent_id position_id exit_bps deadline nonce : ℕ) → TypedMessage
  update_message :
      (agent_id position_id : ℕ) (exits_hash : Text) (deadline nonce : ℕ) → TypedMessage

-- `functionName` and `args` of a transaction to the router.
pub data RouterCall : Type 0 where
  open_call : (intent : OnChainPositionIntent) (signature : Text) → RouterCall
  add_call : (intent : AddToPositionIntent) (signature : Text) → RouterCall
  reduce_call : (intent : ReducePositionIntent) (signature : Text) → RouterCall
  update_call : (intent : UpdateExitLadderIntent) (signature : Text) → RouterCall

pub record RouterLog : Type 0 where
  pub address : Text
  pub data_hex : Text
  pub topics : List Text

pub record Receipt : Type 0 where
  pub status : String
  pub logs : List RouterLog

pub record TradingConfig : Type 0 where
  pub chain_id : ℕ
  pub trade_router_address : Text
  pub trade_router_lens_address : Option Text
  pub vault_track_registry : Option Text
  pub executor_private_key : Option Text
  pub usdc_decimals : ℕ

-- A read may throw. `now` is in seconds.
pub record Chain (W : Type 0) : Type 0 where
  pub now : W → ℕ
  pub registry_get_agent : W → ℕ → Result OrderFailure AgentRecord
  pub vault_of : W → ℕ → Result OrderFailure Text
  pub signer_of : W → ℕ → Result OrderFailure Text
  pub nonces : W → ℕ → Result OrderFailure ℕ
  pub eip712_domain : W → Result OrderFailure Eip712Domain
  pub router_lens : W → Result OrderFailure Text
  pub daily_realized_pnl_usdc : W → ℕ → ℕ → Result OrderFailure ℤ
  pub get_allocation : W → ℕ → Result OrderFailure Allocation
  pub vault_track_config : W → Text → ℕ → Result OrderFailure VaultTrackConfig
  pub is_allowed_token : W → Text → Text → Result OrderFailure Bool
  pub get_position : W → ℕ → Result OrderFailure PositionOnChain
  pub get_exit_rules : W → ℕ → Result OrderFailure (List OnChainExitRule)
  pub realized_pnl_usdc : W → ℕ → Result OrderFailure ℤ
  pub unrealized_pnl_usdc : W → Text → ℕ → Result OrderFailure ℤ
  pub get_open_position_ids : W → ℕ → Result OrderFailure (List ℕ)
  pub position_count : W → Result OrderFailure ℕ
  pub write_contract : W → Text → RouterCall → W × Result OrderFailure Text
  pub receipt : W → Text → Result OrderFailure Receipt
  -- `decodeEventLog`; `none` when it throws.
  pub decode_event_log : Text → List Text → Option (String × ℕ)
  pub hash_exit_rules : List OnChainExitRule → Text
  pub verify_typed_data : Text → TypedDomain → TypedMessage → Text → Result OrderFailure Bool

abbrev pub agent_missing : OrderFailure → ℕ → OrderFailure
agent_missing e agent_id =
    if is_contract_revert e (codes "AgentNotFound")
    then agent_not_found_error (codes "Agent not found: " ++ to_string agent_id)
    else e

abbrev pub or_missing : Result OrderFailure AgentRecord → ℕ → Result OrderFailure AgentRecord
or_missing (ok agent) agent_id = ok agent
or_missing (err e) agent_id = err (agent_missing e agent_id)

module _ {W : Type 0} (chain : Chain W) where
  unfoldable pub get_agent : W → ℕ → Result OrderFailure AgentRecord
  get_agent w agent_id = or_missing (chain.registry_get_agent w agent_id) agent_id
