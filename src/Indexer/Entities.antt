-- ===== src/Indexer/Entities.antt =====
-- subgraph/schema.graphql, subgraph/src/lib/entities.ts, and the calls of the chain. An entity's key
-- is the number, the pair or the triple that its text id is written from. A read of a contract that
-- is reverted is `none`.
use protocol_monorepo.Common.{
  ℕ, ◌+◌, ◌%◌, ◌^◌, ◌==◌, String, Bool, false, List, [], if◌then◌else◌, Option, none, some,
}
use protocol_monorepo.Common.Int.{ℤ}
use protocol_monorepo.Common.Text.{Text}

pub record AgentEntity : Type 0 where
  pub owner : Text
  pub signer : Text
  pub payout_recipient : Text
  pub vault : Text
  pub track : ℕ
  pub status : ℕ
  pub name : Text
  pub metadata_uri : Text
  pub created_at : ℕ
  pub has_erc8004_identity : Bool
  pub erc8004_agent_id : ℕ
  pub positions_opened : ℕ
  pub positions_closed : ℕ
  pub open_position_count : ℕ

pub record AllocationEntity : Type 0 where
  pub agent : ℕ
  pub vault : Text
  pub track_id : ℕ
  pub cap : ℕ
  pub used : ℕ
  pub status : ℕ
  pub created_at : ℕ
  pub updated_at : ℕ

pub data EntityStatus : Type 0 where
  entity_open entity_closed : EntityStatus

pub record PositionEntity : Type 0 where
  pub agent : ℕ
  pub vault : Text
  pub token : Text
  pub symbol : Text
  pub token_amount : ℕ
  pub entry_price_usdc : ℕ
  pub usdc_cost_basis : ℕ
  pub max_slippage_bps : ℕ
  pub status : EntityStatus
  pub next_rule_index : ℕ
  pub opened_at : ℕ
  pub closed_at : Option ℕ
  pub realized_pnl_usdc : Option ℤ
  pub opened_tx_hash : Text
  pub closed_tx_hash : Option Text

pub record ExitRuleEntity : Type 0 where
  pub position : ℕ
  pub index : ℕ
  pub trigger_type : String
  pub trigger_bps : ℤ
  pub exit_bps : ℕ

-- The transaction hash and the log index are the key; what an activity does not set is null.
pub record ActivityEntity : Type 0 where
  pub agent : ℕ
  pub position : ℕ
  pub activity_type : String
  pub source : String
  pub block_number : ℕ
  pub block_timestamp : ℕ
  pub vault : Option Text
  pub token : Option Text
  pub symbol : Option Text
  pub usdc_in : Option ℕ
  pub usdc_out : Option ℕ
  pub tokens_added : Option ℕ
  pub exit_bps : Option ℕ
  pub rule_index : Option ℕ
  pub next_rule_index : Option ℕ
  pub keeper : Option Text
  pub keeper_bounty : Option ℕ
  pub operator : Option Text
  pub realized_pnl_usdc : Option ℤ

pub record SnapshotEntity : Type 0 where
  pub agent : ℕ
  pub block_number : ℕ
  pub block_timestamp : ℕ
  pub transaction_hash : Text
  pub log_index : ℕ
  pub trigger : String
  pub allocation_cap : ℕ
  pub lifetime_realized_pnl_usdc : ℤ
  pub unrealized_pnl_usdc : ℤ
  pub equity_usdc : ℤ
  pub peak_equity_usdc : ℤ
  pub drawdown_bps : ℤ
  pub return_bps : Option ℤ

-- Each kind of entity by its key.
pub record Entities : Type 0 where
  pub agents : ℕ → Option AgentEntity
  pub allocations : ℕ → Option AllocationEntity
  pub positions : ℕ → Option PositionEntity
  pub exit_rules : ℕ → ℕ → Option ExitRuleEntity
  pub activities : Text → ℕ → Option ActivityEntity
  pub snapshots : ℕ → ℕ → ℕ → Option SnapshotEntity

-- `save`: the entity under its key.
module _ {A : Type 0} where
  abbrev pub put : ℕ → A → (ℕ → Option A) → ℕ → Option A
  put key entity entities k = if k == key then some entity else entities k

pub record OnChainAgent : Type 0 where
  pub owner : Text
  pub signer : Text
  pub payout_recipient : Text
  pub vault : Text
  pub track : ℕ
  pub status : ℕ
  pub name : Text
  pub metadata_uri : Text
  pub created_at : ℕ
  pub has_erc8004_identity : Bool
  pub erc8004_agent_id : ℕ

pub record OnChainPosition : Type 0 where
  pub agent_id : ℕ
  pub vault : Text
  pub token : Text
  pub token_amount : ℕ
  pub entry_price_usdc : ℕ
  pub usdc_cost_basis : ℕ
  pub max_slippage_bps : ℕ
  pub next_rule_index : ℕ
  pub opened_at : ℕ
  pub status : ℕ
  pub realized_pnl_usdc : ℤ

pub record OnChainExitRule : Type 0 where
  pub trigger_type : ℕ
  pub trigger_bps : ℤ
  pub exit_bps : ℕ

-- What a handler reads besides its event and the entities.
pub record ChainReads : Type 0 where
  pub data_source_address : Text
  pub network : Text
  pub to_i32 : ℤ → ℤ
  pub try_get_agent : ℕ → Option OnChainAgent
  pub try_get_position : ℕ → Option OnChainPosition
  pub try_get_exit_rules : ℕ → Option (List OnChainExitRule)
  pub try_current_equity_usdc : ℕ → Option ℤ
  pub try_peak_equity_usdc : ℕ → Option ℤ
  pub try_current_drawdown_bps : ℕ → Option ℤ
  pub try_lifetime_realized_pnl_usdc : ℕ → Option ℤ

-- The event's place in the chain.
pub record EventPlace : Type 0 where
  pub block_number : ℕ
  pub block_timestamp : ℕ
  pub transaction_hash : Text
  pub log_index : ℕ

abbrev pub new_agent : Text → AgentEntity
new_agent address = record {
  owner = address;
  signer = address;
  payout_recipient = address;
  vault = address;
  track = 0;
  status = 1;
  name = [];
  metadata_uri = [];
  created_at = 0;
  has_erc8004_identity = false;
  erc8004_agent_id = 0;
  positions_opened = 0;
  positions_closed = 0;
  open_position_count = 0;
}

abbrev pub or_new_agent : Text → Option AgentEntity → AgentEntity
or_new_agent address none = new_agent address
or_new_agent address (some agent) = agent

abbrev pub load_or_create_agent : ChainReads → ℕ → Entities → AgentEntity
load_or_create_agent chain agent_id s = or_new_agent chain.data_source_address (s.agents agent_id)

-- `counter + 1` on the bits of an i32.
unfoldable pub increment : ℕ → ℕ
increment n = (n + 1) % 2 ^ 32
