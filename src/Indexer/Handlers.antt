-- ===== src/Indexer/Handlers.antt =====
-- subgraph/src/agent-registry.ts, allocation-manager.ts and position-manager.ts
use protocol_monorepo.Common.{
  ℕ, ◌-◌, ◌^◌, ltb, ◌==◌, ◌&&◌, String, true, if◌then◌else◌, Option, none, some,
}
use protocol_monorepo.Common.Int.{ℤ}
use protocol_monorepo.Common.Text.{Text}
use protocol_monorepo.Indexer.Entities.{
  AgentEntity, AllocationEntity, ExitRuleEntity, EntityStatus, entity_open, entity_closed,
  PositionEntity, Entities, put, OnChainAgent, OnChainPosition, ChainReads, EventPlace,
  load_or_create_agent, increment,
}
use protocol_monorepo.Indexer.Symbols.{symbol_for_token}
use protocol_monorepo.Indexer.Activities.{new_activity, save_activity}
use protocol_monorepo.Indexer.Snapshots.{
  record_equity_snapshot, sync_exit_rules, load_or_create_position,
}

abbrev pub with_agent_record : Option OnChainAgent → AgentEntity → AgentEntity
with_agent_record none agent = agent
with_agent_record (some on_chain) agent = record agent {
  owner = on_chain.owner;
  signer = on_chain.signer;
  payout_recipient = on_chain.payout_recipient;
  vault = on_chain.vault;
  track = on_chain.track;
  status = on_chain.status;
  name = on_chain.name;
  metadata_uri = on_chain.metadata_uri;
  created_at = on_chain.created_at;
  has_erc8004_identity = on_chain.has_erc8004_identity;
  erc8004_agent_id = on_chain.erc8004_agent_id;
}

-- `if (count > 0) count - 1`, on the bits of an i32.
abbrev pub decrement : ℕ → ℕ
decrement n = if ltb 0 n && ltb n (2 ^ 31) then n - 1 else n

abbrev pub opened_agent : AgentEntity → AgentEntity
opened_agent agent = record agent {
  positions_opened = increment agent.positions_opened;
  open_position_count = increment agent.open_position_count;
}

abbrev pub closed_agent : AgentEntity → AgentEntity
closed_agent agent = record agent {
  open_position_count = decrement agent.open_position_count;
  positions_closed = increment agent.positions_closed;
}

abbrev pub closed_position : EventPlace → ℤ → PositionEntity → PositionEntity
closed_position place realized_pnl_usdc position = record position {
  status = entity_closed;
  closed_at = some place.block_timestamp;
  closed_tx_hash = some place.transaction_hash;
  realized_pnl_usdc = some realized_pnl_usdc;
}

module _ (chain : ChainReads) (place : EventPlace) where
  abbrev save_agent : ℕ → AgentEntity → Entities → Entities
  save_agent agent_id agent s = record s { agents = put agent_id agent s.agents }

  unfoldable pub handle_agent_registered : ℕ → Entities → Entities
  handle_agent_registered agent_id s =
      save_agent agent_id
        (with_agent_record (chain.try_get_agent agent_id) (load_or_create_agent chain agent_id s)) s

  unfoldable pub handle_agent_status_changed : ℕ → ℕ → Entities → Entities
  handle_agent_status_changed agent_id new_status s =
      save_agent agent_id (record (load_or_create_agent chain agent_id s) { status = new_status }) s

  unfoldable pub handle_agent_promoted : ℕ → Text → ℕ → Entities → Entities
  handle_agent_promoted agent_id vault to_track s =
      save_agent agent_id
        (record (load_or_create_agent chain agent_id s) { vault = vault; track = to_track }) s

  unfoldable pub handle_agent_signer_updated : ℕ → Text → Entities → Entities
  handle_agent_signer_updated agent_id signer s =
      save_agent agent_id (record (load_or_create_agent chain agent_id s) { signer = signer }) s

  unfoldable pub handle_agent_ownership_transferred : ℕ → Text → Entities → Entities
  handle_agent_ownership_transferred agent_id to s =
      save_agent agent_id (record (load_or_create_agent chain agent_id s) { owner = to }) s

  unfoldable pub handle_erc8004_identity_linked : ℕ → ℕ → Entities → Entities
  handle_erc8004_identity_linked agent_id erc8004_agent_id s =
      save_agent agent_id
        (record (load_or_create_agent chain agent_id s) {
          has_erc8004_identity = true;
          erc8004_agent_id = erc8004_agent_id;
        })
        s

  abbrev load_or_create_allocation : ℕ → Text → Option AllocationEntity → AllocationEntity
  load_or_create_allocation agent_id agent_vault none = record {
    agent = agent_id;
    vault = agent_vault;
    track_id = 0;
    cap = 0;
    used = 0;
    status = 0;
    created_at = 0;
    updated_at = 0;
  }
  load_or_create_allocation agent_id agent_vault (some allocation) = allocation

  abbrev allocation_of : ℕ → Entities → AllocationEntity
  allocation_of agent_id s =
      load_or_create_allocation agent_id (AgentEntity.vault (load_or_create_agent chain agent_id s))
        (s.allocations agent_id)

  abbrev save_allocation : ℕ → AllocationEntity → Entities → Entities
  save_allocation agent_id allocation s = record s {
    allocations = put agent_id allocation s.allocations;
  }

  unfoldable pub handle_allocation_created : ℕ → Text → ℕ → ℕ → Entities → Entities
  handle_allocation_created agent_id vault track_id cap s =
      record_equity_snapshot chain place agent_id "AllocationCreated" (
        save_allocation agent_id
          (record (allocation_of agent_id s) {
            vault = vault;
            track_id = track_id;
            cap = cap;
            used = 0;
            status = 0;
            created_at = place.block_timestamp;
            updated_at = place.block_timestamp;
          })
          s)

  unfoldable pub handle_allocation_updated : ℕ → Text → ℕ → ℕ → ℕ → Entities → Entities
  handle_allocation_updated agent_id vault track_id cap status s =
      record_equity_snapshot chain place agent_id "AllocationUpdated" (
        save_allocation agent_id
          (record (allocation_of agent_id s) {
            vault = vault;
            track_id = track_id;
            cap = cap;
            status = status;
            updated_at = place.block_timestamp;
          })
          s)

  unfoldable pub handle_allocation_used_updated : ℕ → ℕ → Entities → Entities
  handle_allocation_used_updated agent_id used s =
      save_allocation agent_id
        (record (allocation_of agent_id s) { used = used; updated_at = place.block_timestamp }) s

  abbrev save_position : ℕ → PositionEntity → Entities → Entities
  save_position position_id position s = record s {
    positions = put position_id position s.positions;
  }

  abbrev status_of : ℕ → EntityStatus
  status_of status = if status == 0 then entity_open else entity_closed

  abbrev with_record : OnChainPosition → PositionEntity → PositionEntity
  with_record on_chain position = record position {
    vault = on_chain.vault;
    token = on_chain.token;
    symbol = symbol_for_token chain.network on_chain.token;
    token_amount = on_chain.token_amount;
    entry_price_usdc = on_chain.entry_price_usdc;
    usdc_cost_basis = on_chain.usdc_cost_basis;
    max_slippage_bps = on_chain.max_slippage_bps;
    next_rule_index = on_chain.next_rule_index;
    opened_at = on_chain.opened_at;
    status = status_of on_chain.status;
    realized_pnl_usdc =
        if on_chain.status == 1
        then some on_chain.realized_pnl_usdc
        else position.realized_pnl_usdc;
  }

  abbrev positions_from_chain :
      ℕ → Option OnChainPosition → (ℕ → Option PositionEntity) → ℕ → Option PositionEntity
  positions_from_chain position_id none positions = positions
  positions_from_chain position_id (some on_chain) positions =
      put position_id
        (with_record on_chain (load_or_create_position on_chain.agent_id (positions position_id)))
        positions

  -- The rules are read only behind the position.
  abbrev rules_behind : Option OnChainPosition → ℕ → Entities → ℕ → ℕ → Option ExitRuleEntity
  rules_behind none position_id s = s.exit_rules
  rules_behind (some on_chain) position_id s =
      sync_exit_rules position_id (chain.try_get_exit_rules position_id) s.exit_rules

  unfoldable pub apply_position_from_chain : ℕ → Entities → Entities
  apply_position_from_chain position_id s = record s {
    positions = positions_from_chain position_id (chain.try_get_position position_id) s.positions;
    exit_rules = rules_behind (chain.try_get_position position_id) position_id s;
  }

  unfoldable pub handle_position_opened : ℕ → ℕ → Text → Text → ℕ → ℕ → ℕ → Entities → Entities
  handle_position_opened position_id agent_id vault token token_amount entry_price_usdc
        usdc_cost_basis s =
      let counted : Entities =
        save_agent agent_id (opened_agent (load_or_create_agent chain agent_id s)) s in
      let opened : PositionEntity =
        record (load_or_create_position agent_id (s.positions position_id)) {
          vault = vault;
          token = token;
          symbol = symbol_for_token chain.network token;
          token_amount = token_amount;
          entry_price_usdc = entry_price_usdc;
          usdc_cost_basis = usdc_cost_basis;
          status = entity_open;
          opened_at = place.block_timestamp;
          opened_tx_hash = place.transaction_hash;
        } in
      record_equity_snapshot chain place agent_id "PositionOpened"
        (apply_position_from_chain position_id (save_position position_id opened counted))

  -- The handlers of an increase, a reduction and an exit by the ladder, by their trigger.
  unfoldable pub handle_position_changed : String → ℕ → ℕ → Entities → Entities
  handle_position_changed trigger position_id agent_id s =
      record_equity_snapshot chain place agent_id trigger (apply_position_from_chain position_id s)

  unfoldable pub handle_position_exit_ladder_updated : ℕ → Entities → Entities
  handle_position_exit_ladder_updated position_id s = apply_position_from_chain position_id s

  abbrev record_position_closed_activity : ℕ → ℕ → ℤ → Entities → Entities
  record_position_closed_activity agent_id position_id realized_pnl_usdc s =
      save_activity place
        (record (new_activity place agent_id position_id "PositionClosed" "PositionManager") {
          realized_pnl_usdc = some realized_pnl_usdc;
        })
        s

  unfoldable pub handle_position_closed : ℕ → ℕ → ℤ → Entities → Entities
  handle_position_closed position_id agent_id realized_pnl_usdc s =
      let counted : Entities =
        save_agent agent_id (closed_agent (load_or_create_agent chain agent_id s)) s in
      let applied : Entities = apply_position_from_chain position_id counted in
      let closed : PositionEntity =
        closed_position place realized_pnl_usdc
          (load_or_create_position agent_id (applied.positions position_id)) in
      record_equity_snapshot chain place agent_id "PositionClosed" (
        record_position_closed_activity agent_id position_id realized_pnl_usdc
          (save_position position_id closed applied))
