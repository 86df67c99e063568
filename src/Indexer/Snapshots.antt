-- ===== src/Indexer/Snapshots.antt =====
-- subgraph/src/lib/equity-snapshot.ts and position.ts
use protocol_monorepo.Common.{
  ℕ, suc, ◌==◌, ◌&&◌, String, List, [], ◌∷◌, if◌then◌else◌, Option, none, some,
}
use protocol_monorepo.Common.Int.{ℤ, pos, ◌-ℤ◌, scale, quot}
use protocol_monorepo.Indexer.Entities.{
  AllocationEntity, PositionEntity, entity_open, ExitRuleEntity, SnapshotEntity, Entities,
  OnChainExitRule, ChainReads, EventPlace,
}

abbrev pub cap_of : Option AllocationEntity → ℕ
cap_of none = 0
cap_of (some allocation) = allocation.cap

unfoldable pub snapshot_return_bps : (ℤ → ℤ) → ℕ → ℤ → Option ℤ
snapshot_return_bps to_i32 cap equity =
    if cap == 0 then none else some (to_i32 (quot (scale (equity -ℤ pos cap) 10000) cap))

abbrev pub snapshot_with : ChainReads → EventPlace → ℕ → String → ℕ → ℤ → ℤ → ℤ → ℤ → SnapshotEntity
snapshot_with chain place agent_id trigger cap equity peak drawdown lifetime = record {
  agent = agent_id;
  block_number = place.block_number;
  block_timestamp = place.block_timestamp;
  transaction_hash = place.transaction_hash;
  log_index = place.log_index;
  trigger = trigger;
  allocation_cap = cap;
  lifetime_realized_pnl_usdc = lifetime;
  unrealized_pnl_usdc = (equity -ℤ pos cap) -ℤ lifetime;
  equity_usdc = equity;
  peak_equity_usdc = peak;
  drawdown_bps = chain.to_i32 drawdown;
  return_bps = snapshot_return_bps chain.to_i32 cap equity;
}

-- The snapshot, or nothing when one of the reads is reverted.
unfoldable pub equity_snapshot :
    ChainReads
    → EventPlace
    → ℕ
    → String
    → ℕ
    → Option ℤ
    → Option ℤ
    → Option ℤ
    → Option ℤ
    → Option SnapshotEntity
equity_snapshot chain place agent_id trigger cap (some equity) (some peak) (some drawdown)
      (some lifetime) =
    some (snapshot_with chain place agent_id trigger cap equity peak drawdown lifetime)
equity_snapshot chain place agent_id trigger cap _ _ _ _ = none

abbrev save_snapshot :
    EventPlace
    → ℕ
    → Option SnapshotEntity
    → (ℕ → ℕ → ℕ → Option SnapshotEntity)
    → ℕ
    → ℕ
    → ℕ
    → Option SnapshotEntity
save_snapshot place agent_id none snapshots = snapshots
save_snapshot place agent_id (some snapshot) snapshots = λ a b l.
    if a == agent_id && (b == place.block_number && l == place.log_index)
    then some snapshot
    else snapshots a b l

unfoldable pub record_equity_snapshot : ChainReads → EventPlace → ℕ → String → Entities → Entities
record_equity_snapshot chain place agent_id trigger s = record s {
  snapshots =
      save_snapshot place agent_id
        (equity_snapshot chain place agent_id trigger (cap_of (s.allocations agent_id))
          (chain.try_current_equity_usdc agent_id) (chain.try_peak_equity_usdc agent_id)
          (chain.try_current_drawdown_bps agent_id) (chain.try_lifetime_realized_pnl_usdc agent_id))
        s.snapshots;
}

abbrev pub trigger_type_label : ℕ → String
trigger_type_label trigger_type = if trigger_type == 0 then "StopLoss" else "TakeProfit"

abbrev pub exit_rule_entity : ℕ → ℕ → OnChainExitRule → ExitRuleEntity
exit_rule_entity position index rule = record {
  position = position;
  index = index;
  trigger_type = trigger_type_label rule.trigger_type;
  trigger_bps = rule.trigger_bps;
  exit_bps = rule.exit_bps;
}

abbrev pub put_rule :
    ℕ → ℕ → ExitRuleEntity → (ℕ → ℕ → Option ExitRuleEntity) → ℕ → ℕ → Option ExitRuleEntity
put_rule position index entity rules p i =
    if p == position && i == index then some entity else rules p i

-- The loop, from an index on.
unfoldable pub save_exit_rules :
    ℕ → ℕ → List OnChainExitRule → (ℕ → ℕ → Option ExitRuleEntity) → ℕ → ℕ → Option ExitRuleEntity
save_exit_rules position index [] rules = rules
save_exit_rules position index (rule ∷ more) rules =
    save_exit_rules position (suc index) more
      (put_rule position index (exit_rule_entity position index rule) rules)

abbrev pub sync_exit_rules :
    ℕ
    → Option (List OnChainExitRule)
    → (ℕ → ℕ → Option ExitRuleEntity)
    → ℕ
    → ℕ
    → Option ExitRuleEntity
sync_exit_rules position none rules = rules
sync_exit_rules position (some on_chain) rules = save_exit_rules position 0 on_chain rules

abbrev new_position : ℕ → PositionEntity
new_position agent_id = record {
  agent = agent_id;
  vault = [];
  token = [];
  symbol = [];
  token_amount = 0;
  entry_price_usdc = 0;
  usdc_cost_basis = 0;
  max_slippage_bps = 0;
  status = entity_open;
  next_rule_index = 0;
  opened_at = 0;
  closed_at = none;
  realized_pnl_usdc = none;
  opened_tx_hash = [];
  closed_tx_hash = none;
}

abbrev pub load_or_create_position : ℕ → Option PositionEntity → PositionEntity
load_or_create_position agent_id none = new_position agent_id
load_or_create_position agent_id (some position) = position
