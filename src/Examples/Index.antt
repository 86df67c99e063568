-- ===== src/Examples/Index.antt =====
-- The subgraph's handlers at concrete inputs.
use protocol_monorepo.Common.{ℕ, ◌≡◌, refl, List, [], ◌∷◌, Option, none, some, arith}
use mathlib.Core.Option
use protocol_monorepo.Common.Int.{pos, negsuc}
use protocol_monorepo.Common.Text.{codes}
use protocol_monorepo.Trading.Metrics.{account_unrealized_usdc, account_return_bps}
use protocol_monorepo.Indexer.Entities.{
  SnapshotEntity, ExitRuleEntity, Entities, OnChainExitRule, ChainReads, EventPlace,
}
use protocol_monorepo.Indexer.Snapshots.{save_exit_rules, record_equity_snapshot, sync_exit_rules}
use protocol_monorepo.Indexer.Events.{ChainEvent, position_opened, position_closed, index_events}
use protocol_monorepo.Indexer.Counters.{Counts, opened_in, closed_in, index_events-Counts}
use protocol_monorepo.Indexer.Rules.{
  IsRuleOf, sync_exit_rules-rule_at, record_equity_snapshot-metrics,
}

abbrev empty : Entities
empty = record {
  agents = λ _. none;
  allocations = λ _. none;
  positions = λ _. none;
  exit_rules = λ _ _. none;
  activities = λ _ _. none;
  snapshots = λ _ _ _. none;
}

abbrev funded : Entities
funded = record empty {
  allocations = λ _. some record {
    agent = 7;
    vault = [];
    track_id = 1;
    cap = 1000;
    used = 0;
    status = 0;
    created_at = 0;
    updated_at = 0;
  };
}

abbrev chain : ChainReads
chain = record {
  data_source_address = codes "0xaa";
  network = codes "arbitrum-one";
  to_i32 = λ n. n;
  try_get_agent = λ _. none;
  try_get_position = λ _. none;
  try_get_exit_rules = λ _. none;
  try_current_equity_usdc = λ _. some (pos 1100);
  try_peak_equity_usdc = λ _. some (pos 1200);
  try_current_drawdown_bps = λ _. some (pos 833);
  try_lifetime_realized_pnl_usdc = λ _. some (pos 60);
}

abbrev place : EventPlace
place = record {
  block_number = 10;
  block_timestamp = 1000;
  transaction_hash = codes "0x01";
  log_index = 2;
}

-- Agent 7 opens two positions and closes one.
abbrev history : List (ChainReads × (EventPlace × ChainEvent))
history =
    (chain, (place, position_opened 1 7 [] [] 5 5 25))
    ∷ (chain, (place, position_opened 2 7 [] [] 5 5 25))
    ∷ (chain, (place, position_closed 1 7 (negsuc 3)))
    ∷ []

counted : (opened_in 7 history 0 ≡ 2) × (closed_in 7 history 0 ≡ 1)
unfolding opened_in closed_in
counted = (refl, refl)

index_events-Counts_example :
    Counts (opened_in 7 history 0) (closed_in 7 history 0) ((index_events history empty).agents 7)
index_events-Counts_example =
    index_events-Counts 7 history 0 0 empty
      (omega arith, omega arith, (omega arith, omega arith, (omega arith, omega arith, tt)))
      (refl, refl)

abbrev rule : OnChainExitRule
rule = record { trigger_type = 0; trigger_bps = negsuc 499; exit_bps = 10000 }

-- The ladder had two rules, and has one.
abbrev two_rules : ℕ → ℕ → Option ExitRuleEntity
two_rules = sync_exit_rules 1 (some (rule ∷ rule ∷ [])) (λ _ _. none)

sync_exit_rules-rule_at_example :
    (entity : ExitRuleEntity) × (sync_exit_rules 1 (some (rule ∷ [])) two_rules 1 0 ≡ some entity)
    × IsRuleOf 1 0 rule entity
sync_exit_rules-rule_at_example = sync_exit_rules-rule_at 1 (rule ∷ []) two_rules 0

-- The second rule of the old ladder is still there.
left_behind : sync_exit_rules 1 (some (rule ∷ [])) two_rules 1 1 ≡ two_rules 1 1
unfolding save_exit_rules
left_behind = refl

record_equity_snapshot-metrics_example :
    (snapshot : SnapshotEntity) × ((record_equity_snapshot chain place 7 "PositionOpened"
          funded).snapshots
        7 10 2
      ≡ some snapshot)
    × (snapshot.unrealized_pnl_usdc ≡ account_unrealized_usdc 1000 (pos 60) (pos 1100))
    × (snapshot.return_bps ≡ Option.map (λ n. n) (account_return_bps 1000 (pos 1100)))
    × (snapshot.equity_usdc ≡ pos 1100)
record_equity_snapshot-metrics_example =
    record_equity_snapshot-metrics chain place 7 "PositionOpened" funded (pos 1100) (pos 1200)
      (pos 833) (pos 60) refl refl refl refl
