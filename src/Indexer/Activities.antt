-- ===== src/Indexer/Activities.antt =====
-- subgraph/src/trade-router.ts, and what its activities share with that of a closed position.
use protocol_monorepo.Common.{ℕ, ◌==◌, ◌&&◌, String, if◌then◌else◌, none, some}
use protocol_monorepo.Common.Text.{Text, text_eq}
use protocol_monorepo.Indexer.Entities.{ActivityEntity, Entities, ChainReads, EventPlace}
use protocol_monorepo.Indexer.Symbols.{symbol_for_token}

abbrev pub new_activity : EventPlace → ℕ → ℕ → String → String → ActivityEntity
new_activity place agent_id position_id activity_type source = record {
  agent = agent_id;
  position = position_id;
  activity_type = activity_type;
  source = source;
  block_number = place.block_number;
  block_timestamp = place.block_timestamp;
  vault = none;
  token = none;
  symbol = none;
  usdc_in = none;
  usdc_out = none;
  tokens_added = none;
  exit_bps = none;
  rule_index = none;
  next_rule_index = none;
  keeper = none;
  keeper_bounty = none;
  operator = none;
  realized_pnl_usdc = none;
}

abbrev pub save_activity : EventPlace → ActivityEntity → Entities → Entities
save_activity place activity s = record s {
  activities = λ hash index.
      if text_eq hash place.transaction_hash && index == place.log_index
      then some activity
      else s.activities hash index;
}

-- The agent and the position that the source loads or creates here are not saved.
module _ (chain : ChainReads) (place : EventPlace) (agent_id position_id : ℕ) where
  abbrev router_activity : String → ActivityEntity
  router_activity activity_type =
      new_activity place agent_id position_id activity_type "TradeRouter"

  unfoldable pub handle_position_opened_from_intent : Text → Text → ℕ → Entities → Entities
  handle_position_opened_from_intent vault token usdc_in s =
      save_activity place
        (record (router_activity "PositionOpened") {
          vault = some vault;
          token = some token;
          symbol = some (symbol_for_token chain.network token);
          usdc_in = some usdc_in;
        })
        s

  unfoldable pub handle_position_increased_from_intent : ℕ → ℕ → Entities → Entities
  handle_position_increased_from_intent usdc_in tokens_added s =
      save_activity place
        (record (router_activity "PositionIncreased") {
          usdc_in = some usdc_in;
          tokens_added = some tokens_added;
        })
        s

  unfoldable pub handle_position_reduced_from_intent : ℕ → ℕ → Entities → Entities
  handle_position_reduced_from_intent exit_bps usdc_out s =
      save_activity place
        (record (router_activity "PositionReduced") {
          exit_bps = some exit_bps;
          usdc_out = some usdc_out;
        })
        s

  unfoldable pub handle_position_exit_ladder_updated_from_intent : ℕ → Entities → Entities
  handle_position_exit_ladder_updated_from_intent next_rule_index s =
      save_activity place
        (record (router_activity "ExitLadderUpdated") { next_rule_index = some next_rule_index }) s

  unfoldable pub handle_exit_executed : ℕ → Text → ℕ → ℕ → Entities → Entities
  handle_exit_executed rule_index keeper usdc_out keeper_bounty s =
      save_activity place
        (record (router_activity "ExitExecuted") {
          rule_index = some rule_index;
          keeper = some keeper;
          usdc_out = some usdc_out;
          keeper_bounty = some keeper_bounty;
        })
        s

  unfoldable pub handle_position_force_closed : Text → ℕ → Entities → Entities
  handle_position_force_closed operator usdc_out s =
      save_activity place
        (record (router_activity "PositionForceClosed") {
          operator = some operator;
          usdc_out = some usdc_out;
        })
        s
