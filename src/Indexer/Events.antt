-- ===== src/Indexer/Events.antt =====
-- The events of the registry, the managers and the trade router in the order of the
-- chain, each with its place and what its handler reads (subgraph/subgraph.yaml).
use protocol_monorepo.Common.{ℕ, String, List, [], ◌∷◌}
use protocol_monorepo.Common.Int.{ℤ}
use protocol_monorepo.Common.Text.{Text}
use protocol_monorepo.Indexer.Entities.{Entities, ChainReads, EventPlace}
use protocol_monorepo.Indexer.Activities.{
  handle_position_opened_from_intent, handle_position_increased_from_intent,
  handle_position_reduced_from_intent, handle_position_exit_ladder_updated_from_intent,
  handle_exit_executed, handle_position_force_closed,
}
use protocol_monorepo.Indexer.Handlers.{
  handle_agent_registered, handle_agent_status_changed, handle_agent_promoted,
  handle_agent_signer_updated, handle_agent_ownership_transferred, handle_erc8004_identity_linked,
  handle_allocation_created, handle_allocation_updated, handle_allocation_used_updated,
  handle_position_opened, handle_position_changed, handle_position_exit_ladder_updated,
  handle_position_closed,
}

pub data ChainEvent : Type 0 where
  agent_registered : (agent_id : ℕ) → ChainEvent
  agent_status_changed : (agent_id new_status : ℕ) → ChainEvent
  agent_promoted : (agent_id : ℕ) (vault : Text) (to_track : ℕ) → ChainEvent
  agent_signer_updated : (agent_id : ℕ) (signer : Text) → ChainEvent
  agent_ownership_transferred : (agent_id : ℕ) (to : Text) → ChainEvent
  erc8004_identity_linked : (agent_id erc8004_agent_id : ℕ) → ChainEvent
  allocation_created : (agent_id : ℕ) (vault : Text) (track_id cap : ℕ) → ChainEvent
  allocation_updated : (agent_id : ℕ) (vault : Text) (track_id cap status : ℕ) → ChainEvent
  allocation_used_updated : (agent_id used : ℕ) → ChainEvent
  position_opened :
      (position_id agent_id : ℕ) (vault token : Text)
      (token_amount entry_price_usdc usdc_cost_basis : ℕ)
      → ChainEvent
  position_changed : (trigger : String) (position_id agent_id : ℕ) → ChainEvent
  position_exit_ladder_updated : (position_id : ℕ) → ChainEvent
  position_closed : (position_id agent_id : ℕ) (realized_pnl_usdc : ℤ) → ChainEvent
  position_opened_from_intent :
      (agent_id position_id : ℕ) (vault token : Text) (usdc_in : ℕ) → ChainEvent
  position_increased_from_intent : (agent_id position_id usdc_in tokens_added : ℕ) → ChainEvent
  position_reduced_from_intent : (agent_id position_id exit_bps usdc_out : ℕ) → ChainEvent
  position_exit_ladder_updated_from_intent : (agent_id position_id next_rule_index : ℕ) → ChainEvent
  exit_executed :
      (agent_id position_id rule_index : ℕ) (keeper : Text) (usdc_out keeper_bounty : ℕ)
      → ChainEvent
  position_force_closed : (agent_id position_id : ℕ) (operator : Text) (usdc_out : ℕ) → ChainEvent

unfoldable pub handle_event : ChainReads → EventPlace → ChainEvent → Entities → Entities
handle_event chain place (agent_registered a) s = handle_agent_registered chain place a s
handle_event chain place (agent_status_changed a status) s =
    handle_agent_status_changed chain place a status s
handle_event chain place (agent_promoted a vault track) s =
    handle_agent_promoted chain place a vault track s
handle_event chain place (agent_signer_updated a signer) s =
    handle_agent_signer_updated chain place a signer s
handle_event chain place (agent_ownership_transferred a to) s =
    handle_agent_ownership_transferred chain place a to s
handle_event chain place (erc8004_identity_linked a id) s =
    handle_erc8004_identity_linked chain place a id s
handle_event chain place (allocation_created a vault track cap) s =
    handle_allocation_created chain place a vault track cap s
handle_event chain place (allocation_updated a vault track cap status) s =
    handle_allocation_updated chain place a vault track cap status s
handle_event chain place (allocation_used_updated a used) s =
    handle_allocation_used_updated chain place a used s
handle_event chain place (position_opened p a vault token amount price basis) s =
    handle_position_opened chain place p a vault token amount price basis s
handle_event chain place (position_changed trigger p a) s =
    handle_position_changed chain place trigger p a s
handle_event chain place (position_exit_ladder_updated p) s =
    handle_position_exit_ladder_updated chain place p s
handle_event chain place (position_closed p a pnl) s = handle_position_closed chain place p a pnl s
handle_event chain place (position_opened_from_intent a p vault token usdc_in) s =
    handle_position_opened_from_intent chain place a p vault token usdc_in s
handle_event chain place (position_increased_from_intent a p usdc_in added) s =
    handle_position_increased_from_intent chain place a p usdc_in added s
handle_event chain place (position_reduced_from_intent a p bps usdc_out) s =
    handle_position_reduced_from_intent chain place a p bps usdc_out s
handle_event chain place (position_exit_ladder_updated_from_intent a p index) s =
    handle_position_exit_ladder_updated_from_intent chain place a p index s
handle_event chain place (exit_executed a p index keeper usdc_out bounty) s =
    handle_exit_executed chain place a p index keeper usdc_out bounty s
handle_event chain place (position_force_closed a p operator usdc_out) s =
    handle_position_force_closed chain place a p operator usdc_out s

-- The entities after a history.
unfoldable pub index_events : List (ChainReads × (EventPlace × ChainEvent)) → Entities → Entities
index_events [] s = s
index_events ((chain, (place, event)) ∷ events) s =
    index_events events (handle_event chain place event s)
