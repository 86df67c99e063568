-- ===== src/Indexer/Counters.antt =====
-- The counters of an agent and the history of its positions.
use protocol_monorepo.Common.{
  ℕ, suc, ◌+◌, ◌≤◌, ◌<◌, ◌==◌, true, false, List, [], ◌∷◌, if◌then◌else◌, Option, none, some, ◌≡◌,
  refl, subst, inl, inr, arith, Bool-cases,
}
use protocol_monorepo.Common.Text.{Text}
use protocol_monorepo.Indexer.Entities.{
  AgentEntity, Entities, put, OnChainAgent, ChainReads, EventPlace, new_agent, or_new_agent,
  increment,
}
use protocol_monorepo.Indexer.Snapshots.{record_equity_snapshot}
use protocol_monorepo.Indexer.Activities.{
  handle_position_opened_from_intent, handle_position_increased_from_intent,
  handle_position_reduced_from_intent, handle_position_exit_ladder_updated_from_intent,
  handle_exit_executed, handle_position_force_closed,
}
use protocol_monorepo.Indexer.Handlers.{
  decrement, with_agent_record, opened_agent, closed_agent, apply_position_from_chain,
  handle_agent_registered, handle_agent_status_changed, handle_agent_promoted,
  handle_agent_signer_updated, handle_agent_ownership_transferred, handle_erc8004_identity_linked,
  handle_allocation_created, handle_allocation_updated, handle_allocation_used_updated,
  handle_position_opened, handle_position_changed, handle_position_exit_ladder_updated,
  handle_position_closed,
}
use protocol_monorepo.Indexer.Events.{
  ChainEvent, agent_registered, agent_status_changed, agent_promoted, agent_signer_updated,
  agent_ownership_transferred, erc8004_identity_linked, allocation_created, allocation_updated,
  allocation_used_updated, position_opened, position_changed, position_exit_ladder_updated,
  position_closed, position_opened_from_intent, position_increased_from_intent,
  position_reduced_from_intent, position_exit_ladder_updated_from_intent, exit_executed,
  position_force_closed, handle_event, index_events,
}

-- An agent that is not stored has no positions.
abbrev pub Counts : ℕ → ℕ → Option AgentEntity → Type 0
Counts opened closed none = (opened ≡ 0) × (closed ≡ 0)
Counts opened closed (some agent) =
    (agent.positions_opened ≡ opened)
    × (agent.positions_closed ≡ closed)
    × (agent.open_position_count + closed ≡ opened)

-- The number of positions of an agent that were opened, or closed, after one more event.
abbrev pub opens : ℕ → ChainEvent → ℕ → ℕ
opens a (position_opened p b vault token amount price basis) o = if b == a then o + 1 else o
opens a _ o = o

abbrev pub closes : ℕ → ChainEvent → ℕ → ℕ
closes a (position_closed p b pnl) c = if b == a then c + 1 else c
closes a _ c = c

increment_exact : (n : ℕ) → n < 2147483648 → increment n ≡ suc n
unfolding increment
increment_exact n h = omega arith

decrement_exact : (n c o : ℕ) → n + c ≡ o → o < 2147483648 → suc c ≤ o → decrement n + suc c ≡ o
decrement_exact n c o e b h = ground (arith, e, b, h)

module _ (address : Text) where
  -- An update that leaves the counters.
  kept-Counts :
      (f : AgentEntity → AgentEntity) (o c : ℕ) (x : Option AgentEntity)
      → ((agent : AgentEntity)
          → ((f agent).positions_opened ≡ agent.positions_opened)
            × ((f agent).positions_closed ≡ agent.positions_closed)
            × ((f agent).open_position_count ≡ agent.open_position_count))
      → Counts o c x
      → Counts o c (some (f (or_new_agent address x)))
  kept-Counts f o c none keeps (opened, closed) =
      let (p, q, r) = keeps (new_agent address) in
      (ground (arith, p, opened), ground (arith, q, closed), ground (arith, r, opened, closed))
  kept-Counts f o c (some agent) keeps (opened, closed, total) =
      let (p, q, r) = keeps agent in
      (ground (arith, p, opened), ground (arith, q, closed), ground (arith, r, total))

  opened-Counts :
      (o c : ℕ) (x : Option AgentEntity)
      → o < 2147483648
      → Counts o c x
      → Counts (o + 1) c (some (opened_agent (or_new_agent address x)))
  opened-Counts o c none b (opened, closed) =
      let one : increment 0 ≡ 1 = increment_exact 0 (ground (arith, b)) in
      (ground (arith, one, opened), ground (arith, closed), ground (arith, one, opened, closed))
  opened-Counts o c (some agent) b (opened, closed, total) = (
    ground (arith, increment_exact agent.positions_opened (ground (arith, b, opened)), opened),
    closed,
    ground (arith, increment_exact agent.open_position_count (ground (arith, b, total)), total),
  )

  closed-Counts :
      (o c : ℕ) (x : Option AgentEntity)
      → o < 2147483648
      → c + 1 ≤ o
      → Counts o c x
      → Counts o (c + 1) (some (closed_agent (or_new_agent address x)))
  closed-Counts o c none b h (opened, closed) = absurd (ground (arith, h, opened))
  closed-Counts o c (some agent) b h (opened, closed, total) = (
    opened,
    ground (arith, increment_exact agent.positions_closed (ground (arith, b, h, closed)), closed),
    ground (arith, decrement_exact agent.open_position_count c o total b (ground (arith, h))),
  )

-- What is stored under a key, seen from a key.
put-Counts :
    (a b o c : ℕ) (agents : ℕ → Option AgentEntity) (f : Option AgentEntity → AgentEntity)
    → (b == a ≡ true → Counts o c (some (f (agents a))))
    → (b == a ≡ false → Counts o c (agents a))
    → Counts o c (put b (f (agents b)) agents a)
put-Counts a b o c agents f same other = elim (Bool-cases (a == b)) [
  | inl e ↦
      let is : a ≡ b = ground (arith, e) in
      rw e (subst (λ k. Counts o c (some (f (agents k)))) is (same (ground (arith, e))))
  | inr e ↦ rw e (other (ground (arith, e)))
]

module _ (chain : ChainReads) (place : EventPlace) (a o c : ℕ) (s : Entities) where
  event-kept :
      (b : ℕ) (f : AgentEntity → AgentEntity)
      → ((agent : AgentEntity)
          → ((f agent).positions_opened ≡ agent.positions_opened)
            × ((f agent).positions_closed ≡ agent.positions_closed)
            × ((f agent).open_position_count ≡ agent.open_position_count))
      → Counts o c (s.agents a)
      → Counts o c (put b (f (or_new_agent chain.data_source_address (s.agents b))) s.agents a)
  event-kept b f keeps h =
      put-Counts a b o c s.agents (λ x. f (or_new_agent chain.data_source_address x))
        (λ _. kept-Counts chain.data_source_address f o c (s.agents a) keeps h) (λ _. h)

  registered-kept :
      (x : Option OnChainAgent) (agent : AgentEntity)
      → ((with_agent_record x agent).positions_opened ≡ agent.positions_opened)
        × ((with_agent_record x agent).positions_closed ≡ agent.positions_closed)
        × ((with_agent_record x agent).open_position_count ≡ agent.open_position_count)
  registered-kept none agent = (refl, refl, refl)
  registered-kept (some on_chain) agent = (refl, refl, refl)

  handle_event-Counts :
      (event : ChainEvent)
      → o < 2147483648
      → closes a event c ≤ o
      → Counts o c (s.agents a)
      → Counts (opens a event o) (closes a event c) ((handle_event chain place event s).agents a)
  unfolding handle_event handle_agent_registered handle_agent_status_changed handle_agent_promoted
      handle_agent_signer_updated handle_agent_ownership_transferred handle_erc8004_identity_linked
      handle_allocation_created handle_allocation_updated handle_allocation_used_updated
      handle_position_opened handle_position_changed handle_position_exit_ladder_updated
      handle_position_closed record_equity_snapshot apply_position_from_chain
      handle_position_opened_from_intent handle_position_increased_from_intent
      handle_position_reduced_from_intent handle_position_exit_ladder_updated_from_intent
      handle_exit_executed handle_position_force_closed
  handle_event-Counts (agent_registered b) bound short h =
      event-kept b (with_agent_record (chain.try_get_agent b))
        (registered-kept (chain.try_get_agent b)) h
  handle_event-Counts (agent_status_changed b status) bound short h =
      event-kept b (λ agent. record agent { status = status }) (λ agent. (refl, refl, refl)) h
  handle_event-Counts (agent_promoted b vault track) bound short h =
      event-kept b (λ agent. record agent { vault = vault; track = track })
        (λ agent. (refl, refl, refl)) h
  handle_event-Counts (agent_signer_updated b signer) bound short h =
      event-kept b (λ agent. record agent { signer = signer }) (λ agent. (refl, refl, refl)) h
  handle_event-Counts (agent_ownership_transferred b to) bound short h =
      event-kept b (λ agent. record agent { owner = to }) (λ agent. (refl, refl, refl)) h
  handle_event-Counts (erc8004_identity_linked b id) bound short h =
      event-kept b (λ agent. record agent { has_erc8004_identity = true; erc8004_agent_id = id })
        (λ agent. (refl, refl, refl)) h
  handle_event-Counts (allocation_created b vault track limit) bound short h = h
  handle_event-Counts (allocation_updated b vault track limit status) bound short h = h
  handle_event-Counts (allocation_used_updated b used) bound short h = h
  handle_event-Counts (position_changed trigger p b) bound short h = h
  handle_event-Counts (position_exit_ladder_updated p) bound short h = h
  handle_event-Counts (position_opened_from_intent b p vault token usdc_in) bound short h = h
  handle_event-Counts (position_increased_from_intent b p usdc_in added) bound short h = h
  handle_event-Counts (position_reduced_from_intent b p bps usdc_out) bound short h = h
  handle_event-Counts (position_exit_ladder_updated_from_intent b p index) bound short h = h
  handle_event-Counts (exit_executed b p index keeper usdc_out bounty) bound short h = h
  handle_event-Counts (position_force_closed b p operator usdc_out) bound short h = h
  handle_event-Counts (position_opened p b vault token amount price basis) bound short h =
      put-Counts a b (opens a (position_opened p b vault token amount price basis) o) c s.agents
        (λ x. opened_agent (or_new_agent chain.data_source_address x))
        (λ e. rw e (opened-Counts chain.data_source_address o c (s.agents a) bound h)) (λ e. rw e h)
  handle_event-Counts (position_closed p b pnl) bound short h =
      put-Counts a b o (closes a (position_closed p b pnl) c) s.agents
        (λ x. closed_agent (or_new_agent chain.data_source_address x))
        (λ e. rw e (
          closed-Counts chain.data_source_address o c (s.agents a) bound (ground (arith, short, e))
            h))
        (λ e. rw e h)

-- The numbers after a history.
unfoldable pub opened_in : ℕ → List (ChainReads × (EventPlace × ChainEvent)) → ℕ → ℕ
opened_in a [] o = o
opened_in a ((chain, (place, event)) ∷ events) o = opened_in a events (opens a event o)

unfoldable pub closed_in : ℕ → List (ChainReads × (EventPlace × ChainEvent)) → ℕ → ℕ
closed_in a [] c = c
closed_in a ((chain, (place, event)) ∷ events) c = closed_in a events (closes a event c)

-- At each event, no more positions of the agent have been closed than opened, and fewer than 2 ^ 31
-- have been opened.
abbrev pub IsBalanced : ℕ → List (ChainReads × (EventPlace × ChainEvent)) → ℕ → ℕ → Type 0
IsBalanced a [] o c = Unit {0}
IsBalanced a ((chain, (place, event)) ∷ events) o c =
    (o < 2147483648)
    × (closes a event c ≤ o)
    × IsBalanced a events (opens a event o) (closes a event c)

-- After a history that closes no more positions of an agent than it opens, at any point of it, and
-- opens fewer than 2 ^ 31, the agent's counters of opened and closed positions are the numbers of
-- these events since the counters were right before it, and its counter of open positions is the
-- difference of the two.
pub index_events-Counts :
    (a : ℕ) (events : List (ChainReads × (EventPlace × ChainEvent))) (o c : ℕ) (s : Entities)
    → IsBalanced a events o c
    → Counts o c (s.agents a)
    → Counts (opened_in a events o) (closed_in a events c) ((index_events events s).agents a)
unfolding index_events opened_in closed_in
index_events-Counts a [] o c s balanced h = h
index_events-Counts a ((chain, (place, event)) ∷ events) o c s (bound, short, balanced) h =
    index_events-Counts a events (opens a event o) (closes a event c)
      (handle_event chain place event s) balanced
      (handle_event-Counts chain place a o c s event bound short h)
