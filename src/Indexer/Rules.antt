-- ===== src/Indexer/Rules.antt =====
-- The exit rules, the closing of a position and the snapshots in the index.
use protocol_monorepo.Common.{
  ℕ, zero, suc, ◌+◌, ◌<◌, ◌==◌, true, false, List, [], ◌∷◌, String, Option, none, some, ◌≡◌, refl,
  ◌∙◌, ap, sym, subst, ◌⊎◌, inl, inr, arith, Bool-cases,
}
use mathlib.Core.Option
use protocol_monorepo.Common.Int.{ℤ}
use protocol_monorepo.Trading.Metrics.{account_unrealized_usdc, account_return_bps}
use protocol_monorepo.Indexer.Entities.{
  PositionEntity, entity_closed, ExitRuleEntity, SnapshotEntity, Entities, OnChainExitRule,
  ChainReads, EventPlace, put, load_or_create_agent,
}
use protocol_monorepo.Indexer.Snapshots.{
  cap_of, load_or_create_position, snapshot_with, snapshot_return_bps, equity_snapshot,
  record_equity_snapshot, trigger_type_label, exit_rule_entity, put_rule, save_exit_rules,
  sync_exit_rules,
}
use protocol_monorepo.Indexer.Handlers.{
  closed_position, closed_agent, handle_position_closed, apply_position_from_chain,
}

abbrev pub rule_at : ℕ → List OnChainExitRule → Option OnChainExitRule
rule_at j [] = none
rule_at zero (rule ∷ rules) = some rule
rule_at (suc j) (rule ∷ rules) = rule_at j rules

abbrev rule_or : ℕ → ℕ → Option OnChainExitRule → Option ExitRuleEntity → Option ExitRuleEntity
rule_or position index none before = before
rule_or position index (some rule) before = some (exit_rule_entity position index rule)

-- An indexed rule that shows a rule of the chain, whose type 0 is a stop loss and whose other types
-- are take profits.
pub record IsRuleOf (position index : ℕ) (rule : OnChainExitRule) (entity : ExitRuleEntity)
    : Type 0 where
  pub own_position : entity.position ≡ position
  pub own_index : entity.index ≡ index
  pub own_type :
      ((rule.trigger_type ≡ 0) × (entity.trigger_type ≡ "StopLoss"))
      ⊎ ((0 < rule.trigger_type) × (entity.trigger_type ≡ "TakeProfit"))
  pub own_trigger : entity.trigger_bps ≡ rule.trigger_bps
  pub own_exit : entity.exit_bps ≡ rule.exit_bps

-- The rule of the chain at an index is there, or else what was there before.
abbrev pub Indexed :
    ℕ → ℕ → Option OnChainExitRule → Option ExitRuleEntity → Option ExitRuleEntity → Type 0
Indexed position index none before after = after ≡ before
Indexed position index (some rule) before after =
    (entity : ExitRuleEntity) × (after ≡ some entity) × IsRuleOf position index rule entity

label_of :
    (t : ℕ)
    → ((t ≡ 0) × (trigger_type_label t ≡ "StopLoss"))
      ⊎ ((0 < t) × (trigger_type_label t ≡ "TakeProfit"))
label_of t = elim (Bool-cases (t == 0)) [
  | inl stop ↦ inl (ground arith, rw stop refl)
  | inr take ↦ inr (ground arith, rw take refl)
]

rule_or-Indexed :
    (position index : ℕ) (o : Option OnChainExitRule) (before : Option ExitRuleEntity)
    → Indexed position index o before (rule_or position index o before)
rule_or-Indexed position index none before = refl
rule_or-Indexed position index (some rule) before = (
  exit_rule_entity position index rule,
  refl,
  record {
    own_position = refl;
    own_index = refl;
    own_type = label_of rule.trigger_type;
    own_trigger = refl;
    own_exit = refl;
  },
)

module _ (position : ℕ) where
  save_exit_rules_below :
      (k i : ℕ) (rules : List OnChainExitRule) (m : ℕ → ℕ → Option ExitRuleEntity)
      → i < k
      → save_exit_rules position k rules m position i ≡ m position i
  unfolding save_exit_rules
  save_exit_rules_below k i [] m h = refl
  save_exit_rules_below k i (rule ∷ rules) m h = ground (
    arith,
    save_exit_rules_below (suc k) i rules (put_rule position k (exit_rule_entity position k rule) m)
        (omega arith),
    h,
  )

  put_rule_here :
      (k i : ℕ) (entity : ExitRuleEntity) (m : ℕ → ℕ → Option ExitRuleEntity)
      → i ≡ k
      → put_rule position k entity m position i ≡ some entity
  put_rule_here k i entity m e =
      let p : (position == position) ≡ true = ground arith in
      let q : (i == k) ≡ true = ground (arith, e) in rw (p, q) refl

  put_rule_beside :
      (k i : ℕ) (entity : ExitRuleEntity) (m : ℕ → ℕ → Option ExitRuleEntity)
      → k < i
      → put_rule position k entity m position i ≡ m position i
  put_rule_beside k i entity m e =
      let p : (position == position) ≡ true = ground arith in
      let q : (i == k) ≡ false = ground (arith, e) in rw (p, q) refl

  save_exit_rules_from :
      (k j i : ℕ) (rules : List OnChainExitRule) (m : ℕ → ℕ → Option ExitRuleEntity)
      → i ≡ j + k
      → save_exit_rules position k rules m position i
        ≡ rule_or position i (rule_at j rules) (m position i)
  unfolding save_exit_rules
  save_exit_rules_from k j i [] m e = refl
  save_exit_rules_from k zero i (rule ∷ rules) m e =
      save_exit_rules_below (suc k) i rules
        (put_rule position k (exit_rule_entity position k rule) m) (omega arith)
      ∙ put_rule_here k i (exit_rule_entity position k rule) m (omega arith)
      ∙ ap (λ n. some (exit_rule_entity position n rule)) (omega arith)
  save_exit_rules_from k (suc j) i (rule ∷ rules) m e =
      save_exit_rules_from (suc k) j i rules
        (put_rule position k (exit_rule_entity position k rule) m) (omega arith)
      ∙ ap (rule_or position i (rule_at j rules))
          (put_rule_beside k i (exit_rule_entity position k rule) m (omega arith))

  -- After the exit rules of a position are read from the chain, the index has each of them at its
  -- place, with its trigger and its share, a rule of type 0 as a StopLoss and another one as a
  -- TakeProfit; at the places beyond the last of them it keeps what it had, so that the rules of a
  -- longer ladder before stay behind a shorter one.
  pub sync_exit_rules-rule_at :
      (on_chain : List OnChainExitRule) (rules : ℕ → ℕ → Option ExitRuleEntity) (index : ℕ)
      → Indexed position index
          (rule_at index on_chain)
          (rules position index)
          (sync_exit_rules position (some on_chain) rules position index)
  sync_exit_rules-rule_at on_chain rules index =
      subst (Indexed position index (rule_at index on_chain) (rules position index))
        (sym (save_exit_rules_from 0 index index on_chain rules (omega arith)))
        (rule_or-Indexed position index (rule_at index on_chain) (rules position index))

same_number : (n : ℕ) → (n == n) ≡ true
same_number n = ground arith

map_return :
    (to_i32 : ℤ → ℤ) (cap : ℕ) (equity : ℤ)
    → snapshot_return_bps to_i32 cap equity ≡ Option.map to_i32 (account_return_bps cap equity)
unfolding snapshot_return_bps account_return_bps
map_return to_i32 cap equity = elim (Bool-cases (cap == 0)) [
  | inl e ↦ rw e refl
  | inr e ↦ rw e refl
]

module _ (chain : ChainReads) (place : EventPlace) (agent_id : ℕ) where
  -- A snapshot is recorded when the four reads succeed, under the agent and the event's place, and
  -- its unrealized profit and return are those that the API computes from the same equity, lifetime
  -- profit and cap, the return as an i32; the cap is that of the indexed allocation, or 0.
  pub record_equity_snapshot-metrics :
      (trigger : String) (s : Entities) (equity peak drawdown lifetime : ℤ)
      → chain.try_current_equity_usdc agent_id ≡ some equity
      → chain.try_peak_equity_usdc agent_id ≡ some peak
      → chain.try_current_drawdown_bps agent_id ≡ some drawdown
      → chain.try_lifetime_realized_pnl_usdc agent_id ≡ some lifetime
      → (snapshot : SnapshotEntity) × ((record_equity_snapshot chain place agent_id trigger
              s).snapshots
            agent_id place.block_number place.log_index
          ≡ some snapshot)
        × (snapshot.unrealized_pnl_usdc
            ≡ account_unrealized_usdc (cap_of (s.allocations agent_id)) lifetime equity)
        × (snapshot.return_bps
            ≡ Option.map chain.to_i32 (account_return_bps (cap_of (s.allocations agent_id)) equity))
        × (snapshot.equity_usdc ≡ equity)
  unfolding record_equity_snapshot equity_snapshot snapshot_return_bps account_unrealized_usdc
      account_return_bps
  record_equity_snapshot-metrics trigger s equity peak drawdown lifetime e p d l =
      let snapshot : SnapshotEntity =
        snapshot_with chain place agent_id trigger (cap_of (s.allocations agent_id)) equity peak
          drawdown lifetime in
      (
        snapshot,
        rw
            (
              e,
              p,
              d,
              l,
              same_number agent_id,
              same_number place.block_number,
              same_number place.log_index,
            )
            refl,
        refl,
        map_return chain.to_i32 (cap_of (s.allocations agent_id)) equity,
        refl,
      )

  -- After a position's closing has been handled the index has it as closed, at the event's time and
  -- transaction and with the event's profit, whatever the chain answers.
  pub handle_position_closed-closed :
      (position_id : ℕ) (realized_pnl_usdc : ℤ) (s : Entities)
      → (position : PositionEntity) × ((handle_position_closed chain place position_id agent_id
              realized_pnl_usdc s).positions
            position_id
          ≡ some position)
        × (position.status ≡ entity_closed)
        × (position.closed_at ≡ some place.block_timestamp)
        × (position.realized_pnl_usdc ≡ some realized_pnl_usdc)
  unfolding handle_position_closed record_equity_snapshot
  handle_position_closed-closed position_id realized_pnl_usdc s =
      let self : (position_id == position_id) ≡ true = ground arith in
      let counted : Entities = record s {
        agents = put agent_id (closed_agent (load_or_create_agent chain agent_id s)) s.agents;
      } in
      let position : PositionEntity = closed_position place realized_pnl_usdc (
        load_or_create_position agent_id
          ((apply_position_from_chain chain place position_id counted).positions position_id)) in
      (position, rw self refl, refl, refl, refl)
