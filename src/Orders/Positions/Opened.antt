-- ===== src/Orders/Positions/Opened.antt =====
-- Which positions are reported, and with which profits.
use protocol_monorepo.Common.{
  ℕ, ◌≡◌, refl, none, some, List, [], ◌∷◌, Result, ◌==◌, All, Yields, >>=-Yields, Bool-cases, inl,
  inr, subst,
}
use protocol_monorepo.Common.Int.{ℤ}
use protocol_monorepo.Common.Text.{Text}
use protocol_monorepo.Tokens.Catalog.{TokenCatalog}
use protocol_monorepo.Trading.Metrics.{position_total_pnl_usdc}
use protocol_monorepo.Strategy.Decision.{is_open}
use protocol_monorepo.Strategy.ExitRules.{OnChainExitRule}
use protocol_monorepo.Orders.Errors.{OrderFailure, big_nat, or_not_found}
use protocol_monorepo.Orders.Chain.{Chain, TradingConfig, PositionOnChain, get_agent}
use protocol_monorepo.Orders.Checks.{position_status_open}
use protocol_monorepo.Orders.Router.{not_looked_up, get_trade_router_lens_address}
use protocol_monorepo.Orders.Positions.{
  PositionRecord, map_position_record, some_if, open_record, push_some, open_records,
  records_of_ids, list_open_positions,
}

-- An open position as it is listed: its total profit is the unrealized one, which is given.
abbrev IsListedOpen : PositionRecord → Type 0
IsListedOpen r =
    (r.status ≡ is_open)
    × (r.unrealized_pnl_usdc ≡ some r.total_pnl_usdc)
    × (r.realized_pnl_usdc ≡ none)

module _ {W : Type 0} (chain : Chain W) (config : TradingConfig) (catalog : TokenCatalog) where
  some_if-IsListedOpen :
      (position : PositionOnChain) (rules : List OnChainExitRule) (agent_id_str : Text)
      (unrealized : ℤ) (records : List PositionRecord)
      → All IsListedOpen records
      → All IsListedOpen (
          push_some
            (some_if (position.status == position_status_open) (
              map_position_record config catalog position rules agent_id_str
                (some unrealized)
                none))
            records)
  unfolding map_position_record position_total_pnl_usdc
  some_if-IsListedOpen position rules agent_id_str unrealized records h =
      elim (Bool-cases (position.status == position_status_open)) [
        | inl same ↦ rw same ((refl, refl, refl), h)
        | inr other ↦ rw other h
      ]

  -- What the loop's body pushes.
  open_record-IsListedOpen :
      (agent_id_str : Text) (read : Result OrderFailure PositionOnChain)
      (rules : Result OrderFailure (List OnChainExitRule)) (pnl : Result OrderFailure ℤ)
      (records : List PositionRecord)
      → All IsListedOpen records
      → Yields
          (λ o. All IsListedOpen (push_some o records))
          (open_record chain config catalog agent_id_str read rules pnl)
  unfolding open_record
  open_record-IsListedOpen agent_id_str read rules pnl records h = >>=-Yields _ read _ λ position _.
      >>=-Yields _ rules _ λ exit_rules _.
        >>=-Yields _ pnl _
          λ unrealized _. some_if-IsListedOpen position exit_rules agent_id_str unrealized records h

  open_records-IsListedOpen :
      (w : W) (agent_id_str lens : Text) (ids : List ℕ)
      → Yields (All IsListedOpen) (open_records chain config catalog w agent_id_str lens ids)
  unfolding open_records
  open_records-IsListedOpen w agent_id_str lens [] = tt
  open_records-IsListedOpen w agent_id_str lens (position_id ∷ ids) =
      let here =
        open_record chain config catalog agent_id_str (chain.get_position w position_id)
          (chain.get_exit_rules w position_id) (chain.unrealized_pnl_usdc w lens position_id) in
      >>=-Yields _ here _ λ o e.
        >>=-Yields _ (open_records chain config catalog w agent_id_str lens ids) _ λ later e'.
          let listed : All IsListedOpen later =
            subst (Yields (All IsListedOpen)) e'
              (open_records-IsListedOpen w agent_id_str lens ids) in
          subst (Yields (λ o. All IsListedOpen (push_some o later))) e (
            open_record-IsListedOpen agent_id_str (chain.get_position w position_id)
              (chain.get_exit_rules w position_id) (chain.unrealized_pnl_usdc w lens position_id)
              later listed)

  records_of_ids-IsListedOpen :
      (w : W) (agent_id_str : Text) (ids : List ℕ)
      → Yields (All IsListedOpen) (records_of_ids chain config catalog w agent_id_str ids)
  records_of_ids-IsListedOpen w agent_id_str [] = tt
  records_of_ids-IsListedOpen w agent_id_str (position_id ∷ ids) =
      >>=-Yields _ (get_trade_router_lens_address chain config w not_looked_up).1 _
        λ lens _. open_records-IsListedOpen w agent_id_str lens (position_id ∷ ids)

  -- When `listOpenPositions` returns, every position that it lists is Open, carries its unrealized
  -- profit, which is also its total profit, and carries no realized profit.
  list_open_positions-IsListedOpen :
      (w : W) (agent_id_str : Text)
      → Yields (All IsListedOpen) (list_open_positions chain config catalog w agent_id_str)
  unfolding list_open_positions
  list_open_positions-IsListedOpen w agent_id_str =
      >>=-Yields _ (big_nat agent_id_str) _ λ agent_id _.
        >>=-Yields _ (or_not_found (get_agent chain w agent_id)) _ λ _ _.
          >>=-Yields _ (chain.get_open_position_ids w agent_id) _
            λ ids _. records_of_ids-IsListedOpen w agent_id_str ids
