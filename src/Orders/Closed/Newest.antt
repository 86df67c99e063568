-- ===== src/Orders/Closed/Newest.antt =====
-- What the scan finds when every read succeeds.
use Prim.Native.Nat.{max}
use protocol_monorepo.Common.{
  ℕ, ◌+◌, ◌-◌, ◌≡◌, ◌++◌, none, some, List, map, take, filter_by, length, ok,
}
use protocol_monorepo.Common.Int.{ℤ}
use protocol_monorepo.Common.Text.{Text}
use protocol_monorepo.Tokens.Catalog.{TokenCatalog}
use protocol_monorepo.Strategy.ExitRules.{OnChainExitRule}
use protocol_monorepo.Orders.Chain.{Chain, TradingConfig, PositionOnChain}
use protocol_monorepo.Orders.Positions.{PositionRecord, map_position_record}
use protocol_monorepo.Orders.Closed.{ids_down, is_closed_match}
use protocol_monorepo.Orders.Closed.Report.{newest_ids, is_closed_of}

module _ {W : Type 0} (chain : Chain W) (config : TradingConfig) (catalog : TokenCatalog) (w : W)
    (agent_id_str : Text) (agent_id : ℕ) (position : ℕ → PositionOnChain) (realized : ℕ → ℤ)
    (rules : ℕ → List OnChainExitRule) where
  -- The reads that the scan makes succeed.
  pub record ReadsSucceed : Type 0 where
    pub positions : (id : ℕ) → chain.get_position w id ≡ ok (position id)
    pub profits : (id : ℕ) → chain.realized_pnl_usdc w id ≡ ok (realized id)
    pub ladders : (id : ℕ) → chain.get_exit_rules w id ≡ ok (rules id)

  abbrev pub closed_record : ℕ → PositionRecord
  closed_record id =
      map_position_record config catalog (position id) (rules id) agent_id_str none
        (some (realized id))

  abbrev pub closed_ids : List ℕ → List ℕ
  closed_ids = filter_by (λ id. is_closed_match agent_id (position id))

  module _ (reads : ReadsSucceed) where
    -- The closed positions among some ids, as they are reported.
    abbrev pub closed_among : List ℕ → List PositionRecord
    closed_among ids = map closed_record (closed_ids ids)

    abbrev found_from : ℕ → ℕ → ℕ → List PositionRecord → List PositionRecord
    found_from limit scan_start batch_end positions =
        positions
        ++ take (limit - length positions)
            (closed_among (ids_down (batch_end + 1 - scan_start) batch_end))

    -- The newest ids that the scan looks at, newest first.
    abbrev pub scanned_ids : ℕ → List ℕ
    scanned_ids total = ids_down (total + 1 - max 1 (total + 1 - 500)) total

    -- The ids of what is reported: of the newest 500 ids, those of closed positions of the agent, the
    -- first `limit` of them.
    abbrev pub reported_ids : ℕ → ℕ → List ℕ
    reported_ids limit total =
        take limit (filter_by (λ id. is_closed_of agent_id (position id)) (newest_ids 500 total))
