-- ===== src/Orders/Closed.antt =====
-- The on-chain scan of `listClosedPositions` of api/src/services/trading.service.ts: the newest 500
-- position ids of all agents, in batches of 50, until `limit` closed positions are found.
mod Batches
pub mod Report
pub mod Newest
use Prim.Native.Nat.{max}
use protocol_monorepo.Common.{
  ℕ, zero, suc, ◌+◌, ◌-◌, Bool, not, ◌&&◌, ◌++◌, Option, none, some, List, [], ◌∷◌, Result, ok, err,
  length, leb, ltb, ◌==◌, if◌then◌else◌, ◌>>=◌,
}
use protocol_monorepo.Common.Text.{Text}
use protocol_monorepo.Tokens.Catalog.{TokenCatalog}
use protocol_monorepo.Orders.Errors.{OrderFailure}
use protocol_monorepo.Orders.Chain.{Chain, TradingConfig, PositionOnChain}
use protocol_monorepo.Orders.Checks.{position_status_closed}
use protocol_monorepo.Orders.Positions.{PositionRecord, map_position_record, some_if, push_some}

abbrev pub closed_position_max_scan : ℕ
closed_position_max_scan = 500

abbrev pub closed_position_multicall_batch : ℕ
closed_position_multicall_batch = 50

-- `for (let id = end; id >= start; id--)`, with the number of the ids.
unfoldable pub ids_down : ℕ → ℕ → List ℕ
ids_down zero end = []
ids_down (suc n) end = end ∷ ids_down n (end - 1)

abbrev pub is_closed_match : ℕ → PositionOnChain → Bool
is_closed_match agent_id position =
    position.agent_id == agent_id
    && position.status == position_status_closed
    && not (position.position_id == 0)

-- After a batch the loop goes on with what it has found, unless it threw.
abbrev pub after_batch :
    {A B : Type 0}
    → Result OrderFailure A
    → (A → Option (Result OrderFailure B))
    → Option (Result OrderFailure B)
after_batch (err e) next = some (err e)
after_batch (ok found) next = next found

module _ {W : Type 0} (chain : Chain W) (config : TradingConfig) (catalog : TokenCatalog) (w : W)
    (agent_id_str : Text) (agent_id : ℕ) where
  -- A call of a multicall answers what the single read answers; the loop throws the first failure.
  unfoldable pub closed_matches : List ℕ → Result OrderFailure (List (ℕ × PositionOnChain))
  closed_matches [] = ok []
  closed_matches (position_id ∷ ids) = do
    position ← chain.get_position w position_id
    later ← closed_matches ids
    ok (push_some (some_if (is_closed_match agent_id position) (position_id, position)) later)

  -- `room` is how many more positions fit under the limit.
  unfoldable pub closed_records :
      ℕ → List (ℕ × PositionOnChain) → Result OrderFailure (List PositionRecord)
  closed_records zero matches = ok []
  closed_records (suc room) [] = ok []
  closed_records (suc room) ((position_id, position) ∷ matches) = do
    realized ← chain.realized_pnl_usdc w position_id
    exit_rules ← chain.get_exit_rules w position_id
    later ← closed_records room matches
    ok (
        map_position_record config catalog position exit_rules agent_id_str none (some realized)
        ∷ later)

  unfoldable pub batch_records : ℕ → ℕ → ℕ → Result OrderFailure (List PositionRecord)
  unfolding closed_matches closed_records ids_down
  batch_records room scan_start batch_end = do
    let batch_start = max scan_start (batch_end + 1 - closed_position_multicall_batch)
    matches ← closed_matches (ids_down (batch_end + 1 - batch_start) batch_end)
    closed_records room matches

  module _ (limit scan_start : ℕ) where
    -- `none` when the fuel runs out.
    unfoldable pub closed_loop :
        ℕ → ℕ → List PositionRecord → Option (Result OrderFailure (List PositionRecord))
    closed_loop zero batch_end positions = none
    closed_loop (suc fuel) batch_end positions =
        if leb scan_start batch_end && ltb (length positions) limit
        then after_batch (batch_records (limit - length positions) scan_start batch_end) (λ found.
          closed_loop fuel (batch_end - closed_position_multicall_batch) (positions ++ found))
        else some (ok positions)

  -- Ten batches cover the ids, and an eleventh turn ends the loop.
  unfoldable pub scan_total : ℕ → ℕ → Option (Result OrderFailure (List PositionRecord))
  unfolding closed_loop batch_records
  scan_total limit total =
      if total == 0
      then some (ok [])
      else closed_loop limit (max 1 (total + 1 - closed_position_max_scan)) 11 total []

  unfoldable pub scan_closed_positions : ℕ → Option (Result OrderFailure (List PositionRecord))
  unfolding scan_total
  scan_closed_positions limit = after_batch (chain.position_count w) (scan_total limit)
