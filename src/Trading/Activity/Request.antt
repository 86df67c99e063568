-- ===== src/Trading/Activity/Request.antt =====
-- Timestamps, and the whole request for an agent's trade activity.
use mathlib.Core.Option
use protocol_monorepo.Common.{
  ℕ, Bool, Option, none, some, List, [], ◌∷◌, map, Result, ok, err, ◌==◌, any, if◌then◌else◌,
  get_or_else, ◌>>=◌,
}
use protocol_monorepo.Tokens.Catalog.{TokenCatalog}
use protocol_monorepo.Trading.LogScan.{Thrown}
use protocol_monorepo.Trading.Activity.Events.{RawActivity}
use protocol_monorepo.Trading.Activity.Scan.{Client, fetch_batch, scan_activities_backwards}

pub record AgentTradeActivity : Type 0 where
  pub raw : RawActivity
  pub timestamp : ℕ

-- `[...new Set(blocks)]`; of repeated numbers the last is kept, which no reader can tell.
unfoldable pub unique_blocks : List ℕ → List ℕ
unique_blocks [] = []
unique_blocks (b ∷ bs) =
    let rest = unique_blocks bs in if any (λ c. c == b) bs then rest else b ∷ rest

unfoldable pub lookup_block : ℕ → List (ℕ × ℕ) → Option ℕ
lookup_block b [] = none
lookup_block b ((c, t) ∷ more) = if c == b then some t else lookup_block b more

-- One more settled read of `Promise.all`.
abbrev pub add_reading :
    (Thrown → Thrown → Thrown)
    → ℕ
    → Result Thrown ℕ
    → Result Thrown (List (ℕ × ℕ))
    → Result Thrown (List (ℕ × ℕ))
add_reading race b (ok t) (ok more) = ok ((b, t) ∷ more)
add_reading race b (ok t) (err e) = err e
add_reading race b (err e) (ok more) = err e
add_reading race b (err e) (err f) = err (race e f)

module _ (client : Client) where
  unfoldable pub block_timestamps : List ℕ → Result Thrown (List (ℕ × ℕ))
  block_timestamps [] = ok []
  block_timestamps (b ∷ bs) =
      add_reading client.race b (client.block_timestamp b) (block_timestamps bs)

  unfoldable pub attach_timestamps : List RawActivity → Result Thrown (List AgentTradeActivity)
  unfolding block_timestamps unique_blocks lookup_block
  attach_timestamps activities = do
    timestamp_by_block ← block_timestamps (unique_blocks (map RawActivity.block_number activities))
    ok (
        map
          (λ a. record {
            raw = a;
            timestamp = get_or_else (lookup_block a.block_number timestamp_by_block) 0;
          })
          activities)

  module _ (catalog : TokenCatalog) (chain_id : ℕ) (has_position_manager : Bool)
      (limit min_scan_block : ℕ) where
    -- `getBlockNumber`, then the scan.
    unfoldable pub scan_from_latest : Result Thrown ℕ → Option (Result Thrown (List RawActivity))
    unfolding scan_activities_backwards fetch_batch
    scan_from_latest (err e) = some (err e)
    scan_from_latest (ok latest_block) =
        scan_activities_backwards (fetch_batch client catalog chain_id has_position_manager) limit
          min_scan_block latest_block

    unfoldable pub fetch_agent_trade_activity : Option (Result Thrown (List AgentTradeActivity))
    unfolding scan_from_latest attach_timestamps
    fetch_agent_trade_activity =
        Option.map (λ r. r >>= attach_timestamps) (scan_from_latest client.block_number)
