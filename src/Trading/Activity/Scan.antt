-- ===== src/Trading/Activity/Scan.antt =====
-- The fetch of one range of blocks, the backward scan over ranges, and the whole request. What the
-- RPC client answers is an argument; `none` is a halving fetch that has not ended within its fuel.
use protocol_monorepo.Common.{
  ℕ, zero, suc, ◌+◌, ◌-◌, Bool, true, false, Option, none, some, List, [], ◌∷◌, ◌++◌, map, Result,
  ok, err, ltb, leb, if◌then◌else◌, length, take, map_ok,
}
use mathlib.Core.Option
use protocol_monorepo.Tokens.Catalog.{TokenCatalog}
use protocol_monorepo.Trading.LogScan.{
  Thrown, both, fetch_in_adaptive_block_range, log_scan_window, max_log_block_range,
  max_consecutive_empty_log_chunks, max_log_scan_chunks,
}
use protocol_monorepo.Trading.Activity.Events.{
  TradeRouterEventName, trade_router_event_names, Log, RawActivity, map_trade_router_log,
  map_position_closed_log, sort_newest_first,
}

-- `minBlockRange = 50n` of fetchInAdaptiveBlockRange.
abbrev pub default_min_block_range : ℕ
default_min_block_range = 50

-- More rounds than a window of 999 blocks can need.
abbrev pub halving_fuel : ℕ
halving_fuel = 1000

-- The RPC client, for the logs of one agent.
pub record Client : Type 0 where
  pub router_events : TradeRouterEventName → ℕ → ℕ → Result Thrown (List Log)
  pub closed_events : ℕ → ℕ → Result Thrown (List Log)
  pub block_number : Result Thrown ℕ
  pub block_timestamp : ℕ → Result Thrown ℕ
  pub race : Thrown → Thrown → Thrown

module _ (client : Client) where
  unfoldable pub adaptive :
      (ℕ → ℕ → Result Thrown (List Log)) → ℕ → ℕ → Option (Result Thrown (List Log))
  adaptive fetch =
      fetch_in_adaptive_block_range fetch client.race default_min_block_range halving_fuel

  module _ (catalog : TokenCatalog) (chain_id : ℕ) where
    unfoldable pub router_activities :
        ℕ → ℕ → List TradeRouterEventName → Option (Result Thrown (List RawActivity))
    unfolding adaptive
    router_activities from_block to_block [] = some (ok [])
    router_activities from_block to_block (name ∷ names) =
        both client.race
          (Option.map (map_ok (map (map_trade_router_log catalog chain_id name)))
            (adaptive (client.router_events name) from_block to_block))
          (router_activities from_block to_block names)

    unfoldable pub fetch_trade_router_activities_in_range :
        ℕ → ℕ → Option (Result Thrown (List RawActivity))
    unfolding router_activities
    fetch_trade_router_activities_in_range from_block to_block =
        router_activities from_block to_block trade_router_event_names

    unfoldable pub fetch_position_closed_in_range :
        ℕ → ℕ → Option (Result Thrown (List RawActivity))
    unfolding adaptive
    fetch_position_closed_in_range from_block to_block =
        Option.map (map_ok (map map_position_closed_log))
          (adaptive client.closed_events from_block to_block)

    -- One round's batch; without a position manager there are no closing logs.
    unfoldable pub fetch_batch : Bool → ℕ → ℕ → Option (Result Thrown (List RawActivity))
    unfolding fetch_trade_router_activities_in_range fetch_position_closed_in_range both
    fetch_batch has_position_manager from_block to_block =
        both client.race (fetch_trade_router_activities_in_range from_block to_block) (
          if has_position_manager
          then fetch_position_closed_in_range from_block to_block
          else some (ok []))

-- `emptyChunks` and `activities` after a round.
abbrev pub count_empty : List RawActivity → ℕ → ℕ
count_empty [] empty_chunks = empty_chunks + 1
count_empty (a ∷ batch) empty_chunks = 0

abbrev pub add_batch : List RawActivity → List RawActivity → List RawActivity
add_batch [] activities = activities
add_batch (a ∷ batch) activities = sort_newest_first (activities ++ a ∷ batch)

-- Whether the round's batch ends the scan.
abbrev pub ends_scan : ℕ → List RawActivity → ℕ → List RawActivity → Bool
ends_scan limit [] empty_chunks [] = leb max_consecutive_empty_log_chunks (empty_chunks + 1)
ends_scan limit [] empty_chunks (b ∷ activities) = false
ends_scan limit (a ∷ batch) empty_chunks activities =
    leb limit (length (sort_newest_first (activities ++ a ∷ batch)))

module _ (batch_of : ℕ → ℕ → Option (Result Thrown (List RawActivity)))
    (limit min_scan_block : ℕ) where
  -- The `while` loop; `rounds` is MAX_LOG_SCAN_CHUNKS less the chunks so far.
  unfoldable pub scan_loop :
      ℕ → ℕ → ℕ → List RawActivity → Option (Result Thrown (List RawActivity))
  scan_loop zero to_block empty_chunks activities = some (ok activities)
  scan_loop (suc rounds) to_block empty_chunks activities = elim (ltb to_block min_scan_block) [
    | true ↦ some (ok activities)
    | false ↦
        let from_block = (log_scan_window to_block max_log_block_range min_scan_block).from_block in
        elim (batch_of from_block to_block) [
          | none ↦ none
          | some (err e) ↦ some (err e)
          | some (ok batch) ↦
              let activities' = add_batch batch activities in
              let rest =
                scan_loop rounds (from_block - 1) (count_empty batch empty_chunks) activities' in
              if ends_scan limit batch empty_chunks activities
              then some (ok activities')
              else if leb from_block min_scan_block
              then some (ok activities')
              else rest
        ]
  ]

  unfoldable pub scan_activities_backwards : ℕ → Option (Result Thrown (List RawActivity))
  unfolding scan_loop
  scan_activities_backwards latest_block =
      Option.map (map_ok (λ activities. take limit (sort_newest_first activities)))
        (scan_loop max_log_scan_chunks latest_block 0 [])
