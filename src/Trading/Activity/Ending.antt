-- ===== src/Trading/Activity/Ending.antt =====
-- The ending of a request for the trade activity, fetchAgentTradeActivity.
use mathlib.Core.Option
use protocol_monorepo.Common.{
  ℕ, zero, suc, ◌<◌, ◌≢◌, refl, inl, inr, Bool, true, false, List, [], ◌∷◌, Option, none, some,
  Result, ok, err, arith, Option-cases, ◌-◌, Result-cases,
}
use protocol_monorepo.Tokens.Catalog.{TokenCatalog}
use protocol_monorepo.Trading.LogScan.{
  Thrown, log_scan_window, block_range_span, max_log_block_range, max_log_scan_chunks,
}
use protocol_monorepo.Trading.LogScan.Halving.{both-ne-none, halving-ne-none}
use protocol_monorepo.Trading.Activity.{
  Client, RawActivity, TradeRouterEventName, trade_router_event_names, fetch_batch, scan_loop,
  scan_activities_backwards, router_activities, count_empty, add_batch, fetch_agent_trade_activity,
  scan_from_latest,
}

map-ne-none {ℓ κ} :
    {A : Type ℓ} {B : Type κ} (f : A → B) (o : Option A) → o ≢ none → Option.map f o ≢ none
map-ne-none f none h = absurd (h refl)
map-ne-none f (some a) h = cc

module _ (client : Client) (catalog : TokenCatalog) (chain_id : ℕ) where
  router_activities-ne-none :
      (from_block to_block : ℕ) (names : List TradeRouterEventName)
      → block_range_span from_block to_block < 1000
      → router_activities client catalog chain_id from_block to_block names ≢ none
  unfolding router_activities
  router_activities-ne-none from_block to_block [] h = cc
  router_activities-ne-none from_block to_block (name ∷ names) h =
      both-ne-none client.race _ _
        (map-ne-none _ _ (
          halving-ne-none (client.router_events name) client.race 50 1000 from_block to_block
            (omega arith) h))
        (router_activities-ne-none from_block to_block names h)

  fetch_batch-ne-none :
      (manager : Bool) (from_block to_block : ℕ)
      → block_range_span from_block to_block < 1000
      → fetch_batch client catalog chain_id manager from_block to_block ≢ none
  unfolding fetch_batch
  fetch_batch-ne-none true from_block to_block h =
      both-ne-none client.race _ _
        (router_activities-ne-none from_block to_block trade_router_event_names h)
        (map-ne-none _ _ (
          halving-ne-none client.closed_events client.race 50 1000 from_block to_block (omega arith)
            h))
  fetch_batch-ne-none false from_block to_block h =
      both-ne-none client.race _ (some (ok []))
        (router_activities-ne-none from_block to_block trade_router_event_names h) (cc)

window-span :
    (to_block min_scan_block : ℕ)
    → block_range_span
        (log_scan_window to_block max_log_block_range min_scan_block).from_block
        to_block
      < 1000
unfolding log_scan_window block_range_span
window-span to_block min_scan_block = ground arith

scan_loop-ne-none :
    (batch_of : ℕ → ℕ → Option (Result Thrown (List RawActivity))) (limit min_scan_block : ℕ)
    → ((f t : ℕ) → block_range_span f t < 1000 → batch_of f t ≢ none)
    → (rounds to_block empty : ℕ) (acts : List RawActivity)
    → scan_loop batch_of limit min_scan_block rounds to_block empty acts ≢ none
unfolding scan_loop
scan_loop-ne-none batch_of limit min_scan_block h zero to_block empty acts = cc
scan_loop-ne-none batch_of limit min_scan_block h (suc rounds) to_block empty acts =
    let w = log_scan_window to_block max_log_block_range min_scan_block in
    elim (Option-cases (batch_of w.from_block to_block)) [
      | inl missing ↦
          ground (arith, h w.from_block to_block (window-span to_block min_scan_block) missing)
      | inr (o, got) ↦ elim (Result-cases o) [
        | inr (t, bad) ↦ ground arith
        | inl (batch, good) ↦ ground (
          arith,
          scan_loop-ne-none batch_of limit min_scan_block h rounds (w.from_block - 1)
              (count_empty batch empty) (add_batch batch acts),
        )
      ]
    ]

scan_from_latest-ne-none :
    (client : Client) (catalog : TokenCatalog) (chain_id : ℕ) (has_position_manager : Bool)
    (limit min_scan_block : ℕ) (latest : Result Thrown ℕ)
    → scan_from_latest client catalog chain_id has_position_manager limit min_scan_block latest
      ≢ none
unfolding scan_from_latest scan_activities_backwards
scan_from_latest-ne-none client catalog chain_id manager limit min_scan_block (err e) = cc
scan_from_latest-ne-none client catalog chain_id manager limit min_scan_block (ok latest) =
    map-ne-none _ _ (
      scan_loop-ne-none (fetch_batch client catalog chain_id manager) limit min_scan_block
        (fetch_batch-ne-none client catalog chain_id manager) max_log_scan_chunks latest 0 [])

-- The request always ends, with activities or with an error of the client.
pub fetch_agent_trade_activity-total :
    (client : Client) (catalog : TokenCatalog) (chain_id : ℕ) (has_position_manager : Bool)
    (limit min_scan_block : ℕ)
    → fetch_agent_trade_activity client catalog chain_id has_position_manager limit min_scan_block
      ≢ none
unfolding fetch_agent_trade_activity
fetch_agent_trade_activity-total client catalog chain_id manager limit min_scan_block =
    map-ne-none _ _ (
      scan_from_latest-ne-none client catalog chain_id manager limit min_scan_block
        client.block_number)
