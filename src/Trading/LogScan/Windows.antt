-- ===== src/Trading/LogScan/Windows.antt =====
-- The windows of a backward scan.
use protocol_monorepo.Common.{ℕ, ◌≤◌, ◌≡◌, ◌⊎◌, arith}
use protocol_monorepo.Trading.LogScan.{log_scan_window, block_range_span}

-- A window that is asked for at or above the lower bound ends where it was asked to, starts at or
-- above the bound, is not empty, spans at most `max_range` blocks, and is that wide unless it starts
-- at the bound or at block 0.
pub log_scan_window_shape :
    (to_block max_range min_scan : ℕ)
    → 1 ≤ max_range
    → min_scan ≤ to_block
    → let w = log_scan_window to_block max_range min_scan in
      (w.to_block ≡ to_block)
      × (min_scan ≤ w.from_block)
      × (w.from_block ≤ w.to_block)
      × (block_range_span w.from_block w.to_block ≤ max_range)
      × ((block_range_span w.from_block w.to_block ≡ max_range)
          ⊎ (w.from_block ≡ min_scan)
          ⊎ (w.from_block ≡ 0))
unfolding log_scan_window block_range_span
log_scan_window_shape to_block max_range min_scan h k = ground arith
