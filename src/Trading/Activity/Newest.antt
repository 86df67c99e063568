-- ===== src/Trading/Activity/Newest.antt =====
-- What the backward scan, scanActivitiesBackwards, returns, and how far back it reads.
use mathlib.Core.List.{Perm}
use mathlib.Core.List.Perm
use mathlib.Core.Option
use protocol_monorepo.Common.{
  ℕ, ◌+◌, ◌*◌, ◌≤◌, ◌≡◌, ◌⊎◌, List, [], ◌++◌, Option, some, Result, ok, length,
}
use protocol_monorepo.Trading.LogScan.{Thrown}
use protocol_monorepo.Trading.LogScan.Halving.{logs_between}
use protocol_monorepo.Trading.Activity.{RawActivity}

module _ (batch_of : ℕ → ℕ → Option (Result Thrown (List RawActivity))) (limit min_scan_block : ℕ)
    (activities_at : ℕ → List RawActivity) where
  -- A batch holds the activities of exactly the blocks of its range, in any order.
  abbrev pub Batches : Type 0
  Batches =
      (from_block to_block : ℕ) (batch : List RawActivity)
      → batch_of from_block to_block ≡ some (ok batch)
      → Perm batch (logs_between activities_at from_block to_block)

  -- Why a scan from `latest` that has read down to block `low` has stopped with `xs`.
  abbrev pub Stops : ℕ → ℕ → List RawActivity → Type 0
  Stops latest low xs =
      (low ≤ min_scan_block)
      ⊎ (limit ≤ length xs)
      ⊎ ((xs ≡ []) × (low + 999 * 32 ≤ latest + 1))
      ⊎ (low + 999 * 128 ≤ latest + 1)

  abbrev Scanned : ℕ → ℕ → List RawActivity → List RawActivity → Type 0
  Scanned latest to_block acts xs =
      (low : ℕ) × (low ≤ to_block + 1)
      × Perm xs (acts ++ logs_between activities_at low to_block)
      × Stops latest low xs
