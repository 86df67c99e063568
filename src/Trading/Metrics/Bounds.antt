-- ===== src/Trading/Metrics/Bounds.antt =====
-- How the ratios in basis points round, and the identities between the metrics.
use native.Mathlib.Nat.{le-div_iff_mul-le, div-le_of_le-mul, div-mul-le_self, lt-div-mul-add}
use protocol_monorepo.Common.{ℕ, ◌+◌, ◌*◌, ◌/◌, ◌≤◌, ◌<◌, ◌≡◌, some, arith}
use protocol_monorepo.Common.Int.{
  ℤ, pos, ◌+ℤ◌, ◌-ℤ◌, ◌≤ℤ◌, abs_ℕ, scale, quot, abs_ℕ-quot, quot_sign, int_laws,
}
use protocol_monorepo.Trading.Metrics.{
  account_return_bps, utilization_bps, account_unrealized_usdc, position_return_bps,
}

-- A share of at least the whole is at least 10000 bps, and one of at most the whole at most that.
pub ratio_ge : (a l : ℕ) → 0 < l → l ≤ a → 10000 ≤ a * 10000 / l
ratio_ge a l h k = (le-div_iff_mul-le h).1 (omega arith)

pub ratio_le : (a l : ℕ) → a ≤ l → a * 10000 / l ≤ 10000
ratio_le a l k = div-le_of_le-mul l (omega arith)

-- The cap, the lifetime realized profit and the derived unrealized profit add up to the equity.
pub account_unrealized_usdc_identity :
    (cap : ℕ) (lifetime equity : ℤ)
    → pos cap +ℤ lifetime +ℤ account_unrealized_usdc cap lifetime equity ≡ equity
unfolding account_unrealized_usdc
account_unrealized_usdc_identity cap lifetime equity = omega int_laws

-- With a positive limit the utilisation is the floor of current * 10000 / limit.
pub utilization_bps_floor :
    (current limit : ℕ)
    → 0 < limit
    → (u : ℕ) × (utilization_bps current limit ≡ some u)
      × (u * limit ≤ current * 10000)
      × (current * 10000 < (u + 1) * limit)
unfolding utilization_bps
utilization_bps_floor current limit h =
    (current * 10000 / limit, ground arith, grind arith, grind arith)

-- q is a / d truncated towards zero.
abbrev pub IsTruncated : ℤ → ℕ → ℤ → Type 0
IsTruncated a d q =
    (abs_ℕ q * d ≤ abs_ℕ a)
    × (abs_ℕ a < (abs_ℕ q + 1) * d)
    × (pos 0 ≤ℤ a → pos 0 ≤ℤ q)
    × (a ≤ℤ pos 0 → q ≤ℤ pos 0)

quot-IsTruncated : (a : ℤ) (d : ℕ) → 0 < d → IsTruncated a d (quot a d)
quot-IsTruncated a d h = (
  rw abs_ℕ-quot (div-mul-le_self (abs_ℕ a) d),
  rw abs_ℕ-quot (omega (arith, lt-div-mul-add {a = abs_ℕ a} h)),
  (quot_sign a d).0,
  (quot_sign a d).1,
)

-- The return of an account on a positive cap, and that of a position on a positive cost basis, is
-- the exact ratio in basis points truncated towards zero.
pub return_bps-IsTruncated :
    (base : ℕ) (equity pnl : ℤ)
    → 0 < base
    → ((q : ℤ) × (account_return_bps base equity ≡ some q)
        × IsTruncated (scale (equity -ℤ pos base) 10000) base q)
      × ((q : ℤ) × (position_return_bps base pnl ≡ some q) × IsTruncated (scale pnl 10000) base q)
unfolding account_return_bps position_return_bps
return_bps-IsTruncated base equity pnl h = (
  (quot (scale (equity -ℤ pos base) 10000) base, ground arith, quot-IsTruncated _ base h),
  (quot (scale pnl 10000) base, ground arith, quot-IsTruncated _ base h),
)
