-- ===== src/Trading/Risk/Limits.antt =====
-- What the two breach flags of the risk state mean, and how they relate to the utilisation.
use native.Mathlib.Nat.{div-mul-le_self, lt-div-mul-add}
use protocol_monorepo.Common.{
  Option, ◌+◌, ◌==◌, ◌⊎◌, inl, inr, false, Bool-cases, ltb, ltb→lt, ℕ, ◌*◌, ◌/◌, ◌≤◌, ◌<◌, ◌≡◌, ◌↔◌,
  none, some, true, arith,
}
use protocol_monorepo.Common.Int.{pos_part, ◌-ℤ◌}
use protocol_monorepo.Trading.Metrics.{max_daily_loss_usdc, daily_loss_used_usdc, utilization_bps}
use protocol_monorepo.Trading.Metrics.Bounds.{ratio_ge, ratio_le}
use protocol_monorepo.Trading.Risk.{Readings, breaches_of, derived_of}

-- The daily-loss flag is set exactly when a daily limit is configured and the loss used today, the
-- figure that is reported beside the flag, exceeds the reported maximum.
daily_loss_breach_iff :
    (r : Readings)
    → ((breaches_of r).daily_loss ≡ true) ↔ (
        (0 < r.track.max_daily_loss_bps)
        × (max_daily_loss_usdc r.allocation.cap r.track.max_daily_loss_bps
            < pos_part (derived_of r).daily_loss_used_usdc))
unfolding breaches_of derived_of daily_loss_used_usdc ◌-ℤ◌
daily_loss_breach_iff r = ground arith

drawdown_breach_agrees :
    (r : Readings)
    → (((breaches_of r).drawdown ≡ true)
        × (u : ℕ) × ((derived_of r).drawdown_utilization_bps ≡ some u)
        × (10000 ≤ u))
      ⊎ (((breaches_of r).drawdown ≡ false)
          × (((derived_of r).drawdown_utilization_bps ≡ none)
              ⊎ ((u : ℕ) × ((derived_of r).drawdown_utilization_bps ≡ some u) × (u ≤ 10000))))
unfolding breaches_of derived_of utilization_bps
drawdown_breach_agrees r =
    let current = r.current_drawdown_bps in
    let max = r.track.max_drawdown_bps in
    elim (Bool-cases (ltb 0 max)) [
      | inr off ↦ inr (ground (arith, off), inl (ground (arith, off)))
      | inl on ↦ elim (Bool-cases (ltb max current)) [
        | inl over ↦ inl (
          ground (arith, on, over),
          current * 10000 / max,
          ground (arith, on),
          ratio_ge current max (ltb→lt 0 max on) (ground (arith, over)),
        )
        | inr under ↦ inr (
          ground (arith, on, under),
          inr (
            current * 10000 / max,
            ground (arith, on),
            ratio_le current max (ground (arith, under)),
          ),
        )
      ]
    ]

drawdown_breach_iff :
    (r : Readings)
    → ((breaches_of r).drawdown ≡ true)
      ↔ ((0 < r.track.max_drawdown_bps) × (r.track.max_drawdown_bps < r.current_drawdown_bps))
unfolding breaches_of
drawdown_breach_iff r = ground arith

-- A share of a whole in basis points, rounded down.
abbrev pub IsShare : ℕ → ℕ → Option ℕ → Type 0
IsShare part whole none = whole ≡ 0
IsShare part whole (some u) =
    (0 < whole) × (u * whole ≤ part * 10000) × (part * 10000 < u * whole + whole)

drawdown_utilization-IsShare :
    (r : Readings)
    → IsShare r.current_drawdown_bps r.track.max_drawdown_bps
        (derived_of r).drawdown_utilization_bps
unfolding derived_of utilization_bps
drawdown_utilization-IsShare r =
    let current = r.current_drawdown_bps in
    let max = r.track.max_drawdown_bps in
    elim (Bool-cases (max == 0)) [
      | inl off ↦ rw off (ground arith)
      | inr on ↦
          let above : 0 < max = ground arith in
          rw on (above, div-mul-le_self (current * 10000) max, lt-div-mul-add above)
    ]

-- The drawdown flag is set exactly when a maximum is configured and the drawdown exceeds it. The
-- utilisation beside it is the drawdown's share of the maximum in bps, rounded down, when there is a
-- maximum, and is none otherwise; so with the flag set it is at least 10000 bps, and without it there
-- is none, or it is at most 10000 bps.
pub drawdown_breach-utilization :
    (r : Readings)
    → (((breaches_of r).drawdown ≡ true)
        ↔ ((0 < r.track.max_drawdown_bps) × (r.track.max_drawdown_bps < r.current_drawdown_bps)))
      × IsShare r.current_drawdown_bps r.track.max_drawdown_bps
          (derived_of r).drawdown_utilization_bps
      × ((((breaches_of r).drawdown ≡ true)
            × (u : ℕ) × ((derived_of r).drawdown_utilization_bps ≡ some u)
            × (10000 ≤ u))
          ⊎ (((breaches_of r).drawdown ≡ false)
              × (((derived_of r).drawdown_utilization_bps ≡ none)
                  ⊎ ((u : ℕ) × ((derived_of r).drawdown_utilization_bps ≡ some u) × (u ≤ 10000)))))
drawdown_breach-utilization r =
    (drawdown_breach_iff r, drawdown_utilization-IsShare r, drawdown_breach_agrees r)
