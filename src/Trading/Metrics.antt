-- ===== src/Trading/Metrics.antt =====
-- api/src/lib/trading/metrics.ts: returns, utilisation and promotion readiness.
-- Allocation caps, cost bases and limits are unsigned on chain (uint256) and stand as ℕ; equity and
-- profit are signed and stand as ℤ. `Number(…)` of a ratio in basis points is taken to be exact.
pub mod Bounds
pub mod Promotion
use protocol_monorepo.Common.{
  ℕ, ◌-◌, ◌*◌, ◌/◌, String, Bool, true, false, not, ◌&&◌, Option, none, some, List, [], ◌∷◌, ◌++◌,
  ltb, leb, ◌==◌, if◌then◌else◌, get_or_else,
}
use protocol_monorepo.Common.Int.{ℤ, pos, ◌-ℤ◌, ltb_ℤ, scale, quot}

unfoldable pub account_return_bps : ℕ → ℤ → Option ℤ
account_return_bps cap equity =
    if cap == 0 then none else some (quot (scale (equity -ℤ pos cap) 10000) cap)

-- `Math.floor` of a division of doubles, exact for the basis points that reach it.
unfoldable pub utilization_bps : ℕ → ℕ → Option ℕ
utilization_bps current limit = if limit == 0 then none else some (current * 10000 / limit)

unfoldable pub max_daily_loss_usdc : ℕ → ℕ → ℕ
max_daily_loss_usdc cap max_daily_loss_bps = cap * max_daily_loss_bps / 10000

unfoldable pub daily_loss_used_usdc : ℤ → ℤ
daily_loss_used_usdc daily = if ltb_ℤ daily (pos 0) then pos 0 -ℤ daily else pos 0

unfoldable pub account_unrealized_usdc : ℕ → ℤ → ℤ → ℤ
account_unrealized_usdc cap lifetime_realized equity = equity -ℤ pos cap -ℤ lifetime_realized

unfoldable pub position_return_bps : ℕ → ℤ → Option ℤ
position_return_bps cost_basis pnl =
    if cost_basis == 0 then none else some (quot (scale pnl 10000) cost_basis)

unfoldable pub position_total_pnl_usdc : Bool → Option ℤ → Option ℤ → ℤ
position_total_pnl_usdc is_open unrealized realized =
    if is_open then get_or_else unrealized (pos 0) else get_or_else realized (pos 0)

unfoldable pub utilization_bps_from_bigint : ℤ → ℕ → Option ℤ
utilization_bps_from_bigint current limit =
    if limit == 0 then none else some (quot (scale current 10000) limit)

pub data Blocker : Type 0 where
  alpha_score_unavailable min_trades_not_met evaluation_period_not_met : Blocker
  drawdown_breached daily_loss_breached agent_not_active : Blocker

pub record PromotionParams : Type 0 where
  pub min_trades : ℕ
  pub positions_closed : ℕ
  pub evaluation_period_seconds : ℕ
  pub created_at_seconds : ℕ
  pub now_seconds : ℕ
  pub promotion_score_required : ℕ
  pub drawdown_breached : Bool
  pub daily_loss_breached : Bool
  pub agent_status : ℕ
  pub agent_status_active : ℕ

-- `alphaScore` and `meetsAlphaScore` are the constant null and are left out.
pub record PromotionReadiness : Type 0 where
  pub min_trades_required : ℕ
  pub trades_completed : ℕ
  pub meets_min_trades : Bool
  pub evaluation_period_seconds : ℕ
  pub evaluation_elapsed_seconds : ℕ
  pub meets_evaluation_period : Bool
  pub promotion_score_required : ℕ
  pub eligible : Bool
  pub blockers : List Blocker

-- `if (b) blockers.push(x)`
abbrev push_if : Bool → Blocker → List Blocker → List Blocker
push_if b x xs = if b then xs ++ x ∷ [] else xs

elapsed : PromotionParams → ℕ
elapsed p =
    if ltb p.created_at_seconds p.now_seconds then p.now_seconds - p.created_at_seconds else 0

blockers_of : PromotionParams → List Blocker
unfolding elapsed
blockers_of p =
    let meets_min_trades = leb p.min_trades p.positions_closed in
    let meets_evaluation_period = leb p.evaluation_period_seconds (elapsed p) in
    let b0 : List Blocker = alpha_score_unavailable ∷ [] in
    let b1 = push_if (not meets_min_trades) min_trades_not_met b0 in
    let b2 = push_if (not meets_evaluation_period) evaluation_period_not_met b1 in
    let b3 = push_if p.drawdown_breached drawdown_breached b2 in
    let b4 = push_if p.daily_loss_breached daily_loss_breached b3 in
    push_if (not (p.agent_status == p.agent_status_active)) agent_not_active b4

unfoldable pub build_promotion_readiness : PromotionParams → PromotionReadiness
unfolding elapsed blockers_of
build_promotion_readiness p =
    let meets_min_trades = leb p.min_trades p.positions_closed in
    let meets_evaluation_period = leb p.evaluation_period_seconds (elapsed p) in
    record {
      min_trades_required = p.min_trades;
      trades_completed = p.positions_closed;
      meets_min_trades = meets_min_trades;
      evaluation_period_seconds = p.evaluation_period_seconds;
      evaluation_elapsed_seconds = elapsed p;
      meets_evaluation_period = meets_evaluation_period;
      promotion_score_required = p.promotion_score_required;
      eligible =
          meets_min_trades
          && meets_evaluation_period
          && not p.drawdown_breached
          && not p.daily_loss_breached
          && (p.agent_status == p.agent_status_active)
          && false;
      blockers = blockers_of p;
    }
