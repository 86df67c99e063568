-- ===== src/Trading/Risk.antt =====
-- `TradingService.getRiskState` of api/src/services/trading.service.ts. What it reads on chain is
-- an input: the agent's record (or the error of the read), its allocation, its track and its equity.
pub mod Limits
use protocol_monorepo.Common.{
  ℕ, ◌-◌, Bool, false, Option, some, Result, ok, err, ltb, if◌then◌else◌,
}
use protocol_monorepo.Common.Int.{ℤ, pos, neg_ℕ, ltb_ℤ, pos_part}
use protocol_monorepo.Trading.Metrics.{
  account_return_bps, account_unrealized_usdc, utilization_bps, max_daily_loss_usdc,
  daily_loss_used_usdc, utilization_bps_from_bigint, PromotionReadiness, build_promotion_readiness,
}

pub data ReadError : Type 0 where
  agent_not_found unavailable : ReadError

pub data RiskError : Type 0 where
  not_found : RiskError
  rethrown : ReadError → RiskError

pub record Agent : Type 0 where
  pub status : ℕ
  pub created_at : ℕ

pub record Allocation : Type 0 where
  pub cap : ℕ
  pub used : ℕ

pub record TrackConfig : Type 0 where
  pub max_daily_loss_bps : ℕ
  pub max_drawdown_bps : ℕ
  pub min_trades : ℕ
  pub evaluation_period : ℕ
  pub promotion_score : ℕ

pub record Readings : Type 0 where
  pub allocation : Allocation
  pub track : TrackConfig
  pub peak_usdc : ℤ
  pub current_usdc : ℤ
  pub current_drawdown_bps : ℕ
  pub lifetime_realized_usdc : ℤ
  pub daily_realized_usdc : ℤ
  pub positions_opened : ℕ
  pub positions_closed : ℕ
  pub open_position_count : ℕ
  pub now_seconds : ℕ

pub record Breaches : Type 0 where
  pub drawdown : Bool
  pub daily_loss : Bool

pub record Derived : Type 0 where
  pub return_bps : Option ℤ
  pub unrealized_pnl_usdc : ℤ
  pub drawdown_utilization_bps : Option ℕ
  pub max_daily_loss_usdc : ℕ
  pub daily_loss_used_usdc : ℤ
  pub daily_loss_utilization_bps : Option ℤ

pub record RiskState : Type 0 where
  pub available : ℕ
  pub readings : Readings
  pub breaches : Breaches
  pub derived : Derived
  pub promotion_readiness : PromotionReadiness

abbrev pub agent_status_active : ℕ
agent_status_active = 1

-- `allocation.cap > allocation.used ? allocation.cap - allocation.used : 0n`
pub available_of : Allocation → ℕ
available_of a = if ltb a.used a.cap then a.cap - a.used else 0

pub breaches_of : Readings → Breaches
breaches_of r = record {
  drawdown =
      if ltb 0 r.track.max_drawdown_bps
      then ltb r.track.max_drawdown_bps r.current_drawdown_bps
      else false;
  daily_loss =
      if ltb 0 r.track.max_daily_loss_bps
      then ltb_ℤ r.daily_realized_usdc
          (neg_ℕ (max_daily_loss_usdc r.allocation.cap r.track.max_daily_loss_bps))
      else false;
}

pub derived_of : Readings → Derived
derived_of r =
    let max_loss = max_daily_loss_usdc r.allocation.cap r.track.max_daily_loss_bps in
    let loss_used = daily_loss_used_usdc r.daily_realized_usdc in
    record {
      return_bps = account_return_bps r.allocation.cap r.current_usdc;
      unrealized_pnl_usdc =
          account_unrealized_usdc r.allocation.cap r.lifetime_realized_usdc r.current_usdc;
      drawdown_utilization_bps = utilization_bps r.current_drawdown_bps r.track.max_drawdown_bps;
      max_daily_loss_usdc = max_loss;
      daily_loss_used_usdc = loss_used;
      daily_loss_utilization_bps = utilization_bps_from_bigint loss_used max_loss;
    }

risk_state_of : Agent → Readings → RiskState
unfolding available_of breaches_of derived_of
risk_state_of agent r = record {
  available = available_of r.allocation;
  readings = r;
  breaches = breaches_of r;
  derived = derived_of r;
  promotion_readiness = build_promotion_readiness (record {
    min_trades = r.track.min_trades;
    positions_closed = r.positions_closed;
    evaluation_period_seconds = r.track.evaluation_period;
    created_at_seconds = agent.created_at;
    now_seconds = r.now_seconds;
    promotion_score_required = r.track.promotion_score;
    drawdown_breached = (breaches_of r).drawdown;
    daily_loss_breached = (breaches_of r).daily_loss;
    agent_status = agent.status;
    agent_status_active = agent_status_active;
  });
}

pub get_risk_state : Result ReadError Agent → Readings → Result RiskError RiskState
unfolding risk_state_of
get_risk_state (err agent_not_found) r = err not_found
get_risk_state (err unavailable) r = err (rethrown unavailable)
get_risk_state (ok agent) r = ok (risk_state_of agent r)
