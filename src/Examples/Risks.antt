-- ===== src/Examples/Risks.antt =====
-- Metrics, risk limits and cooldowns at concrete inputs.
use protocol_monorepo.Common.{
  ℕ, ◌*◌, ◌≡◌, ◌⊎◌, ◌↔◌, ◌≤◌, ◌<◌, refl, none, some, Option, true, false, arith, Member,
}
use protocol_monorepo.Common.Int.{ℤ, pos, neg_ℕ, ◌+ℤ◌, ◌-ℤ◌, scale}
use protocol_monorepo.Common.Text.{Text, codes}
use protocol_monorepo.Trading.Metrics.{
  PromotionParams, min_trades_not_met, build_promotion_readiness, account_return_bps,
  position_return_bps,
}
use protocol_monorepo.Trading.Metrics.Bounds.{IsTruncated, return_bps-IsTruncated}
use protocol_monorepo.Trading.Metrics.Promotion.{blockers_exact}
use protocol_monorepo.Trading.Risk.{Readings, breaches_of, derived_of}
use protocol_monorepo.Trading.Risk.Limits.{IsShare, drawdown_breach-utilization}
use protocol_monorepo.Strategy.Cooldown.{
  allowed, retry_after, get_strategy_run_cooldown, cooldown_since,
}
use protocol_monorepo.Strategy.Cooldown.Retry.{get_strategy_run_cooldown_retry}

abbrev trader : PromotionParams
trader = record {
  min_trades = 10;
  positions_closed = 4;
  evaluation_period_seconds = 3600;
  created_at_seconds = 1000;
  now_seconds = 2000;
  promotion_score_required = 50;
  drawdown_breached = false;
  daily_loss_breached = true;
  agent_status = 1;
  agent_status_active = 1;
}

blockers_exact_example :
    Member min_trades_not_met (build_promotion_readiness trader).blockers ↔ (4 < 10)
blockers_exact_example = blockers_exact trader min_trades_not_met

return_bps-IsTruncated_example :
    ((q : ℤ) × (account_return_bps 300 (pos 299) ≡ some q)
      × IsTruncated (scale (pos 299 -ℤ pos 300) 10000) 300 q)
    × ((q : ℤ) × (position_return_bps 300 (neg_ℕ 1) ≡ some q)
        × IsTruncated (scale (neg_ℕ 1) 10000) 300 q)
return_bps-IsTruncated_example = return_bps-IsTruncated 300 (pos 299) (neg_ℕ 1) (omega arith)

abbrev readings : Readings
readings = record {
  allocation = record { cap = 1000; used = 400 };
  track = record {
    max_daily_loss_bps = 500;
    max_drawdown_bps = 1000;
    min_trades = 10;
    evaluation_period = 3600;
    promotion_score = 50;
  };
  peak_usdc = pos 1100;
  current_usdc = pos 940;
  current_drawdown_bps = 1455;
  lifetime_realized_usdc = neg_ℕ 60;
  daily_realized_usdc = neg_ℕ 60;
  positions_opened = 3;
  positions_closed = 2;
  open_position_count = 1;
  now_seconds = 5000;
}

drawdown_breach-utilization_example :
    (((breaches_of readings).drawdown ≡ true) ↔ ((0 < 1000) × (1000 < 1455)))
    × IsShare 1455 1000 (derived_of readings).drawdown_utilization_bps
    × ((((breaches_of readings).drawdown ≡ true)
          × (u : ℕ) × ((derived_of readings).drawdown_utilization_bps ≡ some u)
          × (10000 ≤ u))
        ⊎ (((breaches_of readings).drawdown ≡ false)
            × (((derived_of readings).drawdown_utilization_bps ≡ none)
                ⊎ ((u : ℕ) × ((derived_of readings).drawdown_utilization_bps ≡ some u)
                    × (u ≤ 10000)))))
drawdown_breach-utilization_example = drawdown_breach-utilization readings

-- A parser that reads every date as the second 100.
abbrev hundred : Text → Option ℤ
hundred t = some (pos 100000)

refused :
    get_strategy_run_cooldown hundred (some (codes "2026")) 300000 (pos 130500) ≡ retry_after 270
unfolding get_strategy_run_cooldown cooldown_since ◌-ℤ◌
refused = refl

get_strategy_run_cooldown_retry_example :
    (0 < 270)
    × ((get_strategy_run_cooldown hundred
            (some (codes "2026"))
            300000
            (pos 130500 +ℤ pos (200 * 1000))
          ≡ allowed)
        ↔ (270 ≤ 200))
get_strategy_run_cooldown_retry_example =
    get_strategy_run_cooldown_retry hundred (some (codes "2026")) 300000 (pos 130500) 270 200
      refused
