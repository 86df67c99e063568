-- ===== src/Trading/Metrics/Promotion.antt =====
-- Which blockers stand in the way of a promotion.
use protocol_monorepo.Common.{
  ◌-◌, ◌<◌, ◌≡◌, ◌≢◌, ◌↔◌, ◌⊎◌, true, false, List, [], ◌∷◌, arith, Bool, Member, Member-append,
}
use protocol_monorepo.Trading.Metrics.{
  PromotionParams, Blocker, alpha_score_unavailable, min_trades_not_met, evaluation_period_not_met,
  drawdown_breached, daily_loss_breached, agent_not_active, push_if, build_promotion_readiness,
}

-- What each blocker stands for, in the terms of the track's requirements.
abbrev pub Stands : PromotionParams → Blocker → Type 0
Stands p alpha_score_unavailable = Unit
Stands p min_trades_not_met = p.positions_closed < p.min_trades
Stands p evaluation_period_not_met =
    p.now_seconds - p.created_at_seconds < p.evaluation_period_seconds
Stands p drawdown_breached = p.drawdown_breached ≡ true
Stands p daily_loss_breached = p.daily_loss_breached ≡ true
Stands p agent_not_active = p.agent_status ≢ p.agent_status_active

push_if-Member :
    (b : Bool) (x y : Blocker) (xs : List Blocker)
    → Member y (push_if b x xs) ↔ (Member y xs ⊎ ((b ≡ true) × (y ≡ x)))
push_if-Member true x y xs = grind (arith, Member-append y xs (x ∷ []))
push_if-Member false x y xs = ground arith

-- A blocker is listed exactly when the requirement that it names is not met.
pub blockers_exact :
    (p : PromotionParams) (b : Blocker)
    → Member b (build_promotion_readiness p).blockers ↔ Stands p b
unfolding build_promotion_readiness
blockers_exact p alpha_score_unavailable = grind (arith, push_if-Member)
blockers_exact p min_trades_not_met = grind (arith, push_if-Member)
blockers_exact p evaluation_period_not_met = grind (arith, push_if-Member)
blockers_exact p drawdown_breached = grind (arith, push_if-Member)
blockers_exact p daily_loss_breached = grind (arith, push_if-Member)
blockers_exact p agent_not_active = grind (arith, push_if-Member)

-- No agent is ever eligible: the score that is required is not available yet.
pub build_promotion_readiness_not_eligible :
    (p : PromotionParams)
    → ((build_promotion_readiness p).eligible ≡ false)
      × Member alpha_score_unavailable (build_promotion_readiness p).blockers
unfolding build_promotion_readiness
build_promotion_readiness_not_eligible p =
    (ground arith, (blockers_exact p alpha_score_unavailable).1 tt)
