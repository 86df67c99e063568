-- ===== src/Strategy/Decision.antt =====
-- api/src/schemas/strategy.ts and strategy-adapter.ts, and the context of
-- api/src/lib/strategy/decision.ts: what a strategy decides, and what it decides on.
use protocol_monorepo.Common.{ℕ, String, Bool, Option, List}
use protocol_monorepo.Common.Int.{ℤ}
use protocol_monorepo.Common.Text.{Text}
use protocol_monorepo.Trading.Risk.{Breaches}

pub data TriggerType : Type 0 where
  stop_loss take_profit : TriggerType

pub record ExitRuleInput : Type 0 where
  pub trigger_type : TriggerType
  pub trigger_bps : ℤ
  pub exit_bps : ℕ

-- `min_token_out` and `max_slippage_bps` are optional on the actions that buy.
pub data StrategyAction : Type 0 where
  open_position :
      (symbol : String) (usdc_amount : Text) (min_token_out : Option Text)
      (max_slippage_bps : Option ℕ) (exits : Option (List ExitRuleInput))
      → StrategyAction
  close_position : (position_id : String) (exit_bps : Option ℕ) → StrategyAction
  add_to_position :
      (position_id : String) (usdc_amount : Text) (min_token_out : Option Text)
      (max_slippage_bps : Option ℕ)
      → StrategyAction
  reduce_position : (position_id : String) (exit_bps : ℕ) → StrategyAction

pub record StrategyDecision : Type 0 where
  pub summary : String
  pub actions : List StrategyAction

pub data PositionStatus : Type 0 where
  is_open is_closed : PositionStatus

-- The fields of a position, and below of the guardrails, that the checks read.
pub record AgentPosition : Type 0 where
  pub position_id : String
  pub symbol : String
  pub status : PositionStatus

pub record ExitBounds : Type 0 where
  pub require_stop_loss : Bool
  pub require_take_profit : Bool
  pub max_stop_loss_bps : ℕ
  pub min_take_profit_bps : ℕ
  pub max_take_profit_bps : ℕ

pub record StrategyGuardrails : Type 0 where
  pub allowed_symbols : List String
  pub available : Text
  pub exit_bounds : ExitBounds
  pub breaches : Breaches
  pub usdc_decimals : ℕ

pub record StrategyContext : Type 0 where
  pub positions : List AgentPosition
  pub guardrails : StrategyGuardrails
