-- ===== src/Strategy/Runner/Rows.antt =====
-- strategy-runner.service.ts: the rows, the services and the results of a run.
use protocol_monorepo.Common.{
  ℕ, String, Bool, true, false, not, ◌&&◌, List, [], ◌∷◌, map, filter_by, if◌then◌else◌, Option,
  none, some, get_or_else, Result, ok, err,
}
use protocol_monorepo.Common.Int.{ℤ}
use protocol_monorepo.Common.Text.{Text, codes, text_eq, to_lower, join}
use protocol_monorepo.Trading.Risk.{Breaches}
use protocol_monorepo.Strategy.Decision.{StrategyAction, AgentPosition, ExitBounds, StrategyContext}
use protocol_monorepo.Strategy.Cooldown.{BotFrequency, hourly, daily}
use protocol_monorepo.Strategy.Guardrails.{GuardrailError}
use protocol_monorepo.Strategy.Executor.{
  Exception, ActionStatus, action_ok, action_failed, ExecutionActionResult,
}
use protocol_monorepo.Db.Profiles.{AgentProfileRow}
use protocol_monorepo.Db.Signers.{AgentSignerRow}

pub data StrategyAdapterOutcome : Type 0 where
  ok_outcome : (summary : String) (actions : List StrategyAction) → StrategyAdapterOutcome
  error_outcome : (code summary : String) (message : Text) → StrategyAdapterOutcome

pub data RunStatus : Type 0 where
  running completed failed : RunStatus

pub record StrategyRunRow : Type 0 where
  pub id : Text
  pub agent_id : String
  pub status : RunStatus
  pub started_at : Text
  pub context : StrategyContext
  pub outcome : Option StrategyAdapterOutcome
  pub execution : List ExecutionActionResult
  pub error : Option Text
  pub completed_at : Option Text

pub record Quote : Type 0 where
  pub allowed_symbols : List String
  pub available : Text
  pub exit_bounds : ExitBounds

pub record Store (W : Type 0) : Type 0 where
  pub profiles : List AgentProfileRow
  pub signers : List AgentSignerRow
  pub runs : List StrategyRunRow
  pub chain : W

pub record Services (W : Type 0) : Type 0 where
  pub get_agent_owner : W → String → Result Exception Text
  pub list_open_positions : W → String → Result Exception (List AgentPosition)
  pub get_risk_state : W → String → Result Exception Breaches
  pub get_quote : W → String → Result Exception Quote
  pub usdc_decimals : Result Exception ℕ
  pub decide_strategy : StrategyContext → Result Exception StrategyAdapterOutcome
  pub decrypt_signer_private_key : Text → Result Exception Text
  pub execute_action : Text → String → W → StrategyAction → W × Result Exception (Text × Text)
  pub to_iso : ℤ → Text
  pub message_of : GuardrailError → Text

-- The values that a run takes from outside: its id and the readings of the clock.
pub record Stamps : Type 0 where
  pub run_id : Text
  pub started_at : Text
  pub completed_at : Text
  pub bumped_ms : ℤ

pub record StrategyAgentRunResult : Type 0 where
  pub run_id : Option Text
  pub status : RunStatus
  pub started_at : Text
  pub completed_at : Option Text
  pub summary : Option String
  pub actions : List StrategyAction
  pub execution : List ExecutionActionResult
  pub error : Option Text

-- `STRATEGY_RUNNER_EXECUTE`
unfoldable pub is_strategy_runner_execute_enabled : Option Text → Bool
is_strategy_runner_execute_enabled value =
    let raw = map to_lower (get_or_else value (codes "true")) in
    not (text_eq raw (codes "false"))
    && (not (text_eq raw (codes "0"))
        && (not (text_eq raw (codes "no")) && not (text_eq raw (codes "off"))))

abbrev pub is_failed : ActionStatus → Bool
is_failed action_ok = false
is_failed action_failed = true

-- The messages that are there and not empty.
abbrev messages : List (Option Text) → List Text
messages [] = []
messages (none ∷ ms) = messages ms
messages (some [] ∷ ms) = messages ms
messages (some (c ∷ s) ∷ ms) = (c ∷ s) ∷ messages ms

abbrev joined : List Text → Option Text
joined [] = none
joined (m ∷ ms) = some (join (codes "; ") (m ∷ ms))

unfoldable pub summarize_execution_failures : List ExecutionActionResult → Option Text
summarize_execution_failures execution =
    joined
      (messages (map (λ item. item.error) (filter_by (λ item. is_failed item.status) execution)))

-- `BotFrequencySchema.parse`
unfoldable pub parse_bot_frequency : Text → Result Exception BotFrequency
parse_bot_frequency t =
    if text_eq t (codes "1h")
    then ok hourly
    else if text_eq t (codes "1d")
    then ok daily
    else err (some (codes "Invalid enum value"))
