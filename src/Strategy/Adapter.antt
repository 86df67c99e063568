-- ===== src/Strategy/Adapter.antt =====
-- api/src/lib/strategy/adapters: the outcome that an answer of the model stands for
-- (workers-ai.outcome.ts), the adapter that holds (none.ts), and the choice of an adapter
-- (resolve.ts), with the other adapter as an argument.
use protocol_monorepo.Common.{
  String, Bool, true, List, [], ◌∷◌, map, Option, none, some, Result, ok, err, get_or_else, ◌≡◌,
  ◌↔◌, if◌then◌else◌, arith, ◌++◌,
}
use protocol_monorepo.Common.Text.{Text, codes, text_eq, to_lower}
use protocol_monorepo.Strategy.Decision.{StrategyAction, StrategyDecision, StrategyContext}
use protocol_monorepo.Strategy.Executor.{Exception}
use protocol_monorepo.Strategy.Runner.{StrategyAdapterOutcome, ok_outcome, error_outcome}

pub record StrategyAiEnvelope : Type 0 where
  pub passed : Bool
  pub safety_reason : Text
  pub tradable : Bool
  pub assessment_reason : Text
  pub decision : Option StrategyDecision

-- `a || b` on texts
abbrev or_text : Text → Text → Text
or_text [] t = t
or_text (c ∷ s) t = c ∷ s

abbrev decided_outcome : Option StrategyDecision → StrategyAdapterOutcome
decided_outcome none =
    error_outcome "INVALID_MODEL_OUTPUT" "Strategy decision failed — invalid model output."
      (codes "Strategy is tradable but decision was null.")
decided_outcome (some decision) = ok_outcome decision.summary decision.actions

unfoldable pub map_envelope_to_outcome : StrategyAiEnvelope → StrategyAdapterOutcome
map_envelope_to_outcome envelope =
    if envelope.passed
    then if envelope.tradable
      then decided_outcome envelope.decision
      else error_outcome "NOT_TRADABLE_STRATEGY" "Strategy rejected — not a tradable strategy." (
          or_text envelope.assessment_reason
            (codes "User strategy does not describe actionable trading rules."))
    else error_outcome "PROMPT_INJECTION" "Strategy rejected — possible prompt injection."
        (or_text envelope.safety_reason (codes "User strategy failed safety screening."))

abbrev pub hold_decision_summary : String
hold_decision_summary = "Hold — no trades recommended."

abbrev pub none_strategy_decision_adapter :
    StrategyContext → Result Exception StrategyAdapterOutcome
none_strategy_decision_adapter context = ok (ok_outcome hold_decision_summary [])

unfoldable pub resolve_strategy_decision_adapter :
    (StrategyContext → Result Exception StrategyAdapterOutcome)
    → Option Text
    → Result Exception (StrategyContext → Result Exception StrategyAdapterOutcome)
resolve_strategy_decision_adapter workers_ai provider =
    let raw = map to_lower (get_or_else provider (codes "workers-ai")) in
    if text_eq raw (codes "workers-ai")
    then ok workers_ai
    else if text_eq raw (codes "none")
    then ok none_strategy_decision_adapter
    else err (some (codes "Unknown STRATEGY_DECISION_PROVIDER: " ++ raw))

-- The model's answer counts as a decision exactly when it passed the safety screening, was found
-- tradable and holds a decision, and then it is that decision.
pub map_envelope_to_outcome_ok :
    (envelope : StrategyAiEnvelope) (summary : String) (actions : List StrategyAction)
    → (map_envelope_to_outcome envelope ≡ ok_outcome summary actions) ↔ (
        (envelope.passed ≡ true)
        × (envelope.tradable ≡ true)
        × (envelope.decision ≡ some (record { summary = summary; actions = actions })))
unfolding map_envelope_to_outcome
map_envelope_to_outcome_ok envelope summary actions = ground arith
