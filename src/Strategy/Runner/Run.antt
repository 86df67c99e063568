-- ===== src/Strategy/Runner/Run.antt =====
-- strategy-runner.service.ts: one run of an agent.
use protocol_monorepo.Common.{
  String, Bool, true, false, ◌&&◌, ◌||◌, List, [], ◌∷◌, ◌++◌, map, if◌then◌else◌, Option, none,
  some, is_some, Result, ok, err, ◌>>=◌, ◌>>◌, or_fail,
}
use protocol_monorepo.Common.Text.{Text, codes, text_eq, to_lower}
use protocol_monorepo.Strategy.Decision.{StrategyAction, StrategyDecision, StrategyContext}
use protocol_monorepo.Strategy.Cooldown.{BotFrequency, compute_next_run_at}
use protocol_monorepo.Strategy.Guardrails.{GuardrailError, assert_strategy_decision_guardrails}
use protocol_monorepo.Strategy.Executor.{Exception, error_message, execute_strategy_decision}
use protocol_monorepo.Strategy.Runner.Rows.{
  StrategyAdapterOutcome, RunStatus, Store, Services, Stamps, StrategyAgentRunResult,
  summarize_execution_failures, parse_bot_frequency, ok_outcome, error_outcome, completed, failed,
}
use protocol_monorepo.Strategy.Runner.Updates.{
  created_row, progress_of, with_chain, with_runs, complete_row, Progress, with_chain, with_runs,
  sync_owner_address, bump_next_run_at,
}
use protocol_monorepo.Db.Profiles.{AgentProfileRow}
use protocol_monorepo.Db.Signers.{AgentSignerRow, find_signer}

module _ {W : Type 0} (services : Services W) where
  -- The owner on chain is copied when it differs.
  abbrev pub owner_read :
      AgentProfileRow → Store W → Result Exception Text → Store W × Result Exception (Unit {0})
  owner_read profile store (err e) = (store, err e)
  owner_read profile store (ok owner) =
      if text_eq (map to_lower owner) (map to_lower profile.owner_address)
      then (store, ok tt)
      else (sync_owner_address profile.agent_id owner store, ok tt)

  unfoldable pub sync_owner : AgentProfileRow → Store W → Store W × Result Exception (Unit {0})
  sync_owner profile store =
      owner_read profile store (services.get_agent_owner store.chain profile.agent_id)

  unfoldable pub read_context : W → String → Result Exception StrategyContext
  read_context chain agent_id = do
    positions ← services.list_open_positions chain agent_id
    breaches ← services.get_risk_state chain agent_id
    quote ← services.get_quote chain agent_id
    usdc_decimals ← services.usdc_decimals
    ok record {
      positions = positions;
      guardrails = record {
        allowed_symbols = quote.allowed_symbols;
        available = quote.available;
        exit_bounds = quote.exit_bounds;
        breaches = breaches;
        usdc_decimals = usdc_decimals;
      };
    }

  abbrev pub private_key : String → List AgentSignerRow → Result Exception Text
  private_key agent_id signers = do
    row ← or_fail (find_signer agent_id signers) (some (codes "Agent signer not found"))
    services.decrypt_signer_private_key row.encrypted_signer_key

  abbrev pub has_actions : List StrategyAction → Bool
  has_actions [] = false
  has_actions (a ∷ rest) = true

  -- The execution with the agent's key, once that is there.
  abbrev pub executed :
      String
      → Store W
      → StrategyAdapterOutcome
      → StrategyDecision
      → Result Exception Text
      → Progress W
  executed agent_id store outcome decision (err e) =
      progress_of (some outcome) (some decision) [] store.chain (some e)
  executed agent_id store outcome decision (ok key) =
      let (chain, execution) =
        execute_strategy_decision (services.execute_action key agent_id) store.chain decision in
      progress_of (some outcome) (some decision) execution chain none

  abbrev pub guarded :
      Bool
      → String
      → Store W
      → StrategyAdapterOutcome
      → StrategyDecision
      → Result GuardrailError (Unit {0})
      → Progress W
  guarded may_execute agent_id store outcome decision (err e) =
      progress_of (some outcome) (some decision) [] store.chain
        (some (some (services.message_of e)))
  guarded may_execute agent_id store outcome decision (ok _) =
      if may_execute && has_actions decision.actions
      then executed agent_id store outcome decision (private_key agent_id store.signers)
      else progress_of (some outcome) (some decision) [] store.chain none

  abbrev pub decided :
      Bool
      → String
      → Store W
      → StrategyContext
      → Result Exception StrategyAdapterOutcome
      → Progress W
  decided may_execute agent_id store context (err e) = progress_of none none [] store.chain (some e)
  decided may_execute agent_id store context (ok (error_outcome code summary message)) =
      progress_of (some (error_outcome code summary message)) none [] store.chain
        (some (some message))
  decided may_execute agent_id store context (ok (ok_outcome summary actions)) =
      let decision : StrategyDecision = record { summary = summary; actions = actions } in
      guarded may_execute agent_id store (ok_outcome summary actions) decision
        (assert_strategy_decision_guardrails decision context)

  -- From the decision to the execution.
  unfoldable pub decide_and_execute : Bool → String → Store W → StrategyContext → Progress W
  decide_and_execute may_execute agent_id store context =
      decided may_execute agent_id store context (services.decide_strategy context)

  -- The error of a finished run: what was thrown, or the failures of the actions.
  unfoldable pub run_error : Progress W → Option Text
  run_error progress = elim progress.thrown [
    | none ↦ summarize_execution_failures progress.execution
    | some e ↦ some (error_message e (codes "Strategy run failed"))
  ]

  -- An empty message of an exception is stored, but the run failed all the same.
  unfoldable pub run_status : Progress W → RunStatus
  run_status progress =
      if is_some progress.thrown || is_some (summarize_execution_failures progress.execution)
      then failed
      else completed

  abbrev decided_summary : Option StrategyDecision → Option String
  decided_summary none = none
  decided_summary (some d) = some d.summary

  abbrev pub decided_actions : Option StrategyDecision → List StrategyAction
  decided_actions none = []
  decided_actions (some d) = d.actions

  -- The run's row is created, and completed with what became of it.
  unfoldable pub recorded_run :
      Stamps → Bool → String → StrategyContext → Store W → StrategyAgentRunResult × Store W
  recorded_run stamps may_execute agent_id context store =
      let progress = decide_and_execute may_execute agent_id store context in
      let rows =
        map
          (complete_row stamps.run_id (run_status progress) progress.outcome progress.execution
            (run_error progress) stamps.completed_at)
          (store.runs ++ created_row stamps agent_id context ∷ []) in
      (
        record {
          run_id = some stamps.run_id;
          status = run_status progress;
          started_at = stamps.started_at;
          completed_at = some stamps.completed_at;
          summary = decided_summary progress.decision;
          actions = decided_actions progress.decision;
          execution = progress.execution;
          error = run_error progress;
        },
        with_chain (with_runs store rows) progress.chain,
      )

  abbrev pub unrecorded : Stamps → Exception → StrategyAgentRunResult
  unrecorded stamps e = record {
    run_id = none;
    status = failed;
    started_at = stamps.started_at;
    completed_at = none;
    summary = none;
    actions = [];
    execution = [];
    error = some (error_message e (codes "Strategy run failed"));
  }

  abbrev pub context_read :
      Stamps
      → Bool
      → AgentProfileRow
      → Store W
      → Result Exception StrategyContext
      → StrategyAgentRunResult × Store W
  context_read stamps may_execute profile synced (err e) = (unrecorded stamps e, synced)
  context_read stamps may_execute profile synced (ok context) =
      recorded_run stamps may_execute profile.agent_id context synced

  -- The `try` and `catch` blocks.
  unfoldable pub attempt_run :
      Stamps → Bool → AgentProfileRow → Store W → StrategyAgentRunResult × Store W
  attempt_run stamps may_execute profile store =
      let (synced, outcome) = sync_owner profile store in
      context_read stamps may_execute profile synced
        (outcome >> read_context synced.chain profile.agent_id)

  abbrev pub bumped :
      Stamps
      → AgentProfileRow
      → BotFrequency
      → StrategyAgentRunResult × Store W
      → StrategyAgentRunResult × Store W
  bumped stamps profile bot_frequency (result, after) =
      let next = compute_next_run_at services.to_iso bot_frequency stamps.bumped_ms in
      (result, bump_next_run_at profile.agent_id next after)

  -- With the `finally` block. `may_execute` is `executeOverride !== false` and the setting.
  unfoldable pub run_agent :
      Stamps
      → Bool
      → AgentProfileRow
      → Store W
      → Result Exception (StrategyAgentRunResult × Store W)
  run_agent stamps may_execute profile store = do
    bot_frequency ← parse_bot_frequency profile.bot_frequency
    ok (bumped stamps profile bot_frequency (attempt_run stamps may_execute profile store))
