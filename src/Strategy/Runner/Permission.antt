-- ===== src/Strategy/Runner/Permission.antt =====
-- What a run of an agent does on the chain: runAgent of strategy-runner.service.ts.
use protocol_monorepo.Common.{
  String, Bool, true, ◌&&◌, List, [], ◌∷◌, map, Result, ok, err, ◌>>◌, All, ◌≡◌, ◌⊎◌, inl, inr,
  refl, subst, ◌∙◌, Bool-cases, >>=-eq-ok, and_true,
}
use protocol_monorepo.Common.Text.{Text, text_eq, to_lower}
use protocol_monorepo.Strategy.Decision.{StrategyContext, StrategyAction, StrategyDecision}
use protocol_monorepo.Strategy.Guardrails.{GuardrailError, assert_strategy_decision_guardrails}
use protocol_monorepo.Strategy.Guardrails.Permitted.{
  ActionPermitted, assert_strategy_decision_guardrails_iff,
}
use protocol_monorepo.Strategy.Executor.{
  Exception, ExecutionActionResult, result_of, execute_each, execute_strategy_decision,
}
use protocol_monorepo.Strategy.Runner.{
  StrategyAdapterOutcome, ok_outcome, error_outcome, Store, Services, Stamps,
  StrategyAgentRunResult, parse_bot_frequency, Progress, sync_owner_address, owner_read, sync_owner,
  read_context, private_key, has_actions, executed, guarded, decided, decide_and_execute,
  decided_actions, recorded_run, context_read, attempt_run, bumped, bump_next_run_at, run_agent,
}
use protocol_monorepo.Db.Profiles.{AgentProfileRow}

result_of_action :
    (action : StrategyAction) (r : Result Exception (Text × Text))
    → (result_of action r).action ≡ action
unfolding result_of
result_of_action action (ok r) = refl
result_of_action action (err e) = refl

-- Every action is attempted, in order and whatever becomes of the others: one result for each.
pub execute_each-actions :
    {W : Type 0} (run : W → StrategyAction → W × Result Exception (Text × Text)) (chain : W)
    (actions : List StrategyAction)
    → map (λ r. r.action) (execute_each run chain actions).1 ≡ actions
unfolding execute_each
execute_each-actions run chain [] = refl
execute_each-actions run chain (action ∷ actions) =
    let (after, outcome) = run chain action in
    rw (result_of_action action outcome, execute_each-actions run after actions)

module _ {W : Type 0} (services : Services W) (may : Bool) where
  -- Nothing was done, or all that was decided and permitted.
  abbrev pub ActsAsPermitted :
      W → W → List StrategyAction → List ExecutionActionResult → StrategyContext → Type 0
  ActsAsPermitted before after actions execution context =
      ((after ≡ before) × (execution ≡ []))
      ⊎ ((may ≡ true)
          × All (ActionPermitted context) actions
          × (map (λ r. r.action) execution ≡ actions))

  abbrev Acted : Store W → StrategyContext → Progress W → Type 0
  Acted store context p =
      ActsAsPermitted store.chain p.chain (decided_actions services p.decision) p.execution context

  executed-Acted :
      (id : String) (store : Store W) (context : StrategyContext) (o : StrategyAdapterOutcome)
      (d : StrategyDecision) (key : Result Exception Text)
      → may ≡ true
      → All (ActionPermitted context) d.actions
      → Acted store context (executed services id store o d key)
  unfolding execute_strategy_decision
  executed-Acted id store context o d (err e) m h = inl (refl, refl)
  executed-Acted id store context o d (ok key) m h =
      inr (m, h, execute_each-actions (services.execute_action key id) store.chain d.actions)

  guarded-Acted :
      (id : String) (store : Store W) (context : StrategyContext) (o : StrategyAdapterOutcome)
      (d : StrategyDecision) (check : Result GuardrailError (Unit {0}))
      → (check ≡ ok tt → All (ActionPermitted context) d.actions)
      → Acted store context (guarded services may id store o d check)
  guarded-Acted id store context o d (err e) h = inl (refl, refl)
  guarded-Acted id store context o d (ok tt) h =
      elim (Bool-cases (may && has_actions services d.actions)) [
        | inr off ↦ rw off (inl (refl, refl))
        | inl on ↦ rw on (
            executed-Acted id store context o d (private_key services id store.signers)
              (and_true may (has_actions services d.actions) on).0 (h refl))
      ]

  decided-Acted :
      (id : String) (store : Store W) (context : StrategyContext)
      (r : Result Exception StrategyAdapterOutcome)
      → Acted store context (decided services may id store context r)
  decided-Acted id store context (err e) = inl (refl, refl)
  decided-Acted id store context (ok (error_outcome code summary message)) = inl (refl, refl)
  decided-Acted id store context (ok (ok_outcome summary actions)) =
      let d : StrategyDecision = record { summary = summary; actions = actions } in
      guarded-Acted id store context (ok_outcome summary actions) d
        (assert_strategy_decision_guardrails d context)
        (λ e. (assert_strategy_decision_guardrails_iff d context).0 e)

  owner_read-chain :
      (profile : AgentProfileRow) (store : Store W) (r : Result Exception Text)
      → (owner_read services profile store r).0.chain ≡ store.chain
  unfolding sync_owner_address
  owner_read-chain profile store (err e) = refl
  owner_read-chain profile store (ok owner) =
      elim (Bool-cases (text_eq (map to_lower owner) (map to_lower profile.owner_address))) [
        | inl same ↦ rw same
        | inr other ↦ rw other
      ]

  -- What a run did to the chain, by its result and the store that it leaves.
  abbrev pub RunActs : AgentProfileRow → Store W → StrategyAgentRunResult × Store W → Type 0
  RunActs profile store (result, after) =
      ((after.chain ≡ store.chain) × (result.execution ≡ []))
      ⊎ ((may ≡ true)
          × (context : StrategyContext) × (read_context services store.chain profile.agent_id
              ≡ ok context)
          × All (ActionPermitted context) result.actions
          × (map (λ r. r.action) result.execution ≡ result.actions))

  abbrev RunActsIfOk :
      AgentProfileRow → Store W → Result Exception (StrategyAgentRunResult × Store W) → Type 0
  RunActsIfOk profile store (ok p) = RunActs profile store p
  RunActsIfOk profile store (err e) = Unit

  context_read-acts :
      (stamps : Stamps) (profile : AgentProfileRow) (store synced : Store W)
      (r : Result Exception StrategyContext)
      → synced.chain ≡ store.chain
      → ((c : StrategyContext)
          → r ≡ ok c
          → read_context services store.chain profile.agent_id ≡ ok c)
      → RunActs profile store (context_read services stamps may profile synced r)
  unfolding recorded_run decide_and_execute
  context_read-acts stamps profile store synced (err e) same h = inl (same, refl)
  context_read-acts stamps profile store synced (ok context) same h =
      elim (decided-Acted profile.agent_id synced context (services.decide_strategy context)) [
        | inl (kept, none_done) ↦ inl (kept ∙ same, none_done)
        | inr (m, permitted, attempted) ↦ inr (m, context, h context refl, permitted, attempted)
      ]

  attempt_run-acts :
      (stamps : Stamps) (profile : AgentProfileRow) (store : Store W)
      → RunActs profile store (attempt_run services stamps may profile store)
  unfolding attempt_run sync_owner
  attempt_run-acts stamps profile store =
      let owner = services.get_agent_owner store.chain profile.agent_id in
      let same = owner_read-chain profile store owner in
      let synced = (owner_read services profile store owner).0 in
      let outcome = (owner_read services profile store owner).1 in
      context_read-acts stamps profile store synced
        (outcome >> read_context services synced.chain profile.agent_id) same
        (λ c e.
          let (_, _, read) =
            >>=-eq-ok outcome (λ _. read_context services synced.chain profile.agent_id) e in
          subst (λ chain. read_context services chain profile.agent_id ≡ ok c) same read)

  -- When a run returns, either it did not change the chain and reports no execution, or it was
  -- allowed to execute, each action that it reports was permitted in the context that it read,
  -- and it reports one attempt for each of these actions, in their order.
  pub run_agent-permission :
      (stamps : Stamps) (profile : AgentProfileRow) (store after : Store W)
      (result : StrategyAgentRunResult)
      → run_agent services stamps may profile store ≡ ok (result, after)
      → RunActs profile store (result, after)
  unfolding run_agent bump_next_run_at
  run_agent-permission stamps profile store after result e =
      let (f, _, same) =
        >>=-eq-ok (parse_bot_frequency profile.bot_frequency)
          (λ f.
            ok (bumped services stamps profile f (attempt_run services stamps may profile store)))
          e in
      subst (RunActsIfOk profile store) same (attempt_run-acts stamps profile store)
