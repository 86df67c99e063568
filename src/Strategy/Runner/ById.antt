-- ===== src/Strategy/Runner/ById.antt =====
-- runAgentById of strategy-runner.service.ts: a run that is asked for by hand.
use protocol_monorepo.Common.{
  String, Bool, false, ◌&&◌, [], Option, none, some, Result, ok, ◌≡◌, inl, inr, is_some, fail_if,
  or_fail, ◌>>=◌, ◌>>◌, >>=-eq-ok, arith,
}
use protocol_monorepo.Common.Text.{Text, codes}
use protocol_monorepo.Strategy.Executor.{Exception}
use protocol_monorepo.Strategy.Runner.{
  Store, Services, Stamps, StrategyAgentRunResult, is_strategy_runner_execute_enabled, run_agent,
}
use protocol_monorepo.Strategy.Runner.Permission.{run_agent-permission}
use protocol_monorepo.Db.Profiles.{find_profile}

-- `options.executeOverride !== false && isStrategyRunnerExecuteEnabled(this.env)`
unfoldable pub may_execute_with : Option Bool → Option Text → Bool
may_execute_with none setting = is_strategy_runner_execute_enabled setting
may_execute_with (some override) setting = override && is_strategy_runner_execute_enabled setting

module _ {W : Type 0} (services : Services W) (setting : Option Text) where
  unfoldable pub run_agent_by_id :
      Stamps → Option Bool → String → Store W → Result Exception (StrategyAgentRunResult × Store W)
  run_agent_by_id stamps execute_override agent_id store = do
    profile ←
        or_fail (find_profile agent_id store.profiles)
          (some (codes "Managed agent profile not found"))
    fail_if (is_some profile.archived_at) (some (codes "Archived agents cannot run strategy"))
    run_agent services stamps (may_execute_with execute_override setting) profile store

  -- A run that is asked for with `executeOverride: false` does not change the chain, whatever the
  -- setting says and whatever is decided, and reports no execution.
  pub run_agent_by_id_dry :
      (stamps : Stamps) (agent_id : String) (store after : Store W)
      (result : StrategyAgentRunResult)
      → run_agent_by_id stamps (some false) agent_id store ≡ ok (result, after)
      → (after.chain ≡ store.chain) × (result.execution ≡ [])
  unfolding run_agent_by_id may_execute_with
  run_agent_by_id_dry stamps agent_id store after result e =
      let (profile, _, checked) =
        >>=-eq-ok
          (or_fail (find_profile agent_id store.profiles)
            (some (codes "Managed agent profile not found")))
          (λ profile.
            fail_if (is_some profile.archived_at)
              (some (codes "Archived agents cannot run strategy"))
            >> run_agent services stamps false profile store)
          e in
      let (_, _, run) =
        >>=-eq-ok
          (fail_if (is_some profile.archived_at)
            (some (codes "Archived agents cannot run strategy")))
          (λ _. run_agent services stamps false profile store) checked in
      elim (run_agent-permission services false stamps profile store after result run) [
        | inl unchanged ↦ unchanged
        | inr (allowed, _, _, _, _) ↦ absurd (ground (arith, allowed))
      ]
