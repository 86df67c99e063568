-- ===== src/Strategy/Runner/Settled.antt =====
-- What a run of an agent leaves in the rows: runAgent of strategy-runner.service.ts.
use protocol_monorepo.Common.{
  String, str_eq, Bool, ◌||◌, List, [], ◌∷◌, ◌++◌, map, Option, is_some, Result, ok, err, All, ◌≡◌,
  ◌≢◌, ◌⊎◌, inl, inr, refl, Bool-cases, eq_iff, arith,
}
use protocol_monorepo.Common.Text.{Text, text_eq, text_eq_iff, to_lower}
use protocol_monorepo.Strategy.Decision.{StrategyContext}
use protocol_monorepo.Strategy.Cooldown.{BotFrequency, compute_next_run_at}
use protocol_monorepo.Strategy.Executor.{Exception, ExecutionActionResult}
use protocol_monorepo.Strategy.Runner.{
  StrategyAdapterOutcome, RunStatus, running, StrategyRunRow, Store, Services, Stamps,
  StrategyAgentRunResult, summarize_execution_failures, parse_bot_frequency, complete_row, Progress,
  sync_owner_address, bump_next_run_at, created_row, sync_owner, owner_read, context_read,
  decide_and_execute, run_error, run_status, recorded_run, attempt_run, run_agent,
}
use protocol_monorepo.Db.Profiles.{AgentProfileRow, set_next_run_at}

abbrev pub IsSettled : StrategyRunRow → Type 0
IsSettled row = row.status ≢ running

module _ (id : Text) (status : RunStatus) (outcome : Option StrategyAdapterOutcome)
    (execution : List ExecutionActionResult) (error : Option Text) (at : Text)
    (settled : status ≢ running) where
  complete : StrategyRunRow → StrategyRunRow
  complete = complete_row id status outcome execution error at

  complete-IsSettled :
      (row : StrategyRunRow) → (row.id ≡ id) ⊎ IsSettled row → IsSettled (complete row)
  unfolding complete complete_row
  complete-IsSettled row h = elim (Bool-cases (text_eq row.id id)) [
    | inl same ↦ rw same settled
    | inr other ↦
        rw other
          (elim h [ inl e ↦ absurd (ground (arith, text_eq_iff row.id id, other, e)) | inr s ↦ s ])
  ]

  completed-IsSettled :
      (rows : List StrategyRunRow) (row : StrategyRunRow)
      → All IsSettled rows
      → row.id ≡ id
      → All IsSettled (map complete (rows ++ row ∷ []))
  completed-IsSettled [] row h e = (complete-IsSettled row (inl e), tt)
  completed-IsSettled (r ∷ rows) row h e =
      (complete-IsSettled r (inr h.0), completed-IsSettled rows row h.1 e)

module _ {W : Type 0} (services : Services W) where
  run_status-settled : (progress : Progress W) → run_status services progress ≢ running
  unfolding run_status
  run_status-settled progress h =
      elim (Bool-cases
        (is_some progress.thrown || is_some (summarize_execution_failures progress.execution))) [
          | inl e ↦ absurd (ground (arith, e))
          | inr e ↦ absurd (ground (arith, e))
        ]

  owner_read-runs :
      (profile : AgentProfileRow) (store : Store W) (r : Result Exception Text)
      → (owner_read services profile store r).0.runs ≡ store.runs
  unfolding sync_owner_address
  owner_read-runs profile store (err e) = refl
  owner_read-runs profile store (ok owner) =
      elim (Bool-cases (text_eq (map to_lower owner) (map to_lower profile.owner_address))) [
        | inl same ↦ rw same
        | inr other ↦ rw other
      ]

  recorded_run-IsSettled :
      (stamps : Stamps) (may : Bool) (id : String) (context : StrategyContext) (store : Store W)
      → All IsSettled store.runs
      → All IsSettled (recorded_run services stamps may id context store).1.runs
  unfolding recorded_run complete
  recorded_run-IsSettled stamps may id context store h =
      let progress = decide_and_execute services may id store context in
      completed-IsSettled stamps.run_id (run_status services progress) progress.outcome
        progress.execution (run_error services progress) stamps.completed_at
        (run_status-settled progress) store.runs (created_row stamps id context) h refl

  context_read-IsSettled :
      (stamps : Stamps) (may : Bool) (profile : AgentProfileRow) (synced : Store W)
      (r : Result Exception StrategyContext)
      → All IsSettled synced.runs
      → All IsSettled (context_read services stamps may profile synced r).1.runs
  context_read-IsSettled stamps may profile synced (err e) h = h
  context_read-IsSettled stamps may profile synced (ok context) h =
      recorded_run-IsSettled stamps may profile.agent_id context synced h

  attempt_run-IsSettled :
      (stamps : Stamps) (may : Bool) (profile : AgentProfileRow) (store : Store W)
      → All IsSettled store.runs
      → All IsSettled (attempt_run services stamps may profile store).1.runs
  unfolding attempt_run sync_owner
  attempt_run-IsSettled stamps may profile store h =
      let owner = services.get_agent_owner store.chain profile.agent_id in
      context_read-IsSettled stamps may profile (owner_read services profile store owner).0 _
        (rw (owner_read-runs profile store owner) h)

  rescheduled :
      (id : String) (next : Text) (rows : List AgentProfileRow)
      → All
          (λ row. (row.agent_id ≢ id) ⊎ (row.next_run_at ≡ next))
          (map (set_next_run_at id next) rows)
  unfolding set_next_run_at
  rescheduled id next [] = tt
  rescheduled id next (row ∷ rows) = elim (Bool-cases (str_eq row.agent_id id)) [
    | inl same ↦ (rw same (inr refl), rescheduled id next rows)
    | inr other ↦ (
      rw other (inl (λ e. absurd (ground (arith, eq_iff row.agent_id id, other, e)))),
      rescheduled id next rows,
    )
  ]

  -- For a profile whose frequency is valid, a run of its agent returns, however it ends: with a
  -- decision that is carried out, a failed action, a refused decision or an exception. It leaves
  -- no row of the runs marked as running, if none was before, and the next run of every profile
  -- of this agent is one period after the time at the end.
  pub run_agent-IsSettled :
      (stamps : Stamps) (may : Bool) (profile : AgentProfileRow) (store : Store W)
      (frequency : BotFrequency)
      → parse_bot_frequency profile.bot_frequency ≡ ok frequency
      → All IsSettled store.runs
      → (result : StrategyAgentRunResult) × (after : Store W) × (run_agent services stamps may
            profile store
          ≡ ok (result, after))
        × All IsSettled after.runs
        × All
            (λ row.
              (row.agent_id ≢ profile.agent_id)
              ⊎ (row.next_run_at ≡ compute_next_run_at services.to_iso frequency stamps.bumped_ms))
            after.profiles
  unfolding run_agent bump_next_run_at
  run_agent-IsSettled stamps may profile store f valid h =
      let (result, after) = attempt_run services stamps may profile store in
      let next = compute_next_run_at services.to_iso f stamps.bumped_ms in
      (
        result,
        bump_next_run_at profile.agent_id next after,
        rw valid,
        attempt_run-IsSettled stamps may profile store h,
        rescheduled profile.agent_id next after.profiles,
      )
