-- ===== src/Strategy/Runner/Updates.antt =====
-- The updates of rows that strategy-runner.service.ts asks of api/src/db, and the state of a run.
use protocol_monorepo.Common.{String, List, [], map, if◌then◌else◌, Option, none, some}
use protocol_monorepo.Common.Text.{Text, text_eq, to_lower}
use protocol_monorepo.Strategy.Decision.{StrategyDecision, StrategyContext}
use protocol_monorepo.Strategy.Executor.{Exception, ExecutionActionResult}
use protocol_monorepo.Strategy.Runner.Rows.{
  StrategyAdapterOutcome, RunStatus, StrategyRunRow, Store, Stamps, running,
}
use protocol_monorepo.Db.Profiles.{set_profile_owner, set_next_run_at}
use protocol_monorepo.Db.Signers.{set_signer_owner}

-- `UPDATE strategy_runs SET … WHERE id = ?`
unfoldable pub complete_row :
    Text
    → RunStatus
    → Option StrategyAdapterOutcome
    → List ExecutionActionResult
    → Option Text
    → Text
    → StrategyRunRow
    → StrategyRunRow
complete_row id status outcome execution error completed_at row =
    if text_eq row.id id
    then record {
      id = row.id;
      agent_id = row.agent_id;
      status = status;
      started_at = row.started_at;
      context = row.context;
      outcome = outcome;
      execution = execution;
      error = error;
      completed_at = some completed_at;
    }
    else row

-- The local variables at the end of the `try` block's part behind the run's creation.
pub record Progress (W : Type 0) : Type 0 where
  pub outcome : Option StrategyAdapterOutcome
  pub decision : Option StrategyDecision
  pub execution : List ExecutionActionResult
  pub chain : W
  pub thrown : Option Exception

abbrev pub created_row : Stamps → String → StrategyContext → StrategyRunRow
created_row stamps agent_id context = record {
  id = stamps.run_id;
  agent_id = agent_id;
  status = running;
  started_at = stamps.started_at;
  context = context;
  outcome = none;
  execution = [];
  error = none;
  completed_at = none;
}

module _ {W : Type 0} where
  abbrev pub progress_of :
      Option StrategyAdapterOutcome
      → Option StrategyDecision
      → List ExecutionActionResult
      → W
      → Option Exception
      → Progress W
  progress_of outcome decision execution chain thrown = record {
    outcome = outcome;
    decision = decision;
    execution = execution;
    chain = chain;
    thrown = thrown;
  }

  abbrev pub with_chain : Store W → W → Store W
  with_chain store chain = record {
    profiles = store.profiles;
    signers = store.signers;
    runs = store.runs;
    chain = chain;
  }

  abbrev pub with_runs : Store W → List StrategyRunRow → Store W
  with_runs store runs = record {
    profiles = store.profiles;
    signers = store.signers;
    runs = runs;
    chain = store.chain;
  }

  unfoldable pub sync_owner_address : String → Text → Store W → Store W
  sync_owner_address agent_id owner store = record {
    profiles = map (set_profile_owner agent_id (map to_lower owner)) store.profiles;
    signers = map (set_signer_owner agent_id (map to_lower owner)) store.signers;
    runs = store.runs;
    chain = store.chain;
  }

  unfoldable pub bump_next_run_at : String → Text → Store W → Store W
  bump_next_run_at agent_id next_run_at store = record {
    profiles = map (set_next_run_at agent_id next_run_at) store.profiles;
    signers = store.signers;
    runs = store.runs;
    chain = store.chain;
  }
