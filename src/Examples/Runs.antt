-- ===== src/Examples/Runs.antt =====
-- A strategy run, its guardrails and a tick at concrete inputs.
use protocol_monorepo.Common.{
  ◌-◌, List, ℕ, ◌+◌, ◌≡◌, ◌≢◌, ◌⊎◌, ◌≤◌, refl, [], ◌∷◌, none, some, ok, true, false, All, length,
}
use protocol_monorepo.Common.Int.{pos}
use protocol_monorepo.Common.Text.{codes, to_lower}
use protocol_monorepo.Trading.Risk.{Breaches}
use protocol_monorepo.Strategy.Decision.{
  StrategyAction, close_position, StrategyDecision, AgentPosition, is_open, ExitBounds,
  StrategyContext,
}
use protocol_monorepo.Strategy.Guardrails.{
  assert_strategy_decision_guardrails, assert_each, assert_action, assert_action_kind,
  assert_open_position,
}
use protocol_monorepo.Strategy.Cooldown.{hourly, compute_next_run_at}
use protocol_monorepo.Strategy.Executor.{execute_each, execute_strategy_decision}
use protocol_monorepo.Strategy.Runner.{
  ok_outcome, Store, Services, Stamps, StrategyAgentRunResult, parse_bot_frequency, run_agent,
  attempt_run, sync_owner, read_context, recorded_run, decide_and_execute, bump_next_run_at,
}
use protocol_monorepo.Strategy.Runner.Settled.{IsSettled, run_agent-IsSettled}
use protocol_monorepo.Strategy.Runner.Permission.{RunActs, run_agent-permission}
use protocol_monorepo.Strategy.Runner.Tick.{
  StrategyRunnerTickResult, due_limit, tick, tick_total, IsValid, Runs, completed_among,
}
use protocol_monorepo.Strategy.Runner.ById.{may_execute_with, run_agent_by_id, run_agent_by_id_dry}
use protocol_monorepo.Strategy.Adapter.{StrategyAiEnvelope}
use protocol_monorepo.Db.Profiles.{AgentProfileRow, list_due}
use protocol_monorepo.Db.Keys.{order_ascending, insert_ascending}

abbrev position : AgentPosition
position = record { position_id = "1"; symbol = "NVDA"; status = is_open }

abbrev bounds : ExitBounds
bounds = record {
  require_stop_loss = true;
  require_take_profit = false;
  max_stop_loss_bps = 2000;
  min_take_profit_bps = 100;
  max_take_profit_bps = 5000;
}

abbrev calm : Breaches
calm = record { drawdown = false; daily_loss = false }

abbrev context : StrategyContext
context = record {
  positions = position ∷ [];
  guardrails = record {
    allowed_symbols = "NVDA" ∷ [];
    available = codes "1000000";
    exit_bounds = bounds;
    breaches = calm;
    usdc_decimals = 6;
  };
}

abbrev closing : StrategyAction
closing = close_position "1" none

abbrev decision : StrategyDecision
decision = record { summary = "close"; actions = closing ∷ [] }

-- The chain counts its transactions.
abbrev services : Services ℕ
services = record {
  get_agent_owner = λ chain agent_id. ok (codes "0xAA");
  list_open_positions = λ chain agent_id. ok (position ∷ []);
  get_risk_state = λ chain agent_id. ok calm;
  get_quote = λ chain agent_id.
      ok (record {
        allowed_symbols = "NVDA" ∷ [];
        available = codes "1000000";
        exit_bounds = bounds;
      });
  usdc_decimals = ok 6;
  decide_strategy = λ c. ok (ok_outcome "close" (closing ∷ []));
  decrypt_signer_private_key = λ key. ok key;
  execute_action = λ key agent_id chain action. (chain + 1, ok (codes "0x01", codes "1"));
  to_iso = λ ms. codes "later";
  message_of = λ e. codes "refused";
}

abbrev stamps : Stamps
stamps = record {
  run_id = codes "run_1";
  started_at = codes "t0";
  completed_at = codes "t1";
  bumped_ms = pos 5;
}

abbrev profile : AgentProfileRow
profile = record {
  agent_id = "7";
  owner_address = codes "0xaa";
  handle = "trader";
  strategy = codes "buy low";
  pricing_tier = "free";
  created_at = codes "t";
  bot_frequency = codes "1h";
  next_run_at = codes "now";
  archived_at = none;
}

abbrev store : Store ℕ
store = record {
  profiles = profile ∷ [];
  signers =
      record {
        agent_id = "7";
        owner_address = codes "0xaa";
        encrypted_signer_key = codes "k";
        signer_address = codes "0xb";
        key_version = 1;
        created_at = codes "t";
      }
      ∷ [];
  runs = [];
  chain = 0;
}

hourly_profile : parse_bot_frequency (codes "1h") ≡ ok hourly
unfolding parse_bot_frequency
hourly_profile = refl

run_agent-IsSettled_example :
    (result : StrategyAgentRunResult) × (after : Store ℕ) × (run_agent services stamps true profile
        store
      ≡ ok (result, after))
    × All IsSettled after.runs
    × All
        (λ row.
          (row.agent_id ≢ "7")
          ⊎ (row.next_run_at ≡ compute_next_run_at services.to_iso hourly (pos 5)))
        after.profiles
run_agent-IsSettled_example =
    run_agent-IsSettled services stamps true profile store hourly hourly_profile tt

-- What the run returns and leaves.
returned :
    (result : StrategyAgentRunResult) × (after : Store ℕ) × (run_agent services stamps true profile
        store
      ≡ ok (result, after))
    × (after.chain ≡ 1)
    × (result.actions ≡ closing ∷ [])
unfolding parse_bot_frequency run_agent attempt_run sync_owner read_context recorded_run
    decide_and_execute assert_strategy_decision_guardrails assert_each assert_action
    assert_action_kind assert_open_position execute_strategy_decision execute_each bump_next_run_at
    to_lower
returned = (_, _, refl, refl, refl)

run_agent-permission_example : RunActs services true profile store (returned.0, returned.1)
run_agent-permission_example =
    run_agent-permission services true stamps profile store returned.1 returned.0 returned.2

due_now : list_due (codes "now") due_limit store.profiles ≡ profile ∷ []
unfolding list_due order_ascending insert_ascending
due_now = refl

due-IsValid : All IsValid (list_due (codes "now") due_limit store.profiles)
due-IsValid = rw (due_now, All) ((hourly, hourly_profile), tt)

tick_total_example :
    (r : StrategyRunnerTickResult) × (after : Store ℕ) × (results : List StrategyAgentRunResult)
    × (tick services (λ n. stamps) true (codes "now") store ≡ (after, ok r))
    × Runs services
        (λ n. stamps)
        true
        (list_due (codes "now") due_limit store.profiles)
        0
        store
        results
        after
    × (r.due ≡ length results)
    × (r.processed ≡ length results)
    × (r.completed_runs ≡ completed_among results)
    × (r.failed_runs ≡ length results - completed_among results)
    × (length results ≤ 10)
    × All IsSettled after.runs
tick_total_example = tick_total services (λ n. stamps) true (codes "now") store due-IsValid tt

-- The same run, asked for by hand without execution.
returned_dry :
    (result : StrategyAgentRunResult) × (after : Store ℕ) × (run_agent_by_id services none stamps
        (some false)
        "7"
        store
      ≡ ok (result, after))
    × (result.actions ≡ closing ∷ [])
unfolding run_agent_by_id may_execute_with parse_bot_frequency run_agent attempt_run sync_owner
    read_context recorded_run decide_and_execute assert_strategy_decision_guardrails assert_each
    assert_action assert_action_kind assert_open_position execute_strategy_decision execute_each
    bump_next_run_at to_lower
returned_dry = (_, _, refl, refl)

run_agent_by_id_dry_example : (returned_dry.1.chain ≡ 0) × (returned_dry.0.execution ≡ [])
run_agent_by_id_dry_example =
    run_agent_by_id_dry services none stamps "7" store returned_dry.1 returned_dry.0 returned_dry.2

abbrev answer : StrategyAiEnvelope
answer = record {
  passed = true;
  safety_reason = [];
  tradable = true;
  assessment_reason = [];
  decision = some decision;
}
