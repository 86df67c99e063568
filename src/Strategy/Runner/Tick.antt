-- ===== src/Strategy/Runner/Tick.antt =====
-- strategy-runner.service.ts: the scheduled tick, with `listDue` of
-- api/src/db/agent-profiles.repository.ts.
use protocol_monorepo.Common.{
  ℕ, suc, ◌+◌, ◌-◌, sym, ap, ◌≤◌, Bool, ◌&&◌, not, List, [], ◌∷◌, length, length-take, filter_by,
  is_some, Result, ok, err, All, ◌≡◌, refl, arith,
}
use protocol_monorepo.Common.Text.{Text}
use protocol_monorepo.Strategy.Cooldown.{BotFrequency}
use protocol_monorepo.Strategy.Executor.{Exception}
use protocol_monorepo.Strategy.Runner.{
  RunStatus, running, completed, failed, Store, Services, Stamps, StrategyAgentRunResult,
  parse_bot_frequency, run_agent,
}
use protocol_monorepo.Strategy.Runner.Settled.{IsSettled, run_agent-IsSettled}
use protocol_monorepo.Db.Profiles.{AgentProfileRow, list_due}
use protocol_monorepo.Db.Keys.{text_leb, order_ascending}

abbrev pub due_limit : ℕ
due_limit = 10

pub record StrategyRunnerTickResult : Type 0 where
  pub due : ℕ
  pub processed : ℕ
  pub completed_runs : ℕ
  pub failed_runs : ℕ

abbrev pub count_run : RunStatus → ℕ × ℕ → ℕ × ℕ
count_run completed (c, f) = (suc c, f)
count_run failed (c, f) = (c, suc f)
count_run running (c, f) = (c, suc f)

-- Of the runs, those that completed.
abbrev pub completed_once : RunStatus → ℕ
completed_once completed = 1
completed_once failed = 0
completed_once running = 0

abbrev failed_once : RunStatus → ℕ
failed_once completed = 0
failed_once failed = 1
failed_once running = 1

abbrev pub completed_among : List StrategyAgentRunResult → ℕ
completed_among [] = 0
completed_among (result ∷ results) = completed_once result.status + completed_among results

abbrev failed_among : List StrategyAgentRunResult → ℕ
failed_among [] = 0
failed_among (result ∷ results) = failed_once result.status + failed_among results

pair_eq : {a b c d : ℕ} → a ≡ b → c ≡ d → ◌≡◌ {A = ℕ × ℕ} (a, c) (b, d)
pair_eq e e' = cc

counted :
    (s : RunStatus) (c f : ℕ) (results : List StrategyAgentRunResult)
    → ◌≡◌ {A = ℕ × ℕ}
        (
          (count_run s (c, f)).0 + completed_among results,
          (count_run s (c, f)).1 + failed_among results,
        )
        (
          c + (completed_once s + completed_among results),
          f + (failed_once s + failed_among results),
        )
counted completed c f results = pair_eq (omega arith) (omega arith)
counted failed c f results = pair_eq (omega arith) (omega arith)
counted running c f results = pair_eq (omega arith) (omega arith)

once : (s : RunStatus) → completed_once s + failed_once s ≡ 1
once completed = refl
once failed = refl
once running = refl

split_counts :
    (results : List StrategyAgentRunResult)
    → completed_among results + failed_among results ≡ length results
split_counts [] = refl
split_counts (result ∷ results) = omega (arith, once result.status, split_counts results)

-- A frequency that the schema accepts.
abbrev pub IsValid : AgentProfileRow → Type 0
IsValid row = (f : BotFrequency) × (parse_bot_frequency row.bot_frequency ≡ ok f)

at_most_limit :
    (now : Text) (rows : List AgentProfileRow) → length (list_due now due_limit rows) ≤ 10
unfolding list_due
at_most_limit now rows = omega (
  arith,
  length-take due_limit (
      order_ascending (λ row. row.next_run_at)
        (filter_by (λ row. not (is_some row.archived_at) && text_leb row.next_run_at now) rows)),
)

module _ {W : Type 0} (services : Services W) (stamps : ℕ → Stamps) (may_execute : Bool) where
  -- The loop over the due profiles; the n-th run takes the n-th stamps.
  abbrev pub after_run :
      (ℕ × ℕ)
      → (ℕ → ℕ × ℕ → Store W → Store W × Result Exception (ℕ × ℕ))
      → ℕ
      → Store W
      → Result Exception (StrategyAgentRunResult × Store W)
      → Store W × Result Exception (ℕ × ℕ)
  after_run counts continue n store (err e) = (store, err e)
  after_run counts continue n store (ok (result, after)) =
      continue (suc n) (count_run result.status counts) after

  unfoldable pub run_due :
      List AgentProfileRow → ℕ → ℕ × ℕ → Store W → Store W × Result Exception (ℕ × ℕ)
  run_due [] n counts store = (store, ok counts)
  run_due (profile ∷ profiles) n counts store =
      after_run counts (run_due profiles) n store
        (run_agent services (stamps n) may_execute profile store)

  abbrev pub tick_result :
      ℕ → Store W × Result Exception (ℕ × ℕ) → Store W × Result Exception StrategyRunnerTickResult
  tick_result due (store, err e) = (store, err e)
  tick_result due (store, ok (c, f)) =
      (store, ok (record { due = due; processed = due; completed_runs = c; failed_runs = f }))

  -- With no profile due, the loop's result is the early return's.
  unfoldable pub tick : Text → Store W → Store W × Result Exception StrategyRunnerTickResult
  tick now store =
      let due_profiles = list_due now due_limit store.profiles in
      tick_result (length due_profiles) (run_due due_profiles 0 (0, 0) store)

  -- The runs of the profiles, one after the other: each is `run_agent` of its profile, with its own
  -- stamps, in the store that the run before it has left.
  pub data Runs
      : List AgentProfileRow → ℕ → Store W → List StrategyAgentRunResult → Store W → Type 0 where
    none_left : (n : ℕ) (store : Store W) → Runs [] n store [] store
    next_run :
        {profile : AgentProfileRow} {profiles : List AgentProfileRow} {n : ℕ}
        {store after last : Store W} {result : StrategyAgentRunResult}
        {results : List StrategyAgentRunResult}
        → run_agent services (stamps n) may_execute profile store ≡ ok (result, after)
        → Runs profiles (suc n) after results last
        → Runs (profile ∷ profiles) n store (result ∷ results) last

  run_due-Runs :
      (profiles : List AgentProfileRow) (n c f : ℕ) (store : Store W)
      → All IsValid profiles
      → All IsSettled store.runs
      → (results : List StrategyAgentRunResult) × (after : Store W) × Runs profiles n store results
          after
        × (run_due profiles n (c, f) store
            ≡ (after, ok (c + completed_among results, f + failed_among results)))
        × (length results ≡ length profiles)
        × All IsSettled after.runs
  unfolding run_due
  run_due-Runs [] n c f store v h =
      let e : ◌≡◌ {A = ℕ × ℕ} (c, f) (c + 0, f + 0) = pair_eq (omega arith) (omega arith) in
      ([], store, none_left n store, ap (λ p. (store, ok p)) e, refl, h)
  run_due-Runs (profile ∷ profiles) n c f store (valid, v) h =
      let (result, after, ran, settled, _) =
        run_agent-IsSettled services (stamps n) may_execute profile store valid.0 valid.1 h in
      let (c2, f2) = count_run result.status (c, f) in
      let (results, last, runs, rest, same, settled2) =
        run_due-Runs profiles (suc n) c2 f2 after v settled in
      (
        result ∷ results,
        last,
        next_run ran runs,
        rw (ran, rest) (ap (λ p. (last, ok p)) (counted result.status c f results)),
        ap suc same,
        settled2,
      )

  -- A tick whose due profiles all have a valid frequency runs each of them: it returns, and there is
  -- one run for each due profile, at most 10, in the order of the list, each of them `run_agent` of
  -- its profile in the store that the one before it has left. It reports as due and as processed the
  -- number of the runs, as completed the number of those that completed, and as failed the others;
  -- and no row of the runs is left marked as running, if none was before.
  pub tick_total :
      (now : Text) (store : Store W)
      → All IsValid (list_due now due_limit store.profiles)
      → All IsSettled store.runs
      → (r : StrategyRunnerTickResult) × (after : Store W) × (results : List StrategyAgentRunResult)
        × (tick now store ≡ (after, ok r))
        × Runs (list_due now due_limit store.profiles) 0 store results after
        × (r.due ≡ length results)
        × (r.processed ≡ length results)
        × (r.completed_runs ≡ completed_among results)
        × (r.failed_runs ≡ length results - completed_among results)
        × (length results ≤ 10)
        × All IsSettled after.runs
  unfolding tick
  tick_total now store valid settled =
      let due = list_due now due_limit store.profiles in
      let (results, after, runs, ran, same, kept) = run_due-Runs due 0 0 0 store valid settled in
      let c = completed_among results in
      let f = failed_among results in
      (
        record {
          due = length due;
          processed = length due;
          completed_runs = 0 + c;
          failed_runs = 0 + f;
        },
        after,
        results,
        rw ran,
        runs,
        sym same,
        sym same,
        omega arith,
        omega (arith, split_counts results),
        omega (arith, same, at_most_limit now store.profiles),
        kept,
      )
