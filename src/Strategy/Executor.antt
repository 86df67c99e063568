-- ===== src/Strategy/Executor.antt =====
-- The loop of api/src/lib/strategy/executor.ts over the actions of a decision. What an action
-- does, with quotes, signatures and transactions, is an argument that changes the chain's state.
use protocol_monorepo.Common.{List, [], ◌∷◌, Option, none, some, Result, ok, err, get_or_else}
use protocol_monorepo.Common.Text.{Text, codes}
use protocol_monorepo.Strategy.Decision.{StrategyAction, StrategyDecision}

-- What is thrown: the message of an `Error`, or another value.
abbrev pub Exception : Type 0
Exception = Option Text

abbrev pub error_message : Exception → Text → Text
error_message error fallback = get_or_else error fallback

pub data ActionStatus : Type 0 where
  action_ok action_failed : ActionStatus

pub record ExecutionActionResult : Type 0 where
  pub action : StrategyAction
  pub status : ActionStatus
  pub tx_hash : Option Text
  pub position_id : Option Text
  pub error : Option Text

-- The `try` and `catch` in the loop's body.
unfoldable pub result_of : StrategyAction → Result Exception (Text × Text) → ExecutionActionResult
result_of action (ok (tx_hash, position_id)) = record {
  action = action;
  status = action_ok;
  tx_hash = some tx_hash;
  position_id = some position_id;
  error = none;
}
result_of action (err e) = record {
  action = action;
  status = action_failed;
  tx_hash = none;
  position_id = none;
  error = some (error_message e (codes "Execution failed"));
}

module _ {W : Type 0}
    (execute_action : W → StrategyAction → W × Result Exception (Text × Text)) where
  unfoldable pub execute_each : W → List StrategyAction → W × List ExecutionActionResult
  execute_each chain [] = (chain, [])
  execute_each chain (action ∷ actions) =
      let (after, outcome) = execute_action chain action in
      let (last, results) = execute_each after actions in (last, result_of action outcome ∷ results)

  unfoldable pub execute_strategy_decision : W → StrategyDecision → W × List ExecutionActionResult
  execute_strategy_decision chain decision = execute_each chain decision.actions
