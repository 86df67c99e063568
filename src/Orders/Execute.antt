-- ===== src/Orders/Execute.antt =====
-- What an action does in api/src/lib/strategy/executor.ts: it takes a quote, signs the intent with
-- the agent's key, and submits it.
pub mod Quoted
pub mod Ready
pub mod Accepted
use protocol_monorepo.Common.{
  ℕ, ◌+◌, String, List, [], ◌∷◌, Option, none, some, Result, ok, err, get_or_else, ◌>>=◌, or_fail,
}
use protocol_monorepo.Common.Int.{ℤ}
use protocol_monorepo.Common.Text.{Text, codes}
use protocol_monorepo.Common.Decimal.{big_int}
use protocol_monorepo.Common.Decimal.Print.{to_string}
use protocol_monorepo.Tokens.Amount.{syntax_error, parse_human_amount}
use protocol_monorepo.Tokens.Catalog.{TokenCatalog}
use protocol_monorepo.Strategy.Decision.{
  ExitRuleInput, StrategyAction, open_position, close_position, add_to_position, reduce_position,
  StrategyDecision,
}
use protocol_monorepo.Strategy.ExitRules.{
  OnChainPositionIntent, IntentError, build_on_chain_intent, default_exit_ladder,
}
use protocol_monorepo.Strategy.Executor.{
  Exception, ExecutionActionResult, execute_each, execute_strategy_decision,
}
use protocol_monorepo.Orders.Errors.{OrderFailure, plain_error, message_or, other_thrown, big_nat}
use protocol_monorepo.Orders.Chain.{
  Chain, TradingConfig, TypedDomain, TypedMessage, AddToPositionIntent, ReducePositionIntent,
}
use protocol_monorepo.Orders.Checks.{
  or_amount_error, intent_message, open_typed_message, add_typed_message, reduce_typed_message,
}
use protocol_monorepo.Orders.Submit.{
  OpenPositionRequest, SubmitTradeIntentResponse, open_params, submit_intent,
}
use protocol_monorepo.Orders.Adjust.{
  AdjustRequest, SubmitAdjustIntentResponse, add, reduce, submit_adjust_intent,
}
use protocol_monorepo.Orders.Quotes.{get_quote, get_add_quote, get_reduce_quote}

-- What `errorMessage` reads of a thrown value.
abbrev pub exception_of : OrderFailure → Exception
exception_of other_thrown = none
exception_of e = some (message_or e [])

-- The account of a private key.
abbrev pub Signer : Type 0
Signer = TypedDomain → TypedMessage → Text

pub record Executed : Type 0 where
  pub tx_hash : Text
  pub position_id : Text

abbrev pub executed_trade :
    {W : Type 0}
    → W × Result OrderFailure SubmitTradeIntentResponse
    → W × Result OrderFailure Executed
executed_trade (w, err e) = (w, err e)
executed_trade (w, ok r) =
    (w, ok record { tx_hash = r.transaction_hash; position_id = r.position_id })

abbrev pub executed_adjustment :
    {W : Type 0}
    → W × Result OrderFailure SubmitAdjustIntentResponse
    → W × Result OrderFailure Executed
executed_adjustment (w, err e) = (w, err e)
executed_adjustment (w, ok r) =
    (w, ok record { tx_hash = r.transaction_hash; position_id = r.position_id })

-- An error of `buildOnChainIntent` is thrown as it is.
abbrev pub or_intent_error :
    Result IntentError OnChainPositionIntent → Result OrderFailure OnChainPositionIntent
or_intent_error (ok intent) = ok intent
or_intent_error (err e) = err (plain_error (intent_message e))

-- `exits.length > 0 ? exits : DEFAULT_EXIT_LADDER`
abbrev pub exits_or_default : List ExitRuleInput → List ExitRuleInput
exits_or_default [] = default_exit_ladder
exits_or_default (rule ∷ rules) = rule ∷ rules

-- The fields of an action that opens a position.
pub record OpenAction : Type 0 where
  pub symbol : String
  pub usdc_amount : Text
  pub min_token_out : Option Text
  pub max_slippage_bps : Option ℕ
  pub exits : Option (List ExitRuleInput)

abbrev pub zero_text : Text
zero_text = codes "0"

abbrev pub open_request : OpenAction → List ExitRuleInput → Text → Text → Text → OpenPositionRequest
open_request action exits deadline nonce signature = record {
  symbol = action.symbol;
  usdc_amount = action.usdc_amount;
  min_token_out = get_or_else action.min_token_out zero_text;
  max_slippage_bps = get_or_else action.max_slippage_bps 100;
  exits = exits;
  deadline = deadline;
  nonce = nonce;
  signature = signature;
}

module _ {W : Type 0} (chain : Chain W) where
  -- `tradeDeadline`, with `TRADE_DEADLINE_SECONDS`.
  unfoldable pub trade_deadline : W → Text
  trade_deadline w = to_string (chain.now w + 3600)

module _ {W : Type 0} (chain : Chain W) (config : TradingConfig) (catalog : TokenCatalog)
    (sign : Signer) where
  -- What is read, computed and signed before the request is submitted.
  unfoldable pub signed_open : W → Text → OpenAction → Result OrderFailure OpenPositionRequest
  signed_open w agent_id_str action = do
    quote ← get_quote chain config catalog w agent_id_str (some action.symbol)
    let exits = get_or_else action.exits quote.default_exit
    agent_id ← big_nat agent_id_str
    deadline ← big_nat (trade_deadline chain w)
    nonce ← big_nat quote.nonce
    intent ← or_intent_error (
        build_on_chain_intent catalog (
          open_params chain config agent_id quote.vault deadline nonce
            (open_request action exits (trade_deadline chain w) quote.nonce [])))
    ok (
        open_request action (exits_or_default exits) (trade_deadline chain w) quote.nonce
          (sign quote.eip712 (open_typed_message chain intent)))

  abbrev pub submit_signed_open :
      Text → W → Result OrderFailure OpenPositionRequest → W × Result OrderFailure Executed
  submit_signed_open agent_id_str w (err e) = (w, err e)
  submit_signed_open agent_id_str w (ok body) =
      executed_trade (submit_intent chain config catalog agent_id_str body w)

  unfoldable pub execute_open : Text → OpenAction → W → W × Result OrderFailure Executed
  execute_open agent_id_str action w =
      submit_signed_open agent_id_str w (signed_open w agent_id_str action)

  unfoldable pub signed_add :
      W → Text → Text → Text → Option Text → Option ℕ → Result OrderFailure AdjustRequest
  signed_add w agent_id_str position_id_str usdc_amount min_token_out max_slippage_bps = do
    quote ← get_add_quote chain config catalog w agent_id_str position_id_str
    amount ← or_amount_error (parse_human_amount usdc_amount config.usdc_decimals)
    least ← or_amount_error (or_fail (big_int (get_or_else min_token_out zero_text)) syntax_error)
    agent_id ← big_nat agent_id_str
    position_id ← big_nat position_id_str
    deadline ← big_nat (trade_deadline chain w)
    nonce ← big_nat quote.nonce
    ok record {
      position_id = position_id_str;
      adjustment =
          add usdc_amount (get_or_else min_token_out zero_text) (get_or_else max_slippage_bps 100);
      deadline = trade_deadline chain w;
      nonce = quote.nonce;
      signature = sign quote.eip712 (
          add_typed_message chain (record {
            agent_id = agent_id;
            position_id = position_id;
            usdc_amount = amount;
            min_token_out = least;
            max_slippage_bps = get_or_else max_slippage_bps 100;
            deadline = deadline;
            nonce = nonce;
          }));
    }

  unfoldable pub signed_reduce : W → Text → Text → ℕ → Result OrderFailure AdjustRequest
  signed_reduce w agent_id_str position_id_str exit_bps = do
    quote ← get_reduce_quote chain config catalog w agent_id_str position_id_str
    agent_id ← big_nat agent_id_str
    position_id ← big_nat position_id_str
    deadline ← big_nat (trade_deadline chain w)
    nonce ← big_nat quote.nonce
    ok record {
      position_id = position_id_str;
      adjustment = reduce exit_bps;
      deadline = trade_deadline chain w;
      nonce = quote.nonce;
      signature = sign quote.eip712 (
          reduce_typed_message chain (record {
            agent_id = agent_id;
            position_id = position_id;
            exit_bps = exit_bps;
            deadline = deadline;
            nonce = nonce;
          }));
    }

  abbrev pub submit_signed_adjustment :
      Text → W → Result OrderFailure AdjustRequest → W × Result OrderFailure Executed
  submit_signed_adjustment agent_id_str w (err e) = (w, err e)
  submit_signed_adjustment agent_id_str w (ok body) =
      executed_adjustment (submit_adjust_intent chain config agent_id_str body w)

  unfoldable pub execute_add :
      Text → Text → Text → Option Text → Option ℕ → W → W × Result OrderFailure Executed
  unfolding signed_add
  execute_add agent_id_str position_id_str usdc_amount min_token_out max_slippage_bps w =
      submit_signed_adjustment agent_id_str w
        (signed_add w agent_id_str position_id_str usdc_amount min_token_out max_slippage_bps)

  unfoldable pub execute_reduce : Text → Text → ℕ → W → W × Result OrderFailure Executed
  execute_reduce agent_id_str position_id_str exit_bps w =
      submit_signed_adjustment agent_id_str w
        (signed_reduce w agent_id_str position_id_str exit_bps)

  -- A position's id stands as a text of code units.
  unfoldable pub execute_action : Text → StrategyAction → W → W × Result OrderFailure Executed
  unfolding execute_open execute_add execute_reduce
  execute_action agent_id_str
        (open_position symbol usdc_amount min_token_out max_slippage_bps exits) w =
      execute_open agent_id_str
        (record {
          symbol = symbol;
          usdc_amount = usdc_amount;
          min_token_out = min_token_out;
          max_slippage_bps = max_slippage_bps;
          exits = exits;
        })
        w
  execute_action agent_id_str (close_position position_id exit_bps) w =
      execute_reduce agent_id_str (codes position_id) (get_or_else exit_bps 10000) w
  execute_action agent_id_str
        (add_to_position position_id usdc_amount min_token_out max_slippage_bps) w =
      execute_add agent_id_str (codes position_id) usdc_amount min_token_out max_slippage_bps w
  execute_action agent_id_str (reduce_position position_id exit_bps) w =
      execute_reduce agent_id_str (codes position_id) exit_bps w

  -- As the loop of `executeStrategyDecision` runs it.
  abbrev pub loop_outcome : W × Result OrderFailure Executed → W × Result Exception (Text × Text)
  loop_outcome (w, err e) = (w, err (exception_of e))
  loop_outcome (w, ok r) = (w, ok (r.tx_hash, r.position_id))

  unfoldable pub execute_decision : Text → StrategyDecision → W → W × List ExecutionActionResult
  unfolding execute_action
  execute_decision agent_id_str decision w =
      execute_strategy_decision (λ w action. loop_outcome (execute_action agent_id_str action w)) w
        decision
