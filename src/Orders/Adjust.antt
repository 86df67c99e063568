-- ===== src/Orders/Adjust.antt =====
-- `submitAdjustIntent` of api/src/services/trading.service.ts: adding to a position, reducing it,
-- and replacing its exit ladder.
pub mod Own
use protocol_monorepo.Common.{
  ℕ, not, ◌++◌, List, Option, none, some, Result, ok, err, ◌>>=◌, ◌>>◌, fail_if, or_fail,
}
use protocol_monorepo.Common.Int.{ℤ}
use protocol_monorepo.Common.Text.{Text, codes}
use protocol_monorepo.Common.Decimal.{big_int}
use protocol_monorepo.Common.Decimal.Print.{to_string}
use protocol_monorepo.Tokens.Amount.{syntax_error, parse_human_amount}
use protocol_monorepo.Strategy.Decision.{ExitRuleInput}
use protocol_monorepo.Strategy.ExitRules.{map_exit_rules}
use protocol_monorepo.Orders.Errors.{OrderFailure, or_not_found, big_nat, map_submit_error}
use protocol_monorepo.Orders.Chain.{
  Chain, TradingConfig, Eip712Domain, TypedMessage, AddToPositionIntent, ReducePositionIntent,
  UpdateExitLadderIntent, get_agent,
}
use protocol_monorepo.Orders.Checks.{
  bad_request, or_amount_error, add_typed_message, reduce_typed_message, update_typed_message,
  verify_signature, require_executor_key, validate_nonce_deadline, require_own_open,
}
use protocol_monorepo.Orders.Router.{add_to_position, reduce_position, update_exit_ladder}
use protocol_monorepo.Orders.Submit.{require_active}

-- `kind`, with the fields of the request that it reads.
pub data Adjustment : Type 0 where
  add : (usdc_amount min_token_out : Text) (max_slippage_bps : ℕ) → Adjustment
  reduce : (exit_bps : ℕ) → Adjustment
  update_ladder : (exits : List ExitRuleInput) → Adjustment

-- `AddPositionRequest | ReducePositionRequest | UpdateExitLadderRequest`
pub record AdjustRequest : Type 0 where
  pub position_id : Text
  pub adjustment : Adjustment
  pub deadline : Text
  pub nonce : Text
  pub signature : Text

pub record SubmitAdjustIntentResponse : Type 0 where
  pub agent_id : Text
  pub position_id : Text
  pub transaction_hash : Text

-- What is read before the `try`.
pub record AdjustTarget : Type 0 where
  pub agent_id : ℕ
  pub position_id : ℕ
  pub deadline : ℕ
  pub nonce : ℕ
  pub signer : Text
  pub domain : Eip712Domain

pub data AdjustIntent : Type 0 where
  add_intent : (intent : AddToPositionIntent) → AdjustIntent
  reduce_intent : (intent : ReducePositionIntent) → AdjustIntent
  update_intent : (intent : UpdateExitLadderIntent) → AdjustIntent

abbrev pub invalid_signature : AdjustIntent → Text
invalid_signature (add_intent intent) = codes "Invalid AddToPosition signature"
invalid_signature (reduce_intent intent) = codes "Invalid ReducePosition signature"
invalid_signature (update_intent intent) = codes "Invalid UpdateExitLadder signature"

abbrev pub adjust_response : Text → Text → Text → SubmitAdjustIntentResponse
adjust_response agent_id_str position_id_str hash = record {
  agent_id = agent_id_str;
  position_id = position_id_str;
  transaction_hash = hash;
}

module _ {W : Type 0} (chain : Chain W) (config : TradingConfig) where
  unfoldable pub adjust_target : W → Text → AdjustRequest → Result OrderFailure AdjustTarget
  adjust_target w agent_id_str body = do
    require_executor_key chain config
    agent_id ← big_nat agent_id_str
    position_id ← big_nat body.position_id
    found ← or_not_found (get_agent chain w agent_id)
    agent ← get_agent chain w agent_id
    require_active agent agent_id_str
    position ← chain.get_position w position_id
    require_own_open position agent_id agent_id_str body.position_id
    deadline ← big_nat body.deadline
    nonce ← big_nat body.nonce
    validate_nonce_deadline chain w agent_id nonce deadline (to_string nonce)
    signer ← chain.signer_of w agent_id
    domain ← chain.eip712_domain w
    ok record {
      agent_id = agent_id;
      position_id = position_id;
      deadline = deadline;
      nonce = nonce;
      signer = signer;
      domain = domain;
    }

  unfoldable pub adjust_intent : AdjustTarget → Adjustment → Result OrderFailure AdjustIntent
  adjust_intent t (add usdc_amount min_token_out max_slippage_bps) = do
    amount ← or_amount_error (parse_human_amount usdc_amount config.usdc_decimals)
    least ← or_amount_error (or_fail (big_int min_token_out) syntax_error)
    ok (
        add_intent (record {
          agent_id = t.agent_id;
          position_id = t.position_id;
          usdc_amount = amount;
          min_token_out = least;
          max_slippage_bps = max_slippage_bps;
          deadline = t.deadline;
          nonce = t.nonce;
        }))
  adjust_intent t (reduce exit_bps) = ok (
      reduce_intent (record {
        agent_id = t.agent_id;
        position_id = t.position_id;
        exit_bps = exit_bps;
        deadline = t.deadline;
        nonce = t.nonce;
      }))
  adjust_intent t (update_ladder exits) = ok (
      update_intent (record {
        agent_id = t.agent_id;
        position_id = t.position_id;
        exits = map_exit_rules exits;
        deadline = t.deadline;
        nonce = t.nonce;
      }))

  abbrev pub adjust_message : AdjustIntent → TypedMessage
  adjust_message (add_intent intent) = add_typed_message chain intent
  adjust_message (reduce_intent intent) = reduce_typed_message chain intent
  adjust_message (update_intent intent) = update_typed_message chain intent

  -- The part of the `try` block before the transaction.
  unfoldable pub signed_adjustment :
      AdjustTarget → Adjustment → Text → Result OrderFailure AdjustIntent
  signed_adjustment t adjustment signature = do
    intent ← adjust_intent t adjustment
    valid ← verify_signature chain config t.domain t.signer (adjust_message intent) signature
    fail_if (not valid) (bad_request (invalid_signature intent))
    ok intent

  abbrev pub send_adjustment : AdjustIntent → Text → W → W × Result OrderFailure Text
  send_adjustment (add_intent intent) signature w = add_to_position chain config intent signature w
  send_adjustment (reduce_intent intent) signature w =
      reduce_position chain config intent signature w
  send_adjustment (update_intent intent) signature w =
      update_exit_ladder chain config intent signature w

  -- `catch (error) { throw this.mapSubmitError(error) }`
  abbrev pub adjusted_response :
      Text
      → Text
      → W × Result OrderFailure Text
      → W × Result OrderFailure SubmitAdjustIntentResponse
  adjusted_response agent_id_str position_id_str (w, err e) = (w, err (map_submit_error e))
  adjusted_response agent_id_str position_id_str (w, ok hash) =
      (w, ok (adjust_response agent_id_str position_id_str hash))

  abbrev pub send_signed :
      Text
      → AdjustRequest
      → W
      → Result OrderFailure AdjustIntent
      → W × Result OrderFailure SubmitAdjustIntentResponse
  send_signed agent_id_str body w (err e) = (w, err (map_submit_error e))
  send_signed agent_id_str body w (ok intent) =
      adjusted_response agent_id_str body.position_id (send_adjustment intent body.signature w)

  abbrev pub adjust_found :
      Text
      → AdjustRequest
      → W
      → Result OrderFailure AdjustTarget
      → W × Result OrderFailure SubmitAdjustIntentResponse
  adjust_found agent_id_str body w (err e) = (w, err e)
  adjust_found agent_id_str body w (ok t) =
      send_signed agent_id_str body w (signed_adjustment t body.adjustment body.signature)

  unfoldable pub submit_adjust_intent :
      Text → AdjustRequest → W → W × Result OrderFailure SubmitAdjustIntentResponse
  submit_adjust_intent agent_id_str body w =
      adjust_found agent_id_str body w (adjust_target w agent_id_str body)
