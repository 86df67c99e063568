-- ===== src/Orders/Submit.antt =====
-- `submitIntent` of api/src/services/trading.service.ts: everything up to the transaction only
-- reads, so it is a result, and the transaction then changes the chain.
pub mod Guards
use protocol_monorepo.Common.{
  ℕ, String, not, ◌++◌, List, Result, ok, err, ◌==◌, ◌>>=◌, ◌>>◌, fail_if, or_fail,
}
use protocol_monorepo.Common.Text.{Text, codes}
use protocol_monorepo.Tokens.Catalog.{TokenCatalog}
use protocol_monorepo.Trading.Risk.{agent_status_active}
use protocol_monorepo.Strategy.Decision.{ExitRuleInput}
use protocol_monorepo.Strategy.ExitRules.{
  IntentParams, OnChainPositionIntent, build_on_chain_intent, resolve_token_address,
}
use protocol_monorepo.Orders.Errors.{
  OrderFailure, trading_error, or_not_found, big_nat, map_submit_error,
}
use protocol_monorepo.Orders.Chain.{Chain, TradingConfig, AgentRecord, get_agent}
use protocol_monorepo.Orders.Checks.{
  bad_request, or_invalid_intent, open_typed_message, verify_signature, require_executor_key,
  assert_token_allowed, validate_nonce_deadline,
}
use protocol_monorepo.Orders.Router.{Opened, open_position}

-- `OpenPositionRequest`
pub record OpenPositionRequest : Type 0 where
  pub symbol : String
  pub usdc_amount : Text
  pub min_token_out : Text
  pub max_slippage_bps : ℕ
  pub exits : List ExitRuleInput
  pub deadline : Text
  pub nonce : Text
  pub signature : Text

pub record SubmitTradeIntentResponse : Type 0 where
  pub agent_id : Text
  pub position_id : Text
  pub transaction_hash : Text

abbrev pub trade_response : Text → Opened → SubmitTradeIntentResponse
trade_response agent_id_str result = record {
  agent_id = agent_id_str;
  position_id = result.position_id;
  transaction_hash = result.transaction_hash;
}

abbrev pub require_active : AgentRecord → Text → Result OrderFailure (Unit {0})
require_active agent agent_id_str =
    fail_if (not (agent.status == agent_status_active))
      (bad_request (codes "Agent " ++ agent_id_str ++ codes " is not Active"))

module _ {W : Type 0} (chain : Chain W) (config : TradingConfig) where
  abbrev pub open_params : ℕ → Text → ℕ → ℕ → OpenPositionRequest → IntentParams
  open_params agent_id vault deadline nonce body = record {
    agent_id = agent_id;
    vault = vault;
    symbol = body.symbol;
    chain_id = config.chain_id;
    usdc_amount_human = body.usdc_amount;
    usdc_decimals = config.usdc_decimals;
    min_token_out = body.min_token_out;
    max_slippage_bps = body.max_slippage_bps;
    exits = body.exits;
    deadline = deadline;
    nonce = nonce;
  }

  -- The signature over the intent. Of two reads that fail together the first is reported.
  abbrev pub require_open_signature :
      W → ℕ → OnChainPositionIntent → Text → Result OrderFailure (Unit {0})
  require_open_signature w agent_id intent signature = do
    signer ← chain.signer_of w agent_id
    domain ← chain.eip712_domain w
    valid ← verify_signature chain config domain signer (open_typed_message chain intent) signature
    fail_if (not valid) (bad_request (codes "Invalid OpenPosition signature"))

  abbrev pub opened_response :
      Text → W × Result OrderFailure Opened → W × Result OrderFailure SubmitTradeIntentResponse
  opened_response agent_id_str (w, err e) = (w, err (map_submit_error e))
  opened_response agent_id_str (w, ok result) = (w, ok (trade_response agent_id_str result))

  abbrev pub submit_checked :
      W
      → Text
      → Text
      → Result OrderFailure OnChainPositionIntent
      → W × Result OrderFailure SubmitTradeIntentResponse
  submit_checked w agent_id_str signature (err e) = (w, err e)
  submit_checked w agent_id_str signature (ok intent) =
      opened_response agent_id_str (open_position chain config intent signature w)

  module _ (catalog : TokenCatalog) where
    unfoldable pub checked_intent :
        W → Text → OpenPositionRequest → Result OrderFailure OnChainPositionIntent
    checked_intent w agent_id_str body = do
      require_executor_key chain config
      agent_id ← big_nat agent_id_str
      agent ← or_not_found (get_agent chain w agent_id)
      require_active agent agent_id_str
      vault ← chain.vault_of w agent_id
      token ←
          or_fail (resolve_token_address catalog config.chain_id body.symbol)
            (bad_request (codes "Unknown token symbol: " ++ codes body.symbol))
      assert_token_allowed chain w vault token
      deadline ← big_nat body.deadline
      nonce ← big_nat body.nonce
      validate_nonce_deadline chain w agent_id nonce deadline body.nonce
      intent ←
          or_invalid_intent
            (build_on_chain_intent catalog (open_params agent_id vault deadline nonce body))
      require_open_signature w agent_id intent body.signature
      ok intent

    unfoldable pub submit_intent :
        Text → OpenPositionRequest → W → W × Result OrderFailure SubmitTradeIntentResponse
    submit_intent agent_id_str body w =
        submit_checked w agent_id_str body.signature (checked_intent w agent_id_str body)
