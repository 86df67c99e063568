-- ===== src/Orders/Checks.antt =====
-- api/src/services/trading.service.ts: the checks that quotes and submissions share, and
-- api/src/lib/eip712: how the four signatures are verified.
pub mod Passed
use protocol_monorepo.Common.{
  ℕ, String, Bool, not, ◌++◌, Option, none, some, Result, ok, err, ◌==◌, ltb, is_some, ◌>>=◌, ◌>>◌,
  fail_if,
}
use protocol_monorepo.Common.Text.{Text, codes}
use protocol_monorepo.Common.Decimal.Print.{to_string}
use protocol_monorepo.Tokens.Amount.{AmountError, invalid_amount, syntax_error}
use protocol_monorepo.Strategy.ExitRules.{
  OnChainPositionIntent, IntentError, unknown_token_symbol, amount_refused,
}
use protocol_monorepo.Strategy.Decision.{ExitBounds}
use protocol_monorepo.Orders.Errors.{OrderFailure, trading_error, plain_error}
use protocol_monorepo.Orders.Chain.{
  Chain, TradingConfig, AccountRiskBounds, VaultTrackConfig, Eip712Domain, TypedDomain,
  TypedMessage, open_message, add_message, reduce_message, update_message, AddToPositionIntent,
  ReducePositionIntent, UpdateExitLadderIntent, PositionOnChain,
}

-- `POSITION_STATUS_OPEN` and `POSITION_STATUS_CLOSED`
abbrev pub position_status_open : ℕ
position_status_open = 0

abbrev pub position_status_closed : ℕ
position_status_closed = 1

abbrev pub bad_request : Text → OrderFailure
bad_request message = trading_error message 400

-- The bad_request text is left out of an amount's message.
abbrev pub amount_message : AmountError → Text
amount_message invalid_amount = codes "Invalid amount: "
amount_message syntax_error = codes "SyntaxError"

abbrev pub intent_message : IntentError → Text
intent_message (unknown_token_symbol symbol) =
    codes "Unknown or unmapped token symbol: " ++ codes symbol
intent_message (amount_refused e) = amount_message e

-- `catch (error) { throw new TradingError(error.message, 400) }`
abbrev pub or_invalid_intent :
    Result IntentError OnChainPositionIntent → Result OrderFailure OnChainPositionIntent
or_invalid_intent (ok intent) = ok intent
or_invalid_intent (err e) = err (bad_request (intent_message e))

-- An exception of `parseHumanAmount` as it is thrown.
abbrev pub or_amount_error : {A : Type 0} → Result AmountError A → Result OrderFailure A
or_amount_error (ok a) = ok a
or_amount_error (err e) = err (plain_error (amount_message e))

module _ {W : Type 0} (chain : Chain W) where
  abbrev pub open_typed_message : OnChainPositionIntent → TypedMessage
  open_typed_message intent =
      open_message intent.agent_id intent.vault intent.token intent.usdc_amount intent.min_token_out
        intent.max_slippage_bps (chain.hash_exit_rules intent.exits) intent.deadline intent.nonce

  abbrev pub add_typed_message : AddToPositionIntent → TypedMessage
  add_typed_message intent =
      add_message intent.agent_id intent.position_id intent.usdc_amount intent.min_token_out
        intent.max_slippage_bps intent.deadline intent.nonce

  abbrev pub reduce_typed_message : ReducePositionIntent → TypedMessage
  reduce_typed_message intent =
      reduce_message intent.agent_id intent.position_id intent.exit_bps intent.deadline intent.nonce

  abbrev pub update_typed_message : UpdateExitLadderIntent → TypedMessage
  update_typed_message intent =
      update_message intent.agent_id intent.position_id (chain.hash_exit_rules intent.exits)
        intent.deadline intent.nonce

  module _ (config : TradingConfig) where
    abbrev pub typed_domain : Eip712Domain → TypedDomain
    typed_domain domain = record {
      name = domain.name;
      version = domain.version;
      chain_id = config.chain_id;
      verifying_contract = config.trade_router_address;
    }

    unfoldable pub verify_signature :
        Eip712Domain → Text → TypedMessage → Text → Result OrderFailure Bool
    verify_signature domain expected_signer message signature =
        chain.verify_typed_data expected_signer (typed_domain domain) message signature

    abbrev pub require_executor_key : Result OrderFailure (Unit {0})
    require_executor_key =
        fail_if (not (is_some config.executor_private_key))
          (trading_error (codes "EXECUTOR_PRIVATE_KEY is not configured") 503)

    -- `getVaultTrackConfig` and `getExitBounds` read it.
    unfoldable pub get_vault_track_config : W → Text → ℕ → Result OrderFailure VaultTrackConfig
    get_vault_track_config w vault track_id = do
      fail_if (not (is_some config.vault_track_registry))
          (trading_error (codes "VaultTrackRegistry is not configured") 503)
      chain.vault_track_config w vault track_id

    unfoldable pub get_account_risk_bounds : W → Text → ℕ → Result OrderFailure AccountRiskBounds
    unfolding get_vault_track_config
    get_account_risk_bounds w vault track_id = do
      track ← get_vault_track_config w vault track_id
      ok track.risk_bounds

    unfoldable pub get_exit_bounds : W → Text → ℕ → Result OrderFailure ExitBounds
    unfolding get_vault_track_config
    get_exit_bounds w vault track_id = do
      track ← get_vault_track_config w vault track_id
      ok track.exit_bounds

  unfoldable pub assert_token_allowed : W → Text → Text → Result OrderFailure (Unit {0})
  assert_token_allowed w vault token = do
    allowed ← chain.is_allowed_token w vault token
    fail_if (not allowed) (bad_request (codes "Token is not allowed on agent vault: " ++ token))

  -- `nonce_text` is the nonce as the message shows it.
  unfoldable pub validate_nonce_deadline : W → ℕ → ℕ → ℕ → Text → Result OrderFailure (Unit {0})
  validate_nonce_deadline w agent_id nonce deadline nonce_text = do
    fail_if (ltb deadline (chain.now w)) (bad_request (codes "Trade intent deadline has expired"))
    on_chain_nonce ← chain.nonces w agent_id
    fail_if (not (on_chain_nonce == nonce)) (
        bad_request (
          codes "Invalid nonce: expected "
          ++ to_string on_chain_nonce
          ++ codes ", got "
          ++ nonce_text))

-- The position of an adjustment is the agent's, and open.
abbrev pub require_own_open : PositionOnChain → ℕ → Text → Text → Result OrderFailure (Unit {0})
require_own_open position agent_id agent_id_str position_id_str = do
  fail_if (not (position.agent_id == agent_id)) (
      bad_request (
        codes "Position " ++ position_id_str ++ codes " does not belong to agent " ++ agent_id_str))
  fail_if (not (position.status == position_status_open))
      (bad_request (codes "Position " ++ position_id_str ++ codes " is not open"))
