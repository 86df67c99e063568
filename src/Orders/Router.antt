-- ===== src/Orders/Router.antt =====
-- api/src/services/trade-router.service.ts: the lens, which is looked up once, and transactions.
pub mod Lens
use protocol_monorepo.Common.{
  ℕ, String, Bool, true, false, not, ◌++◌, List, [], ◌∷◌, map, Option, none, some, str_eq, Result,
  ok, err, if◌then◌else◌, or_fail, ◌>>=◌, ◌>>◌, fail_if,
}
use protocol_monorepo.Common.Text.{Text, codes, text_eq, to_lower}
use protocol_monorepo.Common.Decimal.Print.{to_string}
use protocol_monorepo.Strategy.ExitRules.{OnChainPositionIntent}
use protocol_monorepo.Orders.Errors.{OrderFailure, plain_error}
use protocol_monorepo.Orders.Chain.{
  Chain, TradingConfig, RouterCall, open_call, add_call, reduce_call, update_call, RouterLog,
  Receipt, AddToPositionIntent, ReducePositionIntent, UpdateExitLadderIntent,
}

-- `resolvedLensAddress`: undefined, null or an address.
pub data LensCache : Type 0 where
  not_looked_up no_lens : LensCache
  looked_up : (lens : Text) → LensCache

abbrev pub lens_not_configured : OrderFailure
lens_not_configured = plain_error (codes "TradeRouter lens is not configured")

abbrev pub zero_address : Text
zero_address = codes "0x0000000000000000000000000000000000000000"

-- What the read of the contract leaves in the cache and answers.
abbrev pub cached_lens : Result OrderFailure Text → LensCache × Result OrderFailure Text
cached_lens (err e) = (not_looked_up, err e)
cached_lens (ok lens) =
    if text_eq lens zero_address
    then (no_lens, err lens_not_configured)
    else (looked_up lens, ok lens)

abbrev pub lens_from : Result OrderFailure Text → LensCache → LensCache × Result OrderFailure Text
lens_from lookup not_looked_up = cached_lens lookup
lens_from lookup no_lens = (no_lens, err lens_not_configured)
lens_from lookup (looked_up lens) = (looked_up lens, ok lens)

abbrev pub explicit_or :
    Option Text → Result OrderFailure Text → LensCache → LensCache × Result OrderFailure Text
explicit_or none lookup cache = lens_from lookup cache
explicit_or (some lens) lookup cache = (cache, ok lens)

abbrev pub function_name : RouterCall → Text
function_name (open_call intent signature) = codes "openPosition"
function_name (add_call intent signature) = codes "addToPosition"
function_name (reduce_call intent signature) = codes "reducePosition"
function_name (update_call intent signature) = codes "updateExitLadder"

abbrev pub settled : RouterCall → Text → Result OrderFailure Receipt → Result OrderFailure Text
settled call hash outcome = do
  receipt ← outcome
  fail_if (not (str_eq receipt.status "success"))
      (plain_error (function_name call ++ codes " transaction reverted"))
  ok hash

pub record Opened : Type 0 where
  pub position_id : Text
  pub transaction_hash : Text

module _ {W : Type 0} (chain : Chain W) (config : TradingConfig) where
  unfoldable pub get_trade_router_lens_address :
      W → LensCache → LensCache × Result OrderFailure Text
  get_trade_router_lens_address w cache =
      explicit_or config.trade_router_lens_address (chain.router_lens w) cache

  -- Once the transaction is sent, the wait for its receipt.
  abbrev pub confirmed : RouterCall → W × Result OrderFailure Text → W × Result OrderFailure Text
  confirmed call (w, err e) = (w, err e)
  confirmed call (w, ok hash) = (w, settled call hash (chain.receipt w hash))

  abbrev pub write_with : Option Text → RouterCall → W → W × Result OrderFailure Text
  write_with none call w = (w, err (plain_error (codes "EXECUTOR_PRIVATE_KEY is not configured")))
  write_with (some key) call w = confirmed call (chain.write_contract w key call)

  unfoldable pub write_and_wait : RouterCall → W → W × Result OrderFailure Text
  write_and_wait call w = write_with config.executor_private_key call w

  -- A log of another contract, or one that does not decode, is skipped.
  abbrev pub opened_by_log : RouterLog → Option (String × ℕ) → Option ℕ
  opened_by_log log none = none
  opened_by_log log (some (event_name, position_id)) =
      if text_eq (map to_lower log.address) (map to_lower config.trade_router_address)
      then (if str_eq event_name "PositionOpenedFromIntent" then some position_id else none)
      else none

  abbrev pub first_opened : Option ℕ → Option ℕ → Option ℕ
  first_opened none later = later
  first_opened (some position_id) later = some position_id

  unfoldable pub opened_position : List RouterLog → Option ℕ
  opened_position [] = none
  opened_position (log ∷ logs) =
      first_opened (opened_by_log log (chain.decode_event_log log.data_hex log.topics))
        (opened_position logs)

  unfoldable pub decode_position_id_from_receipt : Text → W → Result OrderFailure ℕ
  decode_position_id_from_receipt hash w = do
    receipt ← chain.receipt w hash
    or_fail (opened_position receipt.logs)
        (plain_error (codes "PositionOpenedFromIntent event not found in receipt"))

  abbrev pub with_position_id : W × Result OrderFailure Text → W × Result OrderFailure Opened
  with_position_id (w, err e) = (w, err e)
  with_position_id (w, ok hash) = (
    w,
    do
      position_id ← decode_position_id_from_receipt hash w
      ok record { position_id = to_string position_id; transaction_hash = hash },
  )

  unfoldable pub open_position : OnChainPositionIntent → Text → W → W × Result OrderFailure Opened
  open_position intent signature w =
      with_position_id (write_and_wait (open_call intent signature) w)

  unfoldable pub add_to_position : AddToPositionIntent → Text → W → W × Result OrderFailure Text
  add_to_position intent signature w = write_and_wait (add_call intent signature) w

  unfoldable pub reduce_position : ReducePositionIntent → Text → W → W × Result OrderFailure Text
  reduce_position intent signature w = write_and_wait (reduce_call intent signature) w

  unfoldable pub update_exit_ladder :
      UpdateExitLadderIntent → Text → W → W × Result OrderFailure Text
  update_exit_ladder intent signature w = write_and_wait (update_call intent signature) w
