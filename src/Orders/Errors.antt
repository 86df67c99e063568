-- ===== src/Orders/Errors.antt =====
-- What the trading services throw, api/src/lib/evm/viem-revert.ts, and `mapSubmitError` of
-- api/src/services/trading.service.ts.
pub mod Statuses
use protocol_monorepo.Common.{
  ℕ, String, Bool, true, false, ◌||◌, Option, none, some, List, [], ◌∷◌, ◌++◌, if◌then◌else◌,
  Result, ok, err,
}
use protocol_monorepo.Common.Int.{ℤ, pos, negsuc}
use protocol_monorepo.Common.Text.{Text, codes, text_eq, includes}
use protocol_monorepo.Common.Decimal.{big_int}

-- A `TradingError`, an `AgentNotFoundError`, an error of a reverted contract call with the name of
-- the decoded revert, another `Error`, another value.
pub data OrderFailure : Type 0 where
  trading_error : (message : Text) (status : ℕ) → OrderFailure
  agent_not_found_error : (message : Text) → OrderFailure
  contract_revert : (error_name message : Text) → OrderFailure
  plain_error : (message : Text) → OrderFailure
  other_thrown : OrderFailure

abbrev pub message_or : OrderFailure → Text → Text
message_or (trading_error message status) fallback = message
message_or (agent_not_found_error message) fallback = message
message_or (contract_revert error_name message) fallback = message
message_or (plain_error message) fallback = message
message_or other_thrown fallback = fallback

-- `BigInt(text)` where the result is used as an unsigned number: a contract call refuses a negative.
abbrev unsigned : Option ℤ → Result OrderFailure ℕ
unsigned none = err (plain_error (codes "SyntaxError"))
unsigned (some (pos n)) = ok n
unsigned (some (negsuc n)) = err (plain_error (codes "IntegerOutOfRangeError"))

unfoldable pub big_nat : Text → Result OrderFailure ℕ
big_nat s = unsigned (big_int s)

-- `revert?.data?.errorName === errorName`
abbrev pub has_revert : OrderFailure → Text → Bool
has_revert (contract_revert error_name message) name = text_eq error_name name
has_revert _ name = false

-- `error instanceof Error && error.message.includes(errorName)`
abbrev pub message_includes : OrderFailure → Text → Bool
message_includes other_thrown name = false
message_includes e name = includes name (message_or e [])

unfoldable pub is_contract_revert : OrderFailure → Text → Bool
is_contract_revert e name = has_revert e name || message_includes e name

abbrev pub revert_names : List Text
revert_names =
    codes "InvalidSignature"
    ∷ codes "InvalidNonce"
    ∷ codes "ExpiredDeadline"
    ∷ codes "InvalidExitRules"
    ∷ codes "ExitRulesOutOfBounds"
    ∷ codes "AgentNotTradable"
    ∷ codes "VaultMismatch"
    ∷ codes "TokenNotAllowed"
    ∷ codes "PositionAlreadyOpen"
    ∷ codes "PositionNotOpen"
    ∷ codes "PositionAgentMismatch"
    ∷ codes "InvalidReduceAmount"
    ∷ codes "TooManyExitRules"
    ∷ codes "PendingRuleAlreadyTriggered"
    ∷ codes "AllocationNotActive"
    ∷ codes "ExceedsAllocationCap"
    ∷ codes "ExceedsMaxTradeSize"
    ∷ codes "ExceedsDailyTurnover"
    ∷ codes "ExceedsDailyLoss"
    ∷ codes "VaultTrackNotActive"
    ∷ []

-- The loop over the names.
unfoldable pub revert_among : OrderFailure → List Text → Option Text
revert_among e [] = none
revert_among e (name ∷ names) =
    let later = revert_among e names in if is_contract_revert e name then some name else later

-- The tests behind the loop.
unfoldable pub map_other_submit_error : OrderFailure → OrderFailure
map_other_submit_error e =
    let message = message_or e (codes "Trade submission failed") in
    if is_contract_revert e (codes "RegistryPaused")
    then trading_error (codes "AgentRegistry is paused") 503
    else if is_contract_revert e (codes "TradingOperationsPaused")
    then trading_error (codes "Vault trading is paused") 503
    else if includes (codes "reverted") message || includes (codes "Revert") message
    then trading_error message 502
    else if includes (codes "not configured") message
    then trading_error message 503
    else trading_error message 502

abbrev pub map_named_revert : OrderFailure → Option Text → OrderFailure
map_named_revert e none = map_other_submit_error e
map_named_revert e (some name) = trading_error (codes "On-chain revert: " ++ name) 400

unfoldable pub map_submit_error : OrderFailure → OrderFailure
map_submit_error (trading_error message status) = trading_error message status
map_submit_error e = map_named_revert e (revert_among e revert_names)

-- `catch (error) { if (error instanceof AgentNotFoundError) throw new TradingError(..., 404) ... }`
abbrev pub not_found_error : OrderFailure → OrderFailure
not_found_error (agent_not_found_error message) = trading_error message 404
not_found_error e = e

abbrev pub or_not_found : {A : Type 0} → Result OrderFailure A → Result OrderFailure A
or_not_found (ok a) = ok a
or_not_found (err e) = err (not_found_error e)
