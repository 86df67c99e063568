-- ===== src/Orders/Errors/Statuses.antt =====
-- Which status `mapSubmitError` answers with.
use protocol_monorepo.Common.{
  ℕ, ◌≡◌, refl, inl, inr, Bool, not, ◌&&◌, ◌||◌, List, [], ◌∷◌, any, Bool-cases, arith,
  if◌then◌else◌,
}
use protocol_monorepo.Common.Text.{Text, codes, includes}
use protocol_monorepo.Orders.Errors.{
  OrderFailure, trading_error, agent_not_found_error, contract_revert, plain_error, other_thrown,
  message_or, is_contract_revert, revert_names, revert_among, map_other_submit_error,
  map_named_revert, map_submit_error,
}

abbrev is_known_revert : OrderFailure → Bool
is_known_revert e = any (is_contract_revert e) revert_names

abbrev is_paused : OrderFailure → Bool
is_paused e =
    is_contract_revert e (codes "RegistryPaused")
    || is_contract_revert e (codes "TradingOperationsPaused")

abbrev is_unconfigured : OrderFailure → Bool
is_unconfigured e =
    let message = message_or e (codes "Trade submission failed") in
    not (includes (codes "reverted") message || includes (codes "Revert") message)
    && includes (codes "not configured") message

-- The status of the answer, as a table.
abbrev submit_status : OrderFailure → ℕ
submit_status (trading_error message status) = status
submit_status e =
    if is_known_revert e then 400 else if is_paused e || is_unconfigured e then 503 else 502

abbrev HasStatus : ℕ → OrderFailure → Type 0
HasStatus n (trading_error message status) = status ≡ n
HasStatus n _ = ⊥

other-HasStatus :
    (e : OrderFailure)
    → HasStatus (if is_paused e || is_unconfigured e then 503 else 502) (map_other_submit_error e)
unfolding map_other_submit_error
other-HasStatus e = ground arith

named-HasStatus :
    (e : OrderFailure) (names : List Text)
    → HasStatus
        (if any (is_contract_revert e) names
          then 400
          else if is_paused e || is_unconfigured e
          then 503
          else 502)
        (map_named_revert e (revert_among e names))
unfolding revert_among
named-HasStatus e [] = other-HasStatus e
named-HasStatus e (name ∷ names) = elim (Bool-cases (is_contract_revert e name)) [
  | inl same ↦ rw same refl
  | inr other ↦ rw other (named-HasStatus e names)
]

-- `mapSubmitError` always makes a `TradingError`. One that it is given keeps its status. Any other
-- error answers 400 if it is one of the twenty named reverts, else 503 if it is one of the two
-- pauses or if its message says "not configured" and neither "reverted" nor "Revert", else 502.
map_submit_error-HasStatus : (e : OrderFailure) → HasStatus (submit_status e) (map_submit_error e)
unfolding map_submit_error
map_submit_error-HasStatus (trading_error message status) = refl
map_submit_error-HasStatus (agent_not_found_error message) =
    named-HasStatus (agent_not_found_error message) revert_names
map_submit_error-HasStatus (contract_revert name message) =
    named-HasStatus (contract_revert name message) revert_names
map_submit_error-HasStatus (plain_error message) =
    named-HasStatus (plain_error message) revert_names
map_submit_error-HasStatus other_thrown = named-HasStatus other_thrown revert_names
