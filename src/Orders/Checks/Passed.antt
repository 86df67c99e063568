-- ===== src/Orders/Checks/Passed.antt =====
-- What a check that passes has found.
use protocol_monorepo.Common.{
  ℕ, ◌≤◌, ◌≡◌, refl, true, false, not, Bool, Result, ok, err, arith, ◌==◌, ltb, fail_if, or_fail,
  >>=-eq-ok, Option, none, some, ==_iff,
}
use protocol_monorepo.Common.Text.{Text}
use protocol_monorepo.Common.Decimal.{big_int}
use protocol_monorepo.Tokens.Amount.{parse_human_amount, syntax_error}
use protocol_monorepo.Tokens.Catalog.{TokenCatalog}
use protocol_monorepo.Strategy.ExitRules.{
  IntentParams, OnChainPositionIntent, IntentError, build_on_chain_intent, resolve_token_address,
  amount_thrown, intent_of, unknown_token_symbol, amount_refused, map_exit_rules,
}
use protocol_monorepo.Orders.Errors.{OrderFailure, or_not_found}
use protocol_monorepo.Orders.Chain.{Chain, PositionOnChain}
use protocol_monorepo.Orders.Checks.{
  position_status_open, assert_token_allowed, validate_nonce_deadline, require_own_open,
  or_invalid_intent,
}

fail_if_passed : {E : Type 0} (b : Bool) (e : E) → fail_if b e ≡ ok tt → b ≡ false
fail_if_passed true e h = cc
fail_if_passed false e h = refl

negated_false : (b : Bool) → not b ≡ false → b ≡ true
negated_false b h = ground arith

pub require_eq : {E : Type 0} (m n : ℕ) (e : E) → fail_if (not (m == n)) e ≡ ok tt → m ≡ n
require_eq m n e h = (==_iff m n).0 (negated_false (m == n) (fail_if_passed (not (m == n)) e h))

pub require_true : {E : Type 0} (b : Bool) (e : E) → fail_if (not b) e ≡ ok tt → b ≡ true
require_true b e h = negated_false b (fail_if_passed (not b) e h)

pub or_not_found_passed :
    {A : Type 0} (r : Result OrderFailure A) (a : A) → or_not_found r ≡ ok a → r ≡ ok a
or_not_found_passed (ok b) a h = h
or_not_found_passed (err e) a h = cc

module _ {W : Type 0} (chain : Chain W) (w : W) where
  pub assert_token_allowed_passed :
      (vault token : Text)
      → assert_token_allowed chain w vault token ≡ ok tt
      → chain.is_allowed_token w vault token ≡ ok true
  unfolding assert_token_allowed
  assert_token_allowed_passed vault token h =
      let (allowed, read, rest) = >>=-eq-ok (chain.is_allowed_token w vault token) _ h in
      rw (read, require_true allowed _ rest) refl

  pub validate_nonce_deadline_passed :
      (agent_id nonce deadline : ℕ) (nonce_text : Text)
      → validate_nonce_deadline chain w agent_id nonce deadline nonce_text ≡ ok tt
      → (chain.now w ≤ deadline) × (chain.nonces w agent_id ≡ ok nonce)
  unfolding validate_nonce_deadline
  validate_nonce_deadline_passed agent_id nonce deadline nonce_text h =
      let (_, alive, rest) = >>=-eq-ok (fail_if (ltb deadline (chain.now w)) _) _ h in
      let (on_chain, read, same) = >>=-eq-ok (chain.nonces w agent_id) _ rest in
      let late = fail_if_passed (ltb deadline (chain.now w)) _ alive in
      (ground arith, rw (read, require_eq on_chain nonce _ same) refl)

pub require_own_open_passed :
    (position : PositionOnChain) (agent_id : ℕ) (agent_id_str position_id_str : Text)
    → require_own_open position agent_id agent_id_str position_id_str ≡ ok tt
    → (position.agent_id ≡ agent_id) × (position.status ≡ position_status_open)
require_own_open_passed position agent_id agent_id_str position_id_str h =
    let (_, own, rest) = >>=-eq-ok (fail_if (not (position.agent_id == agent_id)) _) _ h in
    (
      require_eq position.agent_id agent_id _ own,
      require_eq position.status position_status_open _ rest,
    )

or_invalid_intent_passed :
    (r : Result IntentError OnChainPositionIntent) (intent : OnChainPositionIntent)
    → or_invalid_intent r ≡ ok intent
    → r ≡ ok intent
or_invalid_intent_passed (ok a) intent h = cc
or_invalid_intent_passed (err e) intent h = cc

-- The intent that a request becomes.
abbrev pub IsBuilt : TokenCatalog → IntentParams → OnChainPositionIntent → Type 0
IsBuilt catalog params intent =
    (resolve_token_address catalog params.chain_id params.symbol ≡ some intent.token)
    × (intent.agent_id ≡ params.agent_id)
    × (intent.vault ≡ params.vault)
    × (intent.nonce ≡ params.nonce)
    × (intent.deadline ≡ params.deadline)
    × (intent.exits ≡ map_exit_rules params.exits)

or_fail_passed : {E A : Type 0} (o : Option A) (e : E) (a : A) → or_fail o e ≡ ok a → o ≡ some a
or_fail_passed none e a h = cc
or_fail_passed (some b) e a h = cc

pub or_invalid_intent-IsBuilt :
    (catalog : TokenCatalog) (params : IntentParams) (intent : OnChainPositionIntent)
    → or_invalid_intent (build_on_chain_intent catalog params) ≡ ok intent
    → IsBuilt catalog params intent
unfolding build_on_chain_intent
or_invalid_intent-IsBuilt catalog params intent h =
    let found =
      or_fail (resolve_token_address catalog params.chain_id params.symbol)
        (unknown_token_symbol params.symbol) in
    let built = or_invalid_intent_passed (build_on_chain_intent catalog params) intent h in
    let (token, resolved, r1) = >>=-eq-ok found _ built in
    let (amount, _, r2) =
      >>=-eq-ok (amount_thrown (parse_human_amount params.usdc_amount_human params.usdc_decimals)) _
        r1 in
    let (least, _, r3) =
      >>=-eq-ok (or_fail (big_int params.min_token_out) (amount_refused syntax_error)) _ r2 in
    let same : intent ≡ intent_of params token amount least = cc in
    rw same (
      or_fail_passed (resolve_token_address catalog params.chain_id params.symbol)
          (unknown_token_symbol params.symbol) token resolved,
      refl,
      refl,
      refl,
      refl,
      refl,
    )
