-- ===== src/Orders/Adjust/Own.antt =====
-- What must hold before `submitAdjustIntent` sends a transaction.
use protocol_monorepo.Common.{
  ℕ, List, Option, none, some, or_fail, subst, ◌≤◌, ◌≡◌, refl, ◌⊎◌, inl, inr, true, Result, ok, err,
  >>=-Yields, Yields, not, fail_if,
}
use protocol_monorepo.Common.Int.{ℤ}
use protocol_monorepo.Common.Decimal.{big_int}
use protocol_monorepo.Tokens.Amount.{AmountError, invalid_amount, syntax_error, parse_human_amount}
use protocol_monorepo.Strategy.Decision.{ExitRuleInput}
use protocol_monorepo.Strategy.ExitRules.{map_exit_rules}
use protocol_monorepo.Common.Text.{Text}
use protocol_monorepo.Trading.Risk.{agent_status_active}
use protocol_monorepo.Orders.Errors.{OrderFailure, big_nat, or_not_found, map_submit_error}
use protocol_monorepo.Orders.Chain.{
  Chain, TradingConfig, AgentRecord, PositionOnChain, AddToPositionIntent, ReducePositionIntent,
  UpdateExitLadderIntent, get_agent,
}
use protocol_monorepo.Orders.Checks.{
  bad_request, or_amount_error, typed_domain, verify_signature, position_status_open,
  require_executor_key, require_own_open, validate_nonce_deadline,
}
use protocol_monorepo.Orders.Checks.Passed.{
  require_eq, require_true, validate_nonce_deadline_passed, require_own_open_passed,
}
use protocol_monorepo.Common.Decimal.Print.{to_string}
use protocol_monorepo.Orders.Submit.{require_active}
use protocol_monorepo.Orders.Adjust.{
  Adjustment, add, reduce, update_ladder, add_intent, reduce_intent, update_intent, AdjustRequest,
  AdjustTarget, AdjustIntent, SubmitAdjustIntentResponse, adjust_target, adjust_intent,
  adjust_message, signed_adjustment, send_adjustment, adjusted_response, send_signed,
  invalid_signature, adjust_found, submit_adjust_intent,
}

module _ {W : Type 0} (chain : Chain W) (config : TradingConfig) (w : W) where
  -- A target that the chain's state and the request allow.
  pub record IsOwnTarget (agent_id_str : Text) (body : AdjustRequest) (t : AdjustTarget)
      : Type 0 where
    pub own_id : big_nat agent_id_str ≡ ok t.agent_id
    pub asked_id : big_nat body.position_id ≡ ok t.position_id
    pub agent : AgentRecord
    pub found : get_agent chain w t.agent_id ≡ ok agent
    pub active : agent.status ≡ agent_status_active
    pub position : PositionOnChain
    pub on_chain : chain.get_position w t.position_id ≡ ok position
    pub own_position : position.agent_id ≡ t.agent_id
    pub is_open : position.status ≡ position_status_open
    pub next_nonce : chain.nonces w t.agent_id ≡ ok t.nonce
    pub alive : chain.now w ≤ t.deadline
    pub asked_nonce : big_nat body.nonce ≡ ok t.nonce
    pub asked_deadline : big_nat body.deadline ≡ ok t.deadline
    pub own_signer : chain.signer_of w t.agent_id ≡ ok t.signer
    pub own_domain : chain.eip712_domain w ≡ ok t.domain

  -- What a request adds to a position, with the amount in atomic units.
  pub record IsAdditionOf (t : AdjustTarget) (usdc_amount min_token_out : Text)
      (max_slippage_bps : ℕ) (intent : AddToPositionIntent) : Type 0 where
    pub own_agent : intent.agent_id ≡ t.agent_id
    pub own_position : intent.position_id ≡ t.position_id
    pub own_amount : parse_human_amount usdc_amount config.usdc_decimals ≡ ok intent.usdc_amount
    pub own_least : big_int min_token_out ≡ some intent.min_token_out
    pub own_slippage : intent.max_slippage_bps ≡ max_slippage_bps
    pub own_deadline : intent.deadline ≡ t.deadline
    pub own_nonce : intent.nonce ≡ t.nonce

  pub record IsReductionOf (t : AdjustTarget) (exit_bps : ℕ) (intent : ReducePositionIntent)
      : Type 0 where
    pub own_agent : intent.agent_id ≡ t.agent_id
    pub own_position : intent.position_id ≡ t.position_id
    pub own_share : intent.exit_bps ≡ exit_bps
    pub own_deadline : intent.deadline ≡ t.deadline
    pub own_nonce : intent.nonce ≡ t.nonce

  pub record IsLadderOf (t : AdjustTarget) (exits : List ExitRuleInput)
      (intent : UpdateExitLadderIntent) : Type 0 where
    pub own_agent : intent.agent_id ≡ t.agent_id
    pub own_position : intent.position_id ≡ t.position_id
    pub own_exits : intent.exits ≡ map_exit_rules exits
    pub own_deadline : intent.deadline ≡ t.deadline
    pub own_nonce : intent.nonce ≡ t.nonce

  -- An intent of the target's agent and position, of the kind and with the values of the request.
  abbrev pub IsIntentOf : AdjustTarget → Adjustment → AdjustIntent → Type 0
  IsIntentOf t (add usdc_amount min_token_out max_slippage_bps) (add_intent intent) =
      IsAdditionOf t usdc_amount min_token_out max_slippage_bps intent
  IsIntentOf t (reduce exit_bps) (reduce_intent intent) = IsReductionOf t exit_bps intent
  IsIntentOf t (update_ladder exits) (update_intent intent) = IsLadderOf t exits intent
  IsIntentOf t _ _ = ⊥

  or_amount_passed :
      {A : Type 0} (r : Result AmountError A) (a : A) → or_amount_error r ≡ ok a → r ≡ ok a
  or_amount_passed (ok b) a h = cc
  or_amount_passed (err invalid_amount) a h = cc
  or_amount_passed (err syntax_error) a h = cc

  or_syntax_passed : (o : Option ℤ) (n : ℤ) → or_fail o syntax_error ≡ ok n → o ≡ some n
  or_syntax_passed none n h = cc
  or_syntax_passed (some m) n h = cc

  adjust_intent-IsIntentOf :
      (t : AdjustTarget) (adjustment : Adjustment)
      → Yields (IsIntentOf t adjustment) (adjust_intent chain config t adjustment)
  unfolding adjust_intent
  adjust_intent-IsIntentOf t (add usdc_amount min_token_out max_slippage_bps) =
      let asked = add usdc_amount min_token_out max_slippage_bps in
      >>=-Yields (IsIntentOf t asked)
        (or_amount_error (parse_human_amount usdc_amount config.usdc_decimals)) _
        λ amount parsed.
          >>=-Yields (IsIntentOf t asked)
            (or_amount_error (or_fail (big_int min_token_out) syntax_error)) _
            λ least read. record {
              own_agent = refl;
              own_position = refl;
              own_amount = or_amount_passed _ amount parsed;
              own_least = or_syntax_passed _ least (or_amount_passed _ least read);
              own_slippage = refl;
              own_deadline = refl;
              own_nonce = refl;
            }
  adjust_intent-IsIntentOf t (reduce exit_bps) = record {
    own_agent = refl;
    own_position = refl;
    own_share = refl;
    own_deadline = refl;
    own_nonce = refl;
  }
  adjust_intent-IsIntentOf t (update_ladder exits) = record {
    own_agent = refl;
    own_position = refl;
    own_exits = refl;
    own_deadline = refl;
    own_nonce = refl;
  }

  -- The intent is the target's and the request's, and the signer signed it in the router's domain.
  abbrev pub IsSignedFor : AdjustTarget → Adjustment → Text → AdjustIntent → Type 0
  IsSignedFor t adjustment signature intent =
      IsIntentOf t adjustment intent
      × (chain.verify_typed_data t.signer (typed_domain chain config t.domain)
            (adjust_message chain config intent) signature
          ≡ ok true)

  module _ (agent_id_str : Text) (body : AdjustRequest) where
    adjust_target-IsOwnTarget :
        Yields (IsOwnTarget agent_id_str body) (adjust_target chain config w agent_id_str body)
    unfolding adjust_target
    adjust_target-IsOwnTarget = >>=-Yields _ (require_executor_key chain config) _ λ _ _.
        >>=-Yields _ (big_nat agent_id_str) _ λ agent_id own_id.
          >>=-Yields _ (big_nat body.position_id) _ λ position_id asked_id.
            >>=-Yields _ (or_not_found (get_agent chain w agent_id)) _ λ _ _.
              >>=-Yields _ (get_agent chain w agent_id) _ λ agent found.
                >>=-Yields _ (require_active agent agent_id_str) _ λ _ active.
                  >>=-Yields _ (chain.get_position w position_id) _ λ position on_chain.
                    >>=-Yields _ (require_own_open position agent_id agent_id_str body.position_id)
                      _
                      λ _ own. >>=-Yields _ (big_nat body.deadline) _ λ deadline asked_deadline.
                        >>=-Yields _ (big_nat body.nonce) _ λ nonce asked_nonce.
                          >>=-Yields _
                            (validate_nonce_deadline chain w agent_id nonce deadline
                              (to_string nonce))
                            _
                            λ _ timely.
                              >>=-Yields _ (chain.signer_of w agent_id) _ λ signer own_signer.
                                >>=-Yields _ (chain.eip712_domain w) _ λ domain own_domain.
                                  let (alive, next_nonce) =
                                    validate_nonce_deadline_passed chain w agent_id nonce deadline
                                      (to_string nonce) timely in
                                  let (own_position, is_open) =
                                    require_own_open_passed position agent_id agent_id_str
                                      body.position_id own in
                                  record {
                                    own_id = own_id;
                                    asked_id = asked_id;
                                    agent = agent;
                                    found = found;
                                    active = require_eq agent.status agent_status_active _ active;
                                    position = position;
                                    on_chain = on_chain;
                                    own_position = own_position;
                                    is_open = is_open;
                                    next_nonce = next_nonce;
                                    alive = alive;
                                    asked_nonce = asked_nonce;
                                    asked_deadline = asked_deadline;
                                    own_signer = own_signer;
                                    own_domain = own_domain;
                                  }

    signed_adjustment-IsSignedFor :
        (t : AdjustTarget) (adjustment : Adjustment) (signature : Text)
        → Yields
            (IsSignedFor t adjustment signature)
            (signed_adjustment chain config t adjustment signature)
    unfolding signed_adjustment verify_signature
    signed_adjustment-IsSignedFor t adjustment signature =
        >>=-Yields _ (adjust_intent chain config t adjustment) _ λ intent built.
          let message = adjust_message chain config intent in
          >>=-Yields _ (verify_signature chain config t.domain t.signer message signature) _
            λ valid e.
              >>=-Yields (IsSignedFor t adjustment signature)
                (fail_if (not valid) (bad_request (invalid_signature intent))) (λ _. ok intent)
                λ _ h. (
                  subst (Yields (IsIntentOf t adjustment)) built
                      (adjust_intent-IsIntentOf t adjustment),
                  rw (e, require_true valid _ h) refl,
                )

    -- The outcomes: a throw that leaves the chain as it was, or the transaction of a signed intent.
    abbrev pub Guarded : W × Result OrderFailure SubmitAdjustIntentResponse → Type 0
    Guarded outcome =
        ((e : OrderFailure) × (outcome ≡ (w, err e)))
        ⊎ ((t : AdjustTarget) × (intent : AdjustIntent) × IsOwnTarget agent_id_str body t
            × IsSignedFor t body.adjustment body.signature intent
            × (outcome
                ≡ adjusted_response chain config agent_id_str body.position_id
                    (send_adjustment chain config intent body.signature w)))

    send_signed-Guarded :
        (t : AdjustTarget) (r : Result OrderFailure AdjustIntent)
        → IsOwnTarget agent_id_str body t
        → Yields (IsSignedFor t body.adjustment body.signature) r
        → Guarded (send_signed chain config agent_id_str body w r)
    send_signed-Guarded t (err e) own h = inl (map_submit_error e, refl)
    send_signed-Guarded t (ok intent) own h = inr (t, intent, own, h, refl)

    adjust_found-Guarded :
        (r : Result OrderFailure AdjustTarget)
        → Yields (IsOwnTarget agent_id_str body) r
        → Guarded (adjust_found chain config agent_id_str body w r)
    adjust_found-Guarded (err e) h = inl (e, refl)
    adjust_found-Guarded (ok t) h =
        send_signed-Guarded t (signed_adjustment chain config t body.adjustment body.signature) h
          (signed_adjustment-IsSignedFor t body.adjustment body.signature)

    -- Either `submitAdjustIntent` throws and leaves the chain as it was, or what it does is the
    -- router's addToPosition, reducePosition or updateExitLadder, with its errors mapped, for an
    -- intent of this kind: the agent exists and is Active, the position is the agent's and open, the
    -- nonce is the request's and the next one on chain, the deadline is the request's and has not
    -- passed, the amount in atomic units with its least return and slippage, the share or the exits
    -- are those of the request, and the signature is verified to be the agent's signer's over this very intent
    -- in the router's domain.
    pub submit_adjust_intent-Guarded :
        Guarded (submit_adjust_intent chain config agent_id_str body w)
    unfolding submit_adjust_intent
    submit_adjust_intent-Guarded =
        adjust_found-Guarded (adjust_target chain config w agent_id_str body)
          adjust_target-IsOwnTarget
