-- ===== src/Orders/Submit/Guards.antt =====
-- What must hold before `submitIntent` sends a transaction.
use protocol_monorepo.Common.{
  ℕ, ◌≤◌, ◌≡◌, refl, ◌⊎◌, inl, inr, true, Result, ok, err, >>=-Yields, Yields, >>=-eq-ok, subst,
  sym, or_fail, arith, ◌++◌,
}
use protocol_monorepo.Common.Text.{Text, codes}
use protocol_monorepo.Tokens.Catalog.{TokenCatalog}
use protocol_monorepo.Trading.Risk.{agent_status_active}
use protocol_monorepo.Strategy.ExitRules.{
  OnChainPositionIntent, build_on_chain_intent, map_exit_rules, resolve_token_address,
}
use protocol_monorepo.Orders.Errors.{OrderFailure, big_nat, or_not_found}
use protocol_monorepo.Orders.Chain.{Chain, TradingConfig, AgentRecord, Eip712Domain, get_agent}
use protocol_monorepo.Orders.Checks.{
  open_typed_message, typed_domain, verify_signature, bad_request, or_invalid_intent,
  assert_token_allowed, validate_nonce_deadline, require_executor_key,
}
use protocol_monorepo.Orders.Checks.Passed.{
  require_eq, require_true, or_not_found_passed, assert_token_allowed_passed,
  validate_nonce_deadline_passed, or_invalid_intent-IsBuilt,
}
use protocol_monorepo.Orders.Router.{open_position}
use protocol_monorepo.Orders.Submit.{
  OpenPositionRequest, require_active, open_params, require_open_signature, checked_intent,
  opened_response, submit_checked, submit_intent,
}

module _ {W : Type 0} (chain : Chain W) (config : TradingConfig) (w : W) where
  -- The signer's signature over the intent, in the router's domain.
  abbrev pub IsSigned : ℕ → OnChainPositionIntent → Text → Type 0
  IsSigned agent_id intent signature =
      (signer : Text) × (domain : Eip712Domain) × (chain.signer_of w agent_id ≡ ok signer)
      × (chain.eip712_domain w ≡ ok domain)
      × (chain.verify_typed_data signer (typed_domain chain config domain)
            (open_typed_message chain intent) signature
          ≡ ok true)

  -- An intent that the chain's state and the request allow.
  pub record IsAuthorized (agent_id_str : Text) (body : OpenPositionRequest)
      (intent : OnChainPositionIntent) : Type 0 where
    pub own_id : big_nat agent_id_str ≡ ok intent.agent_id
    pub agent : AgentRecord
    pub found : get_agent chain w intent.agent_id ≡ ok agent
    pub active : agent.status ≡ agent_status_active
    pub own_vault : chain.vault_of w intent.agent_id ≡ ok intent.vault
    pub allowed : chain.is_allowed_token w intent.vault intent.token ≡ ok true
    pub next_nonce : chain.nonces w intent.agent_id ≡ ok intent.nonce
    pub alive : chain.now w ≤ intent.deadline
    pub asked_exits : intent.exits ≡ map_exit_rules body.exits
    pub signed : IsSigned intent.agent_id intent body.signature

  require_open_signature_passed :
      (agent_id : ℕ) (intent : OnChainPositionIntent) (signature : Text)
      → require_open_signature chain config w agent_id intent signature ≡ ok tt
      → IsSigned agent_id intent signature
  unfolding verify_signature
  require_open_signature_passed agent_id intent signature h =
      let (signer, e1, h1) = >>=-eq-ok (chain.signer_of w agent_id) _ h in
      let (domain, e2, h2) = >>=-eq-ok (chain.eip712_domain w) _ h1 in
      let message = open_typed_message chain intent in
      let (valid, e3, h3) =
        >>=-eq-ok (verify_signature chain config domain signer message signature) _ h2 in
      (signer, domain, e1, e2, rw (e3, require_true valid _ h3) refl)

  module _ (catalog : TokenCatalog) (agent_id_str : Text) (body : OpenPositionRequest) where
    authorized :
        (agent_id : ℕ) (agent : AgentRecord) (vault token : Text) (deadline nonce : ℕ)
        (intent : OnChainPositionIntent)
        → big_nat agent_id_str ≡ ok agent_id
        → get_agent chain w agent_id ≡ ok agent
        → require_active agent agent_id_str ≡ ok tt
        → chain.vault_of w agent_id ≡ ok vault
        → or_fail
            (resolve_token_address catalog config.chain_id body.symbol)
            (bad_request (codes "Unknown token symbol: " ++ codes body.symbol))
          ≡ ok token
        → assert_token_allowed chain w vault token ≡ ok tt
        → validate_nonce_deadline chain w agent_id nonce deadline body.nonce ≡ ok tt
        → or_invalid_intent (
            build_on_chain_intent catalog
              (open_params chain config agent_id vault deadline nonce body))
          ≡ ok intent
        → require_open_signature chain config w agent_id intent body.signature ≡ ok tt
        → IsAuthorized agent_id_str body intent
    authorized agent_id agent vault token deadline nonce intent own_id found active own_vault
          resolved allowed timely built signed =
        let (from_catalog, e1, e2, e3, e4, e5) =
          or_invalid_intent-IsBuilt catalog
            (open_params chain config agent_id vault deadline nonce body) intent built in
        let (alive, next_nonce) =
          validate_nonce_deadline_passed chain w agent_id nonce deadline body.nonce timely in
        let same : token ≡ intent.token = ground (arith, from_catalog, resolved) in
        record {
          own_id = rw e1 own_id;
          agent = agent;
          found = rw e1 found;
          active = require_eq agent.status agent_status_active _ active;
          own_vault = rw (e1, e2) own_vault;
          allowed =
              subst (λ t. chain.is_allowed_token w intent.vault t ≡ ok true) same
                (rw e2 (assert_token_allowed_passed chain w vault token allowed));
          next_nonce = rw (e1, e3) next_nonce;
          alive = rw e4 alive;
          asked_exits = e5;
          signed =
              subst (λ i. IsSigned i intent body.signature) (sym e1)
                (require_open_signature_passed agent_id intent body.signature signed);
        }

    pub checked_intent-IsAuthorized :
        Yields
          (IsAuthorized agent_id_str body)
          (checked_intent chain config catalog w agent_id_str body)
    unfolding checked_intent
    checked_intent-IsAuthorized = >>=-Yields _ (require_executor_key chain config) _ λ _ _.
        >>=-Yields _ (big_nat agent_id_str) _ λ agent_id own_id.
          >>=-Yields _ (or_not_found (get_agent chain w agent_id)) _ λ agent found.
            >>=-Yields _ (require_active agent agent_id_str) _ λ _ active.
              >>=-Yields _ (chain.vault_of w agent_id) _ λ vault own_vault.
                >>=-Yields _
                  (or_fail (resolve_token_address catalog config.chain_id body.symbol)
                    (bad_request (codes "Unknown token symbol: " ++ codes body.symbol)))
                  _
                  λ token resolved.
                    >>=-Yields _ (assert_token_allowed chain w vault token) _ λ _ allowed.
                      >>=-Yields _ (big_nat body.deadline) _ λ deadline _.
                        >>=-Yields _ (big_nat body.nonce) _ λ nonce _.
                          >>=-Yields _
                            (validate_nonce_deadline chain w agent_id nonce deadline body.nonce) _
                            λ _ timely.
                              >>=-Yields _
                                (or_invalid_intent (
                                  build_on_chain_intent catalog
                                    (open_params chain config agent_id vault deadline nonce body)))
                                _
                                λ intent built.
                                  >>=-Yields _
                                    (require_open_signature chain config w agent_id intent
                                      body.signature)
                                    _
                                    λ _ signed.
                                      authorized agent_id agent vault token deadline nonce intent
                                        own_id
                                        (or_not_found_passed (get_agent chain w agent_id) agent
                                          found)
                                        active own_vault resolved allowed timely built signed

    submit_checked-guarded :
        (r : Result OrderFailure OnChainPositionIntent)
        → Yields (IsAuthorized agent_id_str body) r
        → ((e : OrderFailure) × (submit_checked chain config w agent_id_str body.signature r
              ≡ (w, err e)))
          ⊎ ((intent : OnChainPositionIntent) × IsAuthorized agent_id_str body intent
              × (submit_checked chain config w agent_id_str body.signature r
                  ≡ opened_response chain config agent_id_str
                      (open_position chain config intent body.signature w)))
    submit_checked-guarded (err e) h = inl (e, refl)
    submit_checked-guarded (ok intent) h = inr (intent, h, refl)

    -- Either `submitIntent` throws and leaves the chain as it was, or what it does is the router's
    -- openPosition, with its errors mapped, for an intent of this kind: the agent exists and is
    -- Active, the vault is the agent's and allows the token, the nonce is the next one on chain, the
    -- deadline has not passed, the exits are those of the request, and the signature is verified to
    -- be the agent's signer's over this very intent in the router's domain.
    pub submit_intent-guarded :
        ((e : OrderFailure) × (submit_intent chain config catalog agent_id_str body w ≡ (w, err e)))
        ⊎ ((intent : OnChainPositionIntent) × IsAuthorized agent_id_str body intent
            × (submit_intent chain config catalog agent_id_str body w
                ≡ opened_response chain config agent_id_str
                    (open_position chain config intent body.signature w)))
    unfolding submit_intent
    submit_intent-guarded =
        submit_checked-guarded (checked_intent chain config catalog w agent_id_str body)
          checked_intent-IsAuthorized
