-- ===== src/Orders/Execute/Ready.antt =====
-- The service's checks on a request that a ready agent's executor has signed.
use protocol_monorepo.Common.{
  ℕ, ◌+◌, ◌≡◌, refl, false, sym, ap, ◌∙◌, true, not, some, is_some, List, Result, ok, >>=-eq-ok,
  >>=-ok, subst, arith, ◌==◌, or_fail, ◌++◌, ltb,
}
use protocol_monorepo.Common.Text.{Text, codes}
use protocol_monorepo.Common.Decimal.Print.{to_string, big_int-to_string}
use protocol_monorepo.Tokens.Catalog.{TokenCatalog}
use protocol_monorepo.Trading.Risk.{agent_status_active}
use protocol_monorepo.Strategy.Decision.{ExitRuleInput}
use protocol_monorepo.Strategy.ExitRules.{
  OnChainPositionIntent, build_on_chain_intent, resolve_token_address,
}
use protocol_monorepo.Orders.Errors.{OrderFailure, big_nat, or_not_found}
use protocol_monorepo.Orders.Chain.{
  Chain, TradingConfig, AgentRecord, Eip712Domain, TypedDomain, TypedMessage, get_agent,
}
use protocol_monorepo.Orders.Checks.{
  typed_domain, open_typed_message, or_invalid_intent, assert_token_allowed,
  validate_nonce_deadline, bad_request, require_executor_key, verify_signature,
}
use protocol_monorepo.Orders.Submit.{
  OpenPositionRequest, open_params, checked_intent, require_active, require_open_signature,
}
use protocol_monorepo.Orders.Quotes.{TradeIntentQuote, asked_symbol, quoted_token}
use protocol_monorepo.Orders.Execute.Quoted.{IsQuoted}
use protocol_monorepo.Orders.Execute.{Signer, OpenAction, open_request, trade_deadline}

pub big_nat-to_string : (n : ℕ) → big_nat (to_string n) ≡ ok n
unfolding big_nat
big_nat-to_string n = rw (big_int-to_string n) refl

pub deadline_text :
    {W : Type 0} (chain : Chain W) (w : W)
    → big_nat (trade_deadline chain w) ≡ ok (chain.now w + 3600)
unfolding trade_deadline
deadline_text chain w = big_nat-to_string (chain.now w + 3600)

in_time : (now : ℕ) → ltb (now + 3600) now ≡ false
in_time now = ground arith

same_number : (n : ℕ) → not (n == n) ≡ false
same_number n = ground arith

module _ {W : Type 0} (chain : Chain W) (config : TradingConfig) (catalog : TokenCatalog) (w : W)
    (sign : Signer) (address : Text) where
  -- The agent is ready to trade, and the key is its signer's.
  pub record IsReady (agent_id : ℕ) (agent : AgentRecord) : Type 0 where
    pub key : is_some config.executor_private_key ≡ true
    pub active : agent.status ≡ agent_status_active
    pub own_vault : chain.vault_of w agent_id ≡ ok agent.vault
    pub own_signer : chain.signer_of w agent_id ≡ ok address
    pub scheme :
        (d : TypedDomain) (m : TypedMessage)
        → chain.verify_typed_data address d m (sign d m) ≡ ok true

  timely :
      (agent_id nonce : ℕ) (nonce_text : Text)
      → chain.nonces w agent_id ≡ ok nonce
      → validate_nonce_deadline chain w agent_id nonce (chain.now w + 3600) nonce_text ≡ ok tt
  unfolding validate_nonce_deadline
  timely agent_id nonce nonce_text e = rw (in_time (chain.now w), e, same_number nonce) refl

  signature_accepted :
      (agent_id : ℕ) (agent : AgentRecord) (domain : Eip712Domain) (intent : OnChainPositionIntent)
      → IsReady agent_id agent
      → chain.eip712_domain w ≡ ok domain
      → require_open_signature chain config w agent_id intent
          (sign (typed_domain chain config domain) (open_typed_message chain intent))
        ≡ ok tt
  unfolding verify_signature
  signature_accepted agent_id agent domain intent ready e =
      rw
        (
          ready.own_signer,
          e,
          ready.scheme (typed_domain chain config domain) (open_typed_message chain intent),
        )
        refl

  module _ (agent_id_str : Text) (action : OpenAction) (quote : TradeIntentQuote)
      (q : IsQuoted chain config catalog w agent_id_str action.symbol quote)
      (ready : IsReady q.agent_id q.agent)
      (asked : asked_symbol (some action.symbol) ≡ some action.symbol) (exits : List ExitRuleInput)
      (intent : OnChainPositionIntent) where
    abbrev request : OpenPositionRequest
    request =
        open_request action exits (trade_deadline chain w) quote.nonce
          (sign quote.eip712 (open_typed_message chain intent))

    abbrev resolved_token : Result OrderFailure Text
    resolved_token =
        or_fail (resolve_token_address catalog config.chain_id action.symbol)
          (bad_request (codes "Unknown token symbol: " ++ codes action.symbol))

    -- The service's checks, one after the other.
    checks_accepted :
        (token : Text)
        → resolved_token ≡ ok token
        → assert_token_allowed chain w q.agent.vault token ≡ ok tt
        → or_invalid_intent (
            build_on_chain_intent catalog (
              open_params chain config q.agent_id q.agent.vault
                (chain.now w + 3600)
                q.nonce
                request))
          ≡ ok intent
        → checked_intent chain config catalog w agent_id_str request ≡ ok intent
    unfolding checked_intent
    checks_accepted token resolved permitted built =
        >>=-ok (require_executor_key chain config) _ tt (rw ready.key refl) (
          >>=-ok (big_nat agent_id_str) _ q.agent_id q.own_id (
            >>=-ok (or_not_found (get_agent chain w q.agent_id)) _ q.agent (rw q.found refl) (
              >>=-ok (require_active q.agent agent_id_str) _ tt (rw ready.active refl) (
                >>=-ok (chain.vault_of w q.agent_id) _ q.agent.vault ready.own_vault (
                  >>=-ok resolved_token _ token resolved (
                    >>=-ok (assert_token_allowed chain w q.agent.vault token) _ tt permitted (
                      >>=-ok (big_nat (trade_deadline chain w)) _ (chain.now w + 3600)
                        (deadline_text chain w)
                        (>>=-ok (big_nat quote.nonce) _ q.nonce
                          (ap big_nat q.quoted_nonce ∙ big_nat-to_string q.nonce)
                          (>>=-ok
                            (validate_nonce_deadline chain w q.agent_id q.nonce (chain.now w + 3600)
                              quote.nonce)
                            _ tt (timely q.agent_id q.nonce quote.nonce q.next_nonce)
                            (>>=-ok
                              (or_invalid_intent (
                                build_on_chain_intent catalog (
                                  open_params chain config q.agent_id q.agent.vault
                                    (chain.now w + 3600) q.nonce request)))
                              _ intent built
                              (>>=-ok
                                (require_open_signature chain config w q.agent_id intent
                                  request.signature)
                                _ tt signed refl)))))))))))
      where
        signed : require_open_signature chain config w q.agent_id intent request.signature ≡ ok tt
        signed =
            subst
              (λ d.
                require_open_signature chain config w q.agent_id intent
                  (sign d (open_typed_message chain intent))
                ≡ ok tt)
              (sym q.quoted_domain)
              (signature_accepted q.agent_id q.agent q.domain intent ready q.own_domain)

    pub quoted_accepted :
        or_invalid_intent (
            build_on_chain_intent catalog (
              open_params chain config q.agent_id q.agent.vault
                (chain.now w + 3600)
                q.nonce
                request))
          ≡ ok intent
        → checked_intent chain config catalog w agent_id_str request ≡ ok intent
    quoted_accepted built =
        let allowed : quoted_token chain config catalog w q.agent.vault (some action.symbol)
            ≡ ok q.token =
          subst (λ o. quoted_token chain config catalog w q.agent.vault o ≡ ok q.token) asked
            q.allowed in
        let (token, resolved, rest) = >>=-eq-ok resolved_token _ allowed in
        let (_, permitted, _) =
          >>=-eq-ok (assert_token_allowed chain w q.agent.vault token) _ rest in
        checks_accepted token resolved permitted built
