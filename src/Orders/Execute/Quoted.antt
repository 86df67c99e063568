-- ===== src/Orders/Execute/Quoted.antt =====
-- What the executor has read, computed and signed before it submits a request.
use protocol_monorepo.Common.{
  ℕ, ◌≡◌, refl, String, Option, some, List, [], ok, get_or_else, Yields, >>=-Yields, subst,
}
use protocol_monorepo.Common.Text.{Text}
use protocol_monorepo.Common.Decimal.Print.{to_string}
use protocol_monorepo.Tokens.Catalog.{TokenCatalog}
use protocol_monorepo.Strategy.Decision.{ExitRuleInput}
use protocol_monorepo.Strategy.ExitRules.{
  OnChainPositionIntent, build_on_chain_intent, default_exit_ladder,
}
use protocol_monorepo.Orders.Errors.{big_nat}
use protocol_monorepo.Orders.Chain.{Chain, TradingConfig, AgentRecord, Eip712Domain, get_agent}
use protocol_monorepo.Orders.Checks.{
  typed_domain, open_typed_message, get_exit_bounds, get_account_risk_bounds,
}
use protocol_monorepo.Orders.Submit.{OpenPositionRequest, open_params}
use protocol_monorepo.Orders.Quotes.{TradeIntentQuote, asked_symbol, quoted_token, get_quote}
use protocol_monorepo.Orders.Execute.{
  Signer, OpenAction, open_request, exits_or_default, or_intent_error, trade_deadline, signed_open,
}

module _ {W : Type 0} (chain : Chain W) (config : TradingConfig) (catalog : TokenCatalog) (w : W)
    (agent_id_str : Text) where
  -- What a quote for a symbol has read.
  pub record IsQuoted (symbol : String) (quote : TradeIntentQuote) : Type 0 where
    pub agent_id : ℕ
    pub own_id : big_nat agent_id_str ≡ ok agent_id
    pub agent : AgentRecord
    pub found : get_agent chain w agent_id ≡ ok agent
    pub nonce : ℕ
    pub next_nonce : chain.nonces w agent_id ≡ ok nonce
    pub domain : Eip712Domain
    pub own_domain : chain.eip712_domain w ≡ ok domain
    pub token : Option Text
    pub allowed :
        quoted_token chain config catalog w agent.vault (asked_symbol (some symbol)) ≡ ok token
    pub own_vault : quote.vault ≡ agent.vault
    pub quoted_nonce : quote.nonce ≡ to_string nonce
    pub quoted_domain : quote.eip712 ≡ typed_domain chain config domain
    pub ladder : quote.default_exit ≡ default_exit_ladder

  get_quote-IsQuoted :
      (symbol : String)
      → Yields (IsQuoted symbol) (get_quote chain config catalog w agent_id_str (some symbol))
  unfolding get_quote
  get_quote-IsQuoted symbol = >>=-Yields _ (big_nat agent_id_str) _ λ agent_id own_id.
      >>=-Yields _ (get_agent chain w agent_id) _ λ agent found.
        >>=-Yields _ (chain.nonces w agent_id) _ λ nonce next_nonce.
          >>=-Yields _ (chain.eip712_domain w) _ λ domain own_domain.
            >>=-Yields _ (get_exit_bounds chain config w agent.vault agent.track) _ λ _ _.
              >>=-Yields _ (get_account_risk_bounds chain config w agent.vault agent.track) _ λ _ _.
                >>=-Yields _ (chain.daily_realized_pnl_usdc w agent_id _) _ λ _ _.
                  >>=-Yields _ (chain.get_allocation w agent_id) _ λ _ _.
                    >>=-Yields _
                      (quoted_token chain config catalog w agent.vault (asked_symbol (some symbol)))
                      _
                      λ token allowed. record {
                        agent_id = agent_id;
                        own_id = own_id;
                        agent = agent;
                        found = found;
                        nonce = nonce;
                        next_nonce = next_nonce;
                        domain = domain;
                        own_domain = own_domain;
                        token = token;
                        allowed = allowed;
                        own_vault = refl;
                        quoted_nonce = refl;
                        quoted_domain = refl;
                        ladder = refl;
                      }

  module _ (sign : Signer) (action : OpenAction) where
    -- The action's exits, or those of the quote.
    abbrev pub chosen_exits : TradeIntentQuote → List ExitRuleInput
    chosen_exits quote = get_or_else action.exits quote.default_exit

    -- What the executor has computed and signed.
    pub record IsPrepared (body : OpenPositionRequest) : Type 0 where
      pub quote : TradeIntentQuote
      pub quoted : IsQuoted action.symbol quote
      pub agent_id : ℕ
      pub own_id : big_nat agent_id_str ≡ ok agent_id
      pub deadline : ℕ
      pub late : big_nat (trade_deadline chain w) ≡ ok deadline
      pub nonce : ℕ
      pub next : big_nat quote.nonce ≡ ok nonce
      pub intent : OnChainPositionIntent
      pub built :
          or_intent_error (
            build_on_chain_intent catalog (
              open_params chain config agent_id quote.vault deadline nonce
                (open_request action (chosen_exits quote) (trade_deadline chain w) quote.nonce [])))
          ≡ ok intent
      pub same :
          body
          ≡ open_request action
              (exits_or_default (chosen_exits quote))
              (trade_deadline chain w)
              quote.nonce
              (sign quote.eip712 (open_typed_message chain intent))

    pub signed_open-IsPrepared :
        Yields IsPrepared (signed_open chain config catalog sign w agent_id_str action)
    unfolding signed_open
    signed_open-IsPrepared =
        >>=-Yields _ (get_quote chain config catalog w agent_id_str (some action.symbol)) _
          λ quote e. >>=-Yields _ (big_nat agent_id_str) _ λ agent_id own_id.
            >>=-Yields _ (big_nat (trade_deadline chain w)) _ λ deadline late.
              >>=-Yields _ (big_nat quote.nonce) _ λ nonce next.
                >>=-Yields _
                  (or_intent_error (
                    build_on_chain_intent catalog (
                      open_params chain config agent_id quote.vault deadline nonce (
                        open_request action (chosen_exits quote) (trade_deadline chain w)
                          quote.nonce []))))
                  _
                  λ intent built. record {
                    quote = quote;
                    quoted =
                        subst (Yields (IsQuoted action.symbol)) e
                          (get_quote-IsQuoted action.symbol);
                    agent_id = agent_id;
                    own_id = own_id;
                    deadline = deadline;
                    late = late;
                    nonce = nonce;
                    next = next;
                    intent = intent;
                    built = built;
                    same = refl;
                  }
