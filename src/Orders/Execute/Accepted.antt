-- ===== src/Orders/Execute/Accepted.antt =====
-- What the executor signs is what the service verifies.
use protocol_monorepo.Common.{
  ℕ, ◌+◌, ◌≡◌, ◌≢◌, refl, sym, ap, ◌∙◌, Option, none, some, List, [], ◌∷◌, Result, ok, err,
  get_or_else, Yields, subst,
}
use protocol_monorepo.Common.Text.{Text}
use protocol_monorepo.Tokens.Catalog.{TokenCatalog}
use protocol_monorepo.Strategy.Decision.{ExitRuleInput}
use protocol_monorepo.Strategy.ExitRules.{
  IntentError, OnChainPositionIntent, build_on_chain_intent, default_exit_ladder,
}
use protocol_monorepo.Orders.Errors.{OrderFailure, big_nat}
use protocol_monorepo.Orders.Chain.{Chain, TradingConfig, AgentRecord, get_agent}
use protocol_monorepo.Orders.Checks.{open_typed_message, or_invalid_intent}
use protocol_monorepo.Orders.Router.{open_position}
use protocol_monorepo.Orders.Submit.{
  OpenPositionRequest, open_params, checked_intent, opened_response, submit_intent,
}
use protocol_monorepo.Orders.Submit.Guards.{IsAuthorized, checked_intent-IsAuthorized}
use protocol_monorepo.Orders.Quotes.{asked_symbol}
use protocol_monorepo.Orders.Execute.Quoted.{IsPrepared, chosen_exits, signed_open-IsPrepared}
use protocol_monorepo.Orders.Execute.Ready.{
  IsReady, big_nat-to_string, deadline_text, quoted_accepted,
}
use protocol_monorepo.Orders.Execute.{
  Signer, OpenAction, open_request, exits_or_default, or_intent_error, trade_deadline, signed_open,
  execute_open, executed_trade,
}

chosen_lem :
    (exits : Option (List ExitRuleInput))
    → exits ≢ some []
    → exits_or_default (get_or_else exits default_exit_ladder)
      ≡ get_or_else exits default_exit_ladder
chosen_lem none h = refl
chosen_lem (some []) h = absurd (h refl)
chosen_lem (some (rule ∷ rules)) h = refl

chosen_quoted :
    (quoted : List ExitRuleInput) (exits : Option (List ExitRuleInput))
    → quoted ≡ default_exit_ladder
    → exits ≢ some []
    → exits_or_default (get_or_else exits quoted) ≡ get_or_else exits quoted
chosen_quoted quoted exits e h =
    subst (λ l. exits_or_default (get_or_else exits l) ≡ get_or_else exits l) (sym e)
      (chosen_lem exits h)

ok_unique : {A : Type 0} {r : Result OrderFailure A} {a b : A} → r ≡ ok a → r ≡ ok b → a ≡ b
ok_unique h k = cc

or_invalid_of :
    (r : Result IntentError OnChainPositionIntent) (intent : OnChainPositionIntent)
    → or_intent_error r ≡ ok intent
    → or_invalid_intent r ≡ ok intent
or_invalid_of (ok a) intent h = h
or_invalid_of (err e) intent h = cc

module _ {W : Type 0} (chain : Chain W) (config : TradingConfig) (catalog : TokenCatalog) (w : W)
    (sign : Signer) (address : Text) where
  moved-IsReady :
      (i j : ℕ) (a b : AgentRecord)
      → i ≡ j
      → a ≡ b
      → IsReady chain config catalog w sign address i a
      → IsReady chain config catalog w sign address j b
  moved-IsReady i j a b e1 e2 ready =
      subst (λ k. IsReady chain config catalog w sign address k b) e1
        (subst (IsReady chain config catalog w sign address i) e2 ready)

  moved_build :
      {i j d e m n : ℕ} {u v : Text} (body : OpenPositionRequest) (intent : OnChainPositionIntent)
      → i ≡ j
      → u ≡ v
      → d ≡ e
      → m ≡ n
      → or_intent_error (build_on_chain_intent catalog (open_params chain config i u d m body))
        ≡ ok intent
      → or_intent_error (build_on_chain_intent catalog (open_params chain config j v e n body))
        ≡ ok intent
  moved_build body intent e1 e2 e3 e4 h = rw (sym e1, sym e2, sym e3, sym e4) h

  module _ (agent_id_str : Text) (action : OpenAction) (agent_id : ℕ) (agent : AgentRecord)
      (own_id : big_nat agent_id_str ≡ ok agent_id) (found : get_agent chain w agent_id ≡ ok agent)
      (ready : IsReady chain config catalog w sign address agent_id agent)
      (asked : asked_symbol (some action.symbol) ≡ some action.symbol)
      (ladder : action.exits ≢ some []) (body : OpenPositionRequest) where
    prepared_accepted :
        (p : IsPrepared chain config catalog w agent_id_str sign action body)
        → checked_intent chain config catalog w agent_id_str body ≡ ok p.intent
    prepared_accepted p =
        subst (λ b. checked_intent chain config catalog w agent_id_str b ≡ ok p.intent) (sym same)
          (quoted_accepted chain config catalog w sign address agent_id_str action p.quote p.quoted
            quoted_ready asked exits p.intent built)
      where
        exits : List ExitRuleInput
        exits = chosen_exits chain config catalog w agent_id_str sign action p.quote

        quoted_ready : IsReady chain config catalog w sign address p.quoted.agent_id p.quoted.agent
        quoted_ready =
            let e : agent_id ≡ p.quoted.agent_id = ok_unique own_id p.quoted.own_id in
            moved-IsReady agent_id p.quoted.agent_id agent p.quoted.agent e
              (ok_unique (subst (λ i. get_agent chain w i ≡ ok agent) e found) p.quoted.found) ready

        same :
            body
            ≡ open_request action exits
                (trade_deadline chain w)
                p.quote.nonce
                (sign p.quote.eip712 (open_typed_message chain p.intent))
        same =
            subst
              (λ l.
                body
                ≡ open_request action l (trade_deadline chain w) p.quote.nonce
                    (sign p.quote.eip712 (open_typed_message chain p.intent)))
              (chosen_quoted p.quote.default_exit action.exits p.quoted.ladder ladder) p.same

        built :
            or_invalid_intent (
              build_on_chain_intent catalog (
                open_params chain config p.quoted.agent_id p.quoted.agent.vault
                  (chain.now w + 3600)
                  p.quoted.nonce
                  (open_request action exits (trade_deadline chain w) p.quote.nonce [])))
            ≡ ok p.intent
        built = or_invalid_of _ p.intent (
            moved_build (open_request action exits (trade_deadline chain w) p.quote.nonce [])
              p.intent (ok_unique p.own_id p.quoted.own_id) p.quoted.own_vault
              (ok_unique p.late (deadline_text chain w))
              (ok_unique p.next
                (ap big_nat p.quoted.quoted_nonce ∙ big_nat-to_string p.quoted.nonce))
              p.built)

    -- What the executor's open action does when the client's part succeeds: the quote could be read
    -- and the intent built and signed. If the executor's key is configured, the agent is Active, the
    -- registry's vault and signer of the agent are its record's vault and the key's address, the
    -- signature scheme accepts the key's signatures, the symbol is not empty and the action's exits
    -- are not an empty list, then the service takes the request: the intent is authorized and the
    -- outcome is that of the router's openPosition for it.
    pub execute_open-IsAuthorized :
        signed_open chain config catalog sign w agent_id_str action ≡ ok body
        → (intent : OnChainPositionIntent) × IsAuthorized chain config w agent_id_str body intent
          × (execute_open chain config catalog sign agent_id_str action w
              ≡ executed_trade (
                  opened_response chain config agent_id_str
                    (open_position chain config intent body.signature w)))
    unfolding execute_open submit_intent
    execute_open-IsAuthorized prepared =
        let p =
          subst (Yields (IsPrepared chain config catalog w agent_id_str sign action)) prepared
            (signed_open-IsPrepared chain config catalog w agent_id_str sign action) in
        let checked = prepared_accepted p in
        (
          p.intent,
          subst (Yields (IsAuthorized chain config w agent_id_str body)) checked
              (checked_intent-IsAuthorized chain config w catalog agent_id_str body),
          rw (prepared, checked) refl,
        )
