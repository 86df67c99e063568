-- ===== src/Strategy/Guardrails/Permitted.antt =====
-- What an action needs to pass api/src/lib/strategy/guardrails.ts, said without the code.
use protocol_monorepo.Common.{
  ℕ, String, Bool, true, false, not, ◌&&◌, List, [], ◌∷◌, any, str_eq, ◌≡◌, ◌↔◌, ◌⊎◌, refl, Option,
  none, some, Result, ok, err, ◌>>◌, fail_if, All, Option-cases, inl, inr, Member, eq_iff, arith,
  Result-cases,
}
use protocol_monorepo.Common.Int.{ℤ, pos, ◌≤ℤ◌, ◌<ℤ◌}
use protocol_monorepo.Common.Text.{Text}
use protocol_monorepo.Common.Decimal.{big_int}
use protocol_monorepo.Strategy.Decision.{
  TriggerType, stop_loss, take_profit, ExitRuleInput, StrategyAction, open_position, close_position,
  add_to_position, reduce_position, StrategyDecision, is_open, AgentPosition, ExitBounds,
  StrategyContext,
}
use protocol_monorepo.Strategy.Guardrails.{
  Check, parse_usdc_amount, assert_amount_within_available, is_stop_loss, assert_exit_rule,
  assert_each, assert_exit_rules, assert_exits, has_status_open, assert_open_position,
  assert_action_kind, assert_action, assert_strategy_decision_guardrails,
}

abbrev pub AmountPermitted : Text → StrategyContext → Type 0
AmountPermitted usdc_amount context =
    (amount available : ℤ) × (parse_usdc_amount usdc_amount context.guardrails.usdc_decimals
      ≡ ok amount)
    × (big_int context.guardrails.available ≡ some available)
    × (pos 0 <ℤ amount)
    × (amount ≤ℤ available)

-- The range of a rule's trigger.
abbrev pub TriggerPermitted : ExitBounds → TriggerType → ℤ → Type 0
TriggerPermitted bounds stop_loss bps = (pos 0 <ℤ bps) × (bps ≤ℤ pos bounds.max_stop_loss_bps)
TriggerPermitted bounds take_profit bps =
    (pos 0 <ℤ bps)
    × (pos bounds.min_take_profit_bps ≤ℤ bps)
    × (bps ≤ℤ pos bounds.max_take_profit_bps)

-- Some rule has the type.
abbrev pub HasTrigger : TriggerType → List ExitRuleInput → Type 0
HasTrigger type [] = ⊥
HasTrigger type (rule ∷ rules) = (rule.trigger_type ≡ type) ⊎ HasTrigger type rules

abbrev pub ExitsPermitted : ExitBounds → Option (List ExitRuleInput) → Type 0
ExitsPermitted bounds none = Unit
ExitsPermitted bounds (some rules) =
    (bounds.require_stop_loss ≡ true → HasTrigger stop_loss rules)
    × (bounds.require_take_profit ≡ true → HasTrigger take_profit rules)
    × All (λ rule. TriggerPermitted bounds rule.trigger_type rule.trigger_bps) rules

-- Some open position has the id; no open position has the symbol.
abbrev pub HasOpen : String → List AgentPosition → Type 0
HasOpen id [] = ⊥
HasOpen id (p ∷ ps) = ((p.position_id ≡ id) × (p.status ≡ is_open)) ⊎ HasOpen id ps

abbrev pub NoneOpenIn : String → List AgentPosition → Type 0
NoneOpenIn symbol = All (λ p. p.status ≡ is_open → p.symbol ≡ symbol → ⊥)

abbrev pub NoBreach : StrategyContext → Type 0
NoBreach context =
    (context.guardrails.breaches.drawdown ≡ false)
    × (context.guardrails.breaches.daily_loss ≡ false)

abbrev pub ActionPermitted : StrategyContext → StrategyAction → Type 0
ActionPermitted context (open_position symbol amount _ _ exits) =
    NoBreach context
    × Member symbol context.guardrails.allowed_symbols
    × NoneOpenIn symbol context.positions
    × AmountPermitted amount context
    × ExitsPermitted context.guardrails.exit_bounds exits
ActionPermitted context (add_to_position id amount _ _) =
    NoBreach context × HasOpen id context.positions × AmountPermitted amount context
ActionPermitted context (reduce_position id _) = HasOpen id context.positions
ActionPermitted context (close_position id _) = HasOpen id context.positions

-- A check that passes, taken apart.
fail_if-ok : {E : Type 0} (b : Bool) (e : E) → (fail_if b e ≡ ok tt) ↔ (b ≡ false)
fail_if-ok true e = ground arith
fail_if-ok false e = ground arith

>>-ok : {E : Type 0} (m k : Result E (Unit {0})) → ((m >> k) ≡ ok tt) ↔ ((m ≡ ok tt) × (k ≡ ok tt))
>>-ok (ok tt) k = (λ h. (refl, h), λ h. h.1)
>>-ok (err e) k = (λ h. absurd (ground arith), λ h. absurd (ground arith))

amount_iff :
    (t : Text) (c : StrategyContext)
    → (assert_amount_within_available t c ≡ ok tt) ↔ AmountPermitted t c
unfolding assert_amount_within_available
amount_iff t c = elim (Result-cases (parse_usdc_amount t c.guardrails.usdc_decimals)) [
  | inr (e, he) ↦ ground (arith, he)
  | inl (a, ha) ↦ elim (Option-cases (big_int c.guardrails.available)) [
    | inl hn ↦ ground (arith, ha, hn)
    | inr (v, hv) ↦ (
      λ h. (a, v, ha, hv, ground (arith, ha, hv), ground (arith, ha, hv)),
      λ p. ground (arith, ha, hv),
    )
  ]
]

rule_iff :
    (bounds : ExitBounds) (rule : ExitRuleInput)
    → (assert_exit_rule bounds rule ≡ ok tt)
      ↔ TriggerPermitted bounds rule.trigger_type rule.trigger_bps
unfolding assert_exit_rule
rule_iff bounds rule = ground arith

HasOpen-iff :
    (id : String) (ps : List AgentPosition)
    → (any (λ p. str_eq p.position_id id && has_status_open p.status) ps ≡ true) ↔ HasOpen id ps
HasOpen-iff id [] = ground arith
HasOpen-iff id (p ∷ ps) = ground (arith, eq_iff p.position_id id, HasOpen-iff id ps)

Member-iff : (s : String) (ss : List String) → (any (λ k. str_eq k s) ss ≡ true) ↔ Member s ss
Member-iff s [] = ground arith
Member-iff s (k ∷ ss) = ground (arith, eq_iff k s, Member-iff s ss)

none_open_iff :
    (s : String) (ps : List AgentPosition)
    → (any (λ p. has_status_open p.status && str_eq p.symbol s) ps ≡ false) ↔ NoneOpenIn s ps
none_open_iff s [] = ground arith
none_open_iff s (p ∷ ps) = ground (arith, eq_iff p.symbol s, none_open_iff s ps)

has_stop_iff :
    (rules : List ExitRuleInput)
    → (any (λ r. is_stop_loss r.trigger_type) rules ≡ true) ↔ HasTrigger stop_loss rules
has_stop_iff [] = ground arith
has_stop_iff (r ∷ rs) = ground (arith, has_stop_iff rs)

has_take_iff :
    (rules : List ExitRuleInput)
    → (any (λ r. not (is_stop_loss r.trigger_type)) rules ≡ true) ↔ HasTrigger take_profit rules
has_take_iff [] = ground arith
has_take_iff (r ∷ rs) = ground (arith, has_take_iff rs)

each_iff :
    {A : Type 0} (check : A → Check) (P : A → Type 0)
    → ((x : A) → (check x ≡ ok tt) ↔ P x)
    → (xs : List A) → (assert_each check xs ≡ ok tt) ↔ All P xs
unfolding assert_each
each_iff check P h [] = ground arith
each_iff check P h (x ∷ xs) =
    ground (arith, h x, each_iff check P h xs, >>-ok (check x) (assert_each check xs))

exits_iff :
    (c : StrategyContext) (exits : Option (List ExitRuleInput))
    → (assert_exits exits c ≡ ok tt) ↔ ExitsPermitted c.guardrails.exit_bounds exits
unfolding assert_exit_rules
exits_iff c none = ground arith
exits_iff c (some rules) =
    let bounds = c.guardrails.exit_bounds in
    ground (
      arith,
      has_stop_iff rules,
      has_take_iff rules,
      each_iff (assert_exit_rule bounds)
          (λ rule. TriggerPermitted bounds rule.trigger_type rule.trigger_bps) (rule_iff bounds)
          rules,
    )

open_position_iff :
    (id : String) (c : StrategyContext)
    → (assert_open_position id c ≡ ok tt) ↔ HasOpen id c.positions
unfolding assert_open_position
open_position_iff id c = ground (arith, HasOpen-iff id c.positions)

opening_iff :
    (c : StrategyContext) (symbol : String) (amount : Text) (m : Option Text) (k : Option ℕ)
    (exits : Option (List ExitRuleInput))
    → (assert_action c (open_position symbol amount m k exits) ≡ ok tt) ↔ (
        NoBreach c
        × Member symbol c.guardrails.allowed_symbols
        × NoneOpenIn symbol c.positions
        × (assert_amount_within_available amount c ≡ ok tt)
        × (assert_exits exits c ≡ ok tt))
unfolding assert_action assert_action_kind
opening_iff c symbol amount m k exits = ground (
  arith,
  Member-iff symbol c.guardrails.allowed_symbols,
  none_open_iff symbol c.positions,
  >>-ok (assert_amount_within_available amount c) (assert_exits exits c),
)

adding_iff :
    (c : StrategyContext) (id : String) (amount : Text) (m : Option Text) (k : Option ℕ)
    → (assert_action c (add_to_position id amount m k) ≡ ok tt)
      ↔ (NoBreach c × HasOpen id c.positions × (assert_amount_within_available amount c ≡ ok tt))
unfolding assert_action assert_action_kind
adding_iff c id amount m k = ground (
  arith,
  open_position_iff id c,
  >>-ok (assert_open_position id c) (assert_amount_within_available amount c),
)

-- An action passes exactly when it is permitted: a buying action needs that no breach is active
-- and a positive amount within the available allocation, an opening one moreover an allowed
-- symbol with no open position and exit rules within the bounds, any other action a position
-- of the agent that is open.
pub assert_action_iff :
    (context : StrategyContext) (action : StrategyAction)
    → (assert_action context action ≡ ok tt) ↔ ActionPermitted context action
unfolding assert_action assert_action_kind
assert_action_iff c (open_position symbol amount m k exits) =
    let opening = opening_iff c symbol amount m k exits in
    (
      λ h.
          let (breach, allowed, unheld, within, exits_ok) = opening.0 h in
          (breach, allowed, unheld, (amount_iff amount c).0 within, (exits_iff c exits).0 exits_ok),
      λ (breach, allowed, unheld, within, exits_ok).
          opening.1 (
            breach,
            allowed,
            unheld,
            (amount_iff amount c).1 within,
            (exits_iff c exits).1 exits_ok,
          ),
    )
assert_action_iff c (add_to_position id amount m k) =
    let adding = adding_iff c id amount m k in
    (
      λ h.
          let (breach, held, within) = adding.0 h in (breach, held, (amount_iff amount c).0 within),
      λ (breach, held, within). adding.1 (breach, held, (amount_iff amount c).1 within),
    )
assert_action_iff c (reduce_position id _) = ground (arith, open_position_iff id c)
assert_action_iff c (close_position id _) = ground (arith, open_position_iff id c)

pub assert_strategy_decision_guardrails_iff :
    (decision : StrategyDecision) (context : StrategyContext)
    → (assert_strategy_decision_guardrails decision context ≡ ok tt)
      ↔ All (ActionPermitted context) decision.actions
unfolding assert_strategy_decision_guardrails
assert_strategy_decision_guardrails_iff decision context =
    each_iff (assert_action context) (ActionPermitted context) (assert_action_iff context)
      decision.actions
