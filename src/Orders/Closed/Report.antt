-- ===== src/Orders/Closed/Report.antt =====
-- What a scan of closed positions should report, said without its batches.
use Prim.Native.Nat.{max}
use protocol_monorepo.Common.{
  ℕ, zero, suc, ◌+◌, ◌-◌, ◌≤◌, ◌<◌, ◌≡◌, ◌↔◌, refl, ap, ◌∙◌, Bool, true, false, ltb, ◌==◌, none,
  some, List, [], ◌∷◌, map, take, filter_by, All, arith, Bool-cases, inl, inr, if◌then◌else◌,
}
use protocol_monorepo.Common.Int.{ℤ}
use protocol_monorepo.Common.Text.{Text}
use protocol_monorepo.Tokens.Catalog.{TokenCatalog}
use protocol_monorepo.Trading.Metrics.{position_total_pnl_usdc}
use protocol_monorepo.Strategy.Decision.{is_closed}
use protocol_monorepo.Strategy.ExitRules.{OnChainExitRule}
use protocol_monorepo.Orders.Chain.{TradingConfig, PositionOnChain}
use protocol_monorepo.Orders.Positions.{PositionRecord, map_position_record}
use protocol_monorepo.Orders.Closed.{ids_down, is_closed_match}

-- The newest `n` of the ids 1 to `total`, newest first.
abbrev pub newest_ids : ℕ → ℕ → List ℕ
newest_ids zero total = []
newest_ids (suc n) zero = []
newest_ids (suc n) (suc total) = suc total ∷ newest_ids n total

-- A position of the agent whose status on chain is 1, which is Closed, and whose id is not zero.
abbrev pub IsClosedOf : ℕ → PositionOnChain → Type 0
IsClosedOf agent_id p = (p.agent_id ≡ agent_id) × (p.status ≡ 1) × (0 < p.position_id)

abbrev pub is_closed_of : ℕ → PositionOnChain → Bool
is_closed_of agent_id p =
    if p.agent_id == agent_id then (if p.status == 1 then ltb 0 p.position_id else false) else false

pub is_closed_of_iff :
    (agent_id : ℕ) (p : PositionOnChain) → (is_closed_of agent_id p ≡ true) ↔ IsClosedOf agent_id p
is_closed_of_iff agent_id p = ground arith

pub same_match :
    (agent_id : ℕ) (p : PositionOnChain) → is_closed_match agent_id p ≡ is_closed_of agent_id p
same_match agent_id p = ground arith

pub ids_down-newest_ids :
    (n total k : ℕ) → k + n ≡ total + 0 → ids_down n total ≡ newest_ids n total
unfolding ids_down
ids_down-newest_ids zero total k h = refl
ids_down-newest_ids (suc n) zero k h = absurd (omega arith)
ids_down-newest_ids (suc n) (suc total) k h =
    let e : suc total - 1 ≡ total = omega arith in
    ap (◌∷◌ (suc total)) (ap (ids_down n) e ∙ ids_down-newest_ids n total k (omega arith))

newest_all : (n m total : ℕ) → total ≤ n → total ≤ m → newest_ids n total ≡ newest_ids m total
newest_all zero zero total h k = refl
newest_all zero (suc m) zero h k = refl
newest_all zero (suc m) (suc total) h k = absurd (omega arith)
newest_all (suc n) zero zero h k = refl
newest_all (suc n) zero (suc total) h k = absurd (omega arith)
newest_all (suc n) (suc m) zero h k = refl
newest_all (suc n) (suc m) (suc total) h k =
    ap (◌∷◌ (suc total)) (newest_all n m total (omega arith) (omega arith))

pub scanned_newest :
    (total : ℕ) → ids_down (total + 1 - max 1 (total + 1 - 500)) total ≡ newest_ids 500 total
scanned_newest total = elim (Bool-cases (ltb total 500)) [
  | inl few ↦
      let e : total + 1 - max 1 (total + 1 - 500) ≡ total = ground arith in
      ap (λ k. ids_down k total) e
      ∙ ids_down-newest_ids total total 0 (omega arith)
      ∙ newest_all total 500 total (omega arith) (ground arith)
  | inr many ↦
      let e : total + 1 - max 1 (total + 1 - 500) ≡ 500 = ground arith in
      ap (λ k. ids_down k total) e ∙ ids_down-newest_ids 500 total (total - 500) (ground arith)
]

pub filter_by-same :
    {A : Type 0} (p q : A → Bool) (xs : List A)
    → ((x : A) → p x ≡ q x)
    → filter_by p xs ≡ filter_by q xs
filter_by-same p q [] h = refl
filter_by-same p q (x ∷ xs) h = rw (h x, filter_by-same p q xs h)

pub filter_by-All :
    {A : Type 0} (P : A → Type 0) (p : A → Bool) (xs : List A)
    → ((x : A) → p x ≡ true → P x)
    → All P (filter_by p xs)
filter_by-All P p [] h = tt
filter_by-All P p (x ∷ xs) h = elim (Bool-cases (p x)) [
  | inl kept ↦ rw kept (h x kept, filter_by-All P p xs h)
  | inr out ↦ rw out (filter_by-All P p xs h)
]

pub take-map :
    {A B : Type 0} (f : A → B) (n : ℕ) (xs : List A) → take n (map f xs) ≡ map f (take n xs)
take-map f zero xs = refl
take-map f (suc n) [] = refl
take-map f (suc n) (x ∷ xs) = ap (◌∷◌ (f x)) (take-map f n xs)

-- A record that shows a closed position with its realized profit, which is its total profit.
pub record IsReported (p : PositionOnChain) (realized : ℤ) (r : PositionRecord) : Type 0 where
  pub own_id : r.position_id ≡ p.position_id
  pub own_status : r.status ≡ is_closed
  pub own_profit : r.realized_pnl_usdc ≡ some realized
  pub own_total : r.total_pnl_usdc ≡ realized
  pub no_unrealized : r.unrealized_pnl_usdc ≡ none

pub map_position_record-IsReported :
    (config : TradingConfig) (catalog : TokenCatalog) (agent_id : ℕ) (p : PositionOnChain)
    (rules : List OnChainExitRule) (agent_id_str : Text) (realized : ℤ)
    → IsClosedOf agent_id p
    → IsReported p realized
        (map_position_record config catalog p rules agent_id_str none (some realized))
unfolding map_position_record position_total_pnl_usdc
map_position_record-IsReported config catalog agent_id p rules agent_id_str realized
      (own, closed, named) =
    let not_open : (p.status == 0) ≡ false = ground arith in
    record {
      own_id = refl;
      own_status = rw not_open refl;
      own_profit = refl;
      own_total = rw not_open refl;
      no_unrealized = refl;
    }
