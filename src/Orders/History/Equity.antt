-- ===== src/Orders/History/Equity.antt =====
-- Which points an equity history has.
use protocol_monorepo.Common.{
  ℕ, zero, suc, ◌≤◌, length, filter_by, false, ◌≡◌, ◌<◌, refl, true, false, not, Option, some, List,
  [], ◌∷◌, take, All, Result, ok, get_or_else, Yields, >>=-Yields, Bool-cases, inl, inr, arith, ltb,
}
use protocol_monorepo.Common.Text.{Text, codes}
use protocol_monorepo.Orders.Chain.{Chain}
use protocol_monorepo.Orders.History.Graph.{
  HistoryFailure, HttpResponse, GraphEquitySnapshot, query_result, in_range,
  map_subgraph_equity_snapshots,
}
use protocol_monorepo.Orders.History.Lists.{
  OrderDirection, asc, desc, EquitySnapshotsQuery, agent_equity_snapshots_query, SnapshotsAnswer,
  Subgraph, list_agent_equity_snapshots, CurrentEquity, EquityOptions, as_history, existing_agent,
  current_if, list_equity_history,
}

-- What the index answers to a query for the first snapshots, at a block.
abbrev pub answer_of : ℕ → List GraphEquitySnapshot → HttpResponse SnapshotsAnswer
answer_of block snapshots = record {
  is_ok = true;
  status = 200;
  status_text = codes "OK";
  payload = record {
    data_field = some (record { block_number = block; snapshots = some snapshots });
    errors = [];
  };
}

abbrev pub IsInRange : Option ℕ → Option ℕ → GraphEquitySnapshot → Type 0
IsInRange from last s = in_range from last s ≡ true

map_subgraph_equity_snapshots-IsInRange :
    (from last : Option ℕ) (snapshots : List GraphEquitySnapshot)
    → All (IsInRange from last) (map_subgraph_equity_snapshots snapshots from last)
unfolding map_subgraph_equity_snapshots
map_subgraph_equity_snapshots-IsInRange from last [] = tt
map_subgraph_equity_snapshots-IsInRange from last (s ∷ snapshots) =
    elim (Bool-cases (in_range from last s)) [
      | inl kept ↦ rw kept (kept, map_subgraph_equity_snapshots-IsInRange from last snapshots)
      | inr out ↦ rw out (map_subgraph_equity_snapshots-IsInRange from last snapshots)
    ]

all_before :
    (from : ℕ) (last : Option ℕ) (snapshots : List GraphEquitySnapshot)
    → All (λ s. s.block_timestamp < from) snapshots
    → map_subgraph_equity_snapshots snapshots (some from) last ≡ []
unfolding map_subgraph_equity_snapshots
all_before from last [] h = refl
all_before from last (s ∷ snapshots) (old, h) =
    let out : not (ltb s.block_timestamp from) ≡ false = ground arith in
    rw out (all_before from last snapshots h)

-- Snapshots in the order of their times that a query asks for.
abbrev pub IsOrdered : OrderDirection → List GraphEquitySnapshot → Type 0
IsOrdered direction [] = Unit
IsOrdered asc (s ∷ snapshots) =
    All (λ t. s.block_timestamp ≤ t.block_timestamp) snapshots × IsOrdered asc snapshots
IsOrdered desc (s ∷ snapshots) =
    All (λ t. t.block_timestamp ≤ s.block_timestamp) snapshots × IsOrdered desc snapshots

-- The snapshots before a time.
abbrev pub before : ℕ → List GraphEquitySnapshot → List GraphEquitySnapshot
before from = filter_by (λ s. ltb s.block_timestamp from)

none_before :
    (from bound : ℕ) (snapshots : List GraphEquitySnapshot)
    → from ≤ bound
    → All (λ t. bound ≤ t.block_timestamp) snapshots
    → before from snapshots ≡ []
none_before from bound [] h late = refl
none_before from bound (s ∷ snapshots) h (first_late, late) =
    let out : ltb s.block_timestamp from ≡ false = ground arith in
    rw out (none_before from bound snapshots h late)

-- In ascending order the first snapshots are before the time, if that many are.
first_before :
    (from n : ℕ) (snapshots : List GraphEquitySnapshot)
    → IsOrdered asc snapshots
    → n ≤ length (before from snapshots)
    → All (λ s. s.block_timestamp < from) (take n snapshots)
first_before from zero snapshots ordered many = tt
first_before from (suc n) [] ordered many = absurd (omega arith)
first_before from (suc n) (s ∷ snapshots) (later, ordered) many =
    elim (Bool-cases (ltb s.block_timestamp from)) [
      | inl early ↦
          let rest : n ≤ length (before from snapshots) = ground arith in
          (ground arith, first_before from n snapshots ordered rest)
      | inr late ↦
          let nothing = none_before from s.block_timestamp snapshots (ground arith) later in
          absurd (ground (arith, nothing))
    ]

module _ {W : Type 0} (chain : Chain W) (w : W) (agent_id_str : Text)
    (risk : Result HistoryFailure CurrentEquity) (subgraph : Subgraph)
    (options : EquityOptions) where
  -- When an equity history is returned, every point lies between the two times that were asked for.
  pub list_equity_history-IsInRange :
      Yields
        (λ h. All (IsInRange options.from_timestamp options.to_timestamp) h.points)
        (list_equity_history chain w agent_id_str risk (some subgraph) options)
  unfolding list_equity_history
  list_equity_history-IsInRange =
      >>=-Yields _ (as_history (existing_agent chain w agent_id_str)) _ λ _ _.
        >>=-Yields _
          (list_agent_equity_snapshots subgraph agent_id_str (get_or_else options.limit 200)) _
          λ answer _.
            >>=-Yields _
              (current_if chain w agent_id_str risk (get_or_else options.include_current true)) _
              λ _ _.
                map_subgraph_equity_snapshots-IsInRange options.from_timestamp options.to_timestamp
                  answer.snapshots

  -- The index is at `block`, and `stored` are its snapshots of the agent in the order of the query.
  module _ (agent_id block from : ℕ) (stored : List GraphEquitySnapshot)
      (tip : Option CurrentEquity) where
    abbrev asked_for : EquitySnapshotsQuery
    asked_for = agent_equity_snapshots_query agent_id_str (get_or_else options.limit 200)

    -- If at least as many snapshots as the limit lie before the time from which points are asked for,
    -- then the index, which answers the first ones in the order of the query, leaves the history
    -- without any point, whatever newer snapshots it stores: the history that is returned has none.
    pub list_equity_history_cut :
        existing_agent chain w agent_id_str ≡ ok agent_id
        → current_if chain w agent_id_str risk (get_or_else options.include_current true) ≡ ok tip
        → IsOrdered asked_for.order_direction stored
        → subgraph.equity_snapshots asked_for ≡ ok (answer_of block (take asked_for.first stored))
        → options.from_timestamp ≡ some from
        → get_or_else options.limit 200 ≤ length (before from stored)
        → list_equity_history chain w agent_id_str risk (some subgraph) options
          ≡ ok (record { indexed_through_block = block; points = []; current = tip })
    unfolding list_equity_history list_agent_equity_snapshots query_result
    list_equity_history_cut exists current ordered answered asked many =
        let limit = get_or_else options.limit 200 in
        let none_left =
          all_before from options.to_timestamp (take limit stored)
            (first_before from limit stored ordered many) in
        rw (exists, answered, current, asked, none_left) refl
