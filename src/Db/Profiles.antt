-- ===== src/Db/Profiles.antt =====
-- api/src/db/agent-profiles.repository.ts
use protocol_monorepo.Common.{
  ℕ, String, str_eq, Bool, not, ◌&&◌, List, [], ◌∷◌, ◌++◌, map, any, filter_by, take, length,
  if◌then◌else◌, Option, none, some, is_some, get_or_else, Result, ok, err,
}
use protocol_monorepo.Common.Text.{Text, text_eq, to_lower}
use protocol_monorepo.Db.Actions.{Failure, unique_violation}
use protocol_monorepo.Db.Keys.{distinct_keys, text_leb, order_ascending, order_descending}

pub record AgentProfileRow : Type 0 where
  pub agent_id : String
  pub owner_address : Text
  pub handle : String
  pub strategy : Text
  pub bot_frequency : Text
  pub pricing_tier : String
  pub next_run_at : Text
  pub archived_at : Option Text
  pub created_at : Text

-- The two indexes: the primary key, and the handles of the agents that are not archived.
abbrev pub profile_id : AgentProfileRow → Option String
profile_id row = some row.agent_id

abbrev pub active_profile_handle : AgentProfileRow → Option String
active_profile_handle row = if is_some row.archived_at then none else some row.handle

-- A write is refused when it would break an index.
unfoldable pub commit_profiles : List AgentProfileRow → Result Failure (List AgentProfileRow)
commit_profiles rows =
    if distinct_keys (map profile_id rows) && distinct_keys (map active_profile_handle rows)
    then ok rows
    else err unique_violation

-- The row is given with its address in lower case.
unfoldable pub create_profile :
    AgentProfileRow → List AgentProfileRow → Result Failure (List AgentProfileRow)
create_profile row rows = commit_profiles (rows ++ row ∷ [])

abbrev pub find_profile : String → List AgentProfileRow → Option AgentProfileRow
find_profile agent_id [] = none
find_profile agent_id (row ∷ rows) =
    if str_eq row.agent_id agent_id then some row else find_profile agent_id rows

-- `UPDATE agent_profiles SET owner_address = ? WHERE agent_id = ?`
unfoldable pub set_profile_owner : String → Text → AgentProfileRow → AgentProfileRow
set_profile_owner agent_id owner row =
    if str_eq row.agent_id agent_id then record row { owner_address = owner } else row

-- `UPDATE agent_profiles SET next_run_at = ? WHERE agent_id = ?`
unfoldable pub set_next_run_at : String → Text → AgentProfileRow → AgentProfileRow
set_next_run_at agent_id next_run_at row =
    if str_eq row.agent_id agent_id then record row { next_run_at = next_run_at } else row

unfoldable pub find_profiles_by_owner : Text → List AgentProfileRow → List AgentProfileRow
find_profiles_by_owner owner rows =
    order_descending (λ row. row.created_at)
      (filter_by (λ row. text_eq row.owner_address (map to_lower owner)) rows)

unfoldable pub count_active_by_owner : Text → List AgentProfileRow → ℕ
count_active_by_owner owner rows = length (
    filter_by
      (λ row. text_eq row.owner_address (map to_lower owner) && not (is_some row.archived_at)) rows)

unfoldable pub is_profile_handle_taken : String → List AgentProfileRow → Bool
is_profile_handle_taken handle rows =
    any (λ row. str_eq row.handle handle && not (is_some row.archived_at)) rows

-- `WHERE archived_at IS NULL AND next_run_at <= ? ORDER BY next_run_at ASC LIMIT ?`
unfoldable pub list_due : Text → ℕ → List AgentProfileRow → List AgentProfileRow
list_due now limit rows = take limit (
    order_ascending (λ row. row.next_run_at)
      (filter_by (λ row. not (is_some row.archived_at) && text_leb row.next_run_at now) rows))

-- `WHERE agent_id = ? AND archived_at IS NULL`, and the first row that was updated.
abbrev pub is_live_agent : String → AgentProfileRow → Bool
is_live_agent agent_id row = str_eq row.agent_id agent_id && not (is_some row.archived_at)

abbrev first_updated :
    (AgentProfileRow → Bool)
    → (AgentProfileRow → AgentProfileRow)
    → List AgentProfileRow
    → Option AgentProfileRow
first_updated chosen change [] = none
first_updated chosen change (row ∷ rows) =
    if chosen row then some (change row) else first_updated chosen change rows

abbrev pub update_where :
    (AgentProfileRow → Bool)
    → (AgentProfileRow → AgentProfileRow)
    → List AgentProfileRow
    → List AgentProfileRow
update_where chosen change [] = []
update_where chosen change (row ∷ rows) =
    (if chosen row then change row else row) ∷ update_where chosen change rows

unfoldable pub archive_profile :
    String → Text → List AgentProfileRow → Option AgentProfileRow × List AgentProfileRow
archive_profile agent_id archived_at rows =
    let change : AgentProfileRow → AgentProfileRow =
      λ row. record row { archived_at = some archived_at } in
    (
      first_updated (is_live_agent agent_id) change rows,
      update_where (is_live_agent agent_id) change rows,
    )

-- The fields of an update that are not undefined.
unfoldable pub patch_profile :
    Option Text → Option Text → Option Text → AgentProfileRow → AgentProfileRow
patch_profile strategy bot_frequency next_run_at row = record row {
  strategy = get_or_else strategy row.strategy;
  bot_frequency = get_or_else bot_frequency row.bot_frequency;
  next_run_at = get_or_else next_run_at row.next_run_at;
}

unfoldable pub update_profile :
    String
    → Option Text
    → Option Text
    → Option Text
    → List AgentProfileRow
    → Option AgentProfileRow × List AgentProfileRow
update_profile agent_id none none none rows = (find_profile agent_id rows, rows)
update_profile agent_id strategy bot_frequency next_run_at rows =
    let change = patch_profile strategy bot_frequency next_run_at in
    (
      first_updated (is_live_agent agent_id) change rows,
      update_where (is_live_agent agent_id) change rows,
    )
