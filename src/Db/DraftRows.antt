-- ===== src/Db/DraftRows.antt =====
-- api/src/db/agent-drafts.repository.ts. The identity's JSON stands as the identity.
use protocol_monorepo.Common.{
  ℕ, suc, String, str_eq, Bool, true, false, not, ◌&&◌, List, [], ◌∷◌, ◌++◌, map, any, filter_by,
  if◌then◌else◌, Option, none, some, get_or_else, Result, ok, err,
}
use protocol_monorepo.Common.Text.{Text, text_eq, to_lower}
use protocol_monorepo.Db.Actions.{Failure, app_error, unique_violation}
use protocol_monorepo.Db.Keys.{distinct_keys, text_ltb, order_descending}

pub data DraftStatus : Type 0 where
  draft launching launched abandoned : DraftStatus

pub record AgentIdentity : Type 0 where
  pub name : Text
  pub handle : String
  pub description : Text
  pub links : List (String × Text)

pub record AgentDraftRow : Type 0 where
  pub id : String
  pub owner_address : Text
  pub handle : Option String
  pub identity : Option AgentIdentity
  pub vault_address : Option Text
  pub strategy : Option Text
  pub bot_frequency : Option Text
  pub pricing_tier : Option String
  pub signer_address : Option Text
  pub encrypted_signer_key : Option Text
  pub key_version : ℕ
  pub status : DraftStatus
  pub launched_agent_id : Option String
  pub launch_tx_hash : Option Text
  pub created_at : Text
  pub updated_at : Text

-- A field that is `none` is left as it is.
pub record UpdateAgentDraftInput : Type 0 where
  pub handle : Option (Option String)
  pub identity : Option (Option AgentIdentity)
  pub strategy : Option (Option Text)
  pub bot_frequency : Option (Option Text)
  pub pricing_tier : Option (Option String)
  pub signer_address : Option (Option Text)
  pub encrypted_signer_key : Option (Option Text)
  pub status : Option DraftStatus
  pub launched_agent_id : Option (Option String)
  pub launch_tx_hash : Option (Option Text)
  pub updated_at : Text

abbrev pub only_updated_at : Text → UpdateAgentDraftInput
only_updated_at updated_at = record {
  handle = none;
  identity = none;
  strategy = none;
  bot_frequency = none;
  pricing_tier = none;
  signer_address = none;
  encrypted_signer_key = none;
  status = none;
  launched_agent_id = none;
  launch_tx_hash = none;
  updated_at = updated_at;
}

unfoldable pub patch_draft : UpdateAgentDraftInput → AgentDraftRow → AgentDraftRow
patch_draft input row = record row {
  handle = get_or_else input.handle row.handle;
  identity = get_or_else input.identity row.identity;
  strategy = get_or_else input.strategy row.strategy;
  bot_frequency = get_or_else input.bot_frequency row.bot_frequency;
  pricing_tier = get_or_else input.pricing_tier row.pricing_tier;
  signer_address = get_or_else input.signer_address row.signer_address;
  encrypted_signer_key = get_or_else input.encrypted_signer_key row.encrypted_signer_key;
  status = get_or_else input.status row.status;
  launched_agent_id = get_or_else input.launched_agent_id row.launched_agent_id;
  launch_tx_hash = get_or_else input.launch_tx_hash row.launch_tx_hash;
  updated_at = input.updated_at;
}

abbrev pub is_status_draft : DraftStatus → Bool
is_status_draft draft = true
is_status_draft launching = false
is_status_draft launched = false
is_status_draft abandoned = false

-- The primary key, and the partial index on the handles of rows with the status `draft`.
abbrev pub draft_id : AgentDraftRow → Option String
draft_id row = some row.id

abbrev pub active_handle : AgentDraftRow → Option String
active_handle row = if is_status_draft row.status then row.handle else none

unfoldable pub commit_drafts : List AgentDraftRow → Result Failure (List AgentDraftRow)
commit_drafts rows =
    if distinct_keys (map draft_id rows) && distinct_keys (map active_handle rows)
    then ok rows
    else err unique_violation

abbrev pub find_draft : String → List AgentDraftRow → Option AgentDraftRow
find_draft id [] = none
find_draft id (row ∷ rows) = if str_eq row.id id then some row else find_draft id rows

unfoldable pub find_drafts_by_owner : Text → List AgentDraftRow → List AgentDraftRow
find_drafts_by_owner owner rows =
    order_descending (λ row. row.updated_at)
      (filter_by
        (λ row. text_eq row.owner_address (map to_lower owner) && is_status_draft row.status) rows)

abbrev pub has_handle : String → Option String → Bool
has_handle handle none = false
has_handle handle (some h) = str_eq h handle

abbrev is_other : Option String → String → Bool
is_other none id = true
is_other (some excluded) id = not (str_eq id excluded)

unfoldable pub is_draft_handle_taken : String → Option String → List AgentDraftRow → Bool
is_draft_handle_taken handle exclude_draft_id rows =
    any
      (λ row.
        has_handle handle row.handle
        && (is_status_draft row.status && is_other exclude_draft_id row.id))
      rows

-- `INSERT … 'draft'`; the columns that are not given are null, and the key version is 1.
abbrev pub new_draft_row : String → Text → AgentIdentity → Text → Text → AgentDraftRow
new_draft_row id owner identity vault created_at = record {
  id = id;
  owner_address = map to_lower owner;
  handle = some identity.handle;
  identity = some identity;
  vault_address = some vault;
  strategy = none;
  bot_frequency = none;
  pricing_tier = none;
  signer_address = none;
  encrypted_signer_key = none;
  key_version = 1;
  status = draft;
  launched_agent_id = none;
  launch_tx_hash = none;
  created_at = created_at;
  updated_at = created_at;
}

abbrev pub no_value :
    Result Failure (List AgentDraftRow) → Result Failure (Unit {0} × List AgentDraftRow)
no_value (err e) = err e
no_value (ok rows) = ok (tt, rows)

unfoldable pub insert_draft :
    AgentDraftRow → List AgentDraftRow → Result Failure (Unit {0} × List AgentDraftRow)
insert_draft row rows = no_value (commit_drafts (rows ++ row ∷ []))

abbrev pub change_draft :
    String → (AgentDraftRow → AgentDraftRow) → List AgentDraftRow → List AgentDraftRow
change_draft id change [] = []
change_draft id change (row ∷ rows) =
    (if str_eq row.id id then change row else row) ∷ change_draft id change rows

abbrev pub draft_not_found : Failure
draft_not_found = app_error "Agent draft not found" 404

abbrev with_row :
    AgentDraftRow
    → Result Failure (List AgentDraftRow)
    → Result Failure (AgentDraftRow × List AgentDraftRow)
with_row row (err e) = err e
with_row row (ok rows) = ok (row, rows)

abbrev pub update_found :
    Option AgentDraftRow
    → String
    → UpdateAgentDraftInput
    → List AgentDraftRow
    → Result Failure (AgentDraftRow × List AgentDraftRow)
update_found none id input rows = err draft_not_found
update_found (some row) id input rows =
    with_row (patch_draft input row) (commit_drafts (change_draft id (patch_draft input) rows))

-- The row that is returned is the one after the update.
unfoldable pub update_draft_row :
    String
    → UpdateAgentDraftInput
    → List AgentDraftRow
    → Result Failure (AgentDraftRow × List AgentDraftRow)
update_draft_row id input rows = update_found (find_draft id rows) id input rows

unfoldable pub abandoned_row : Text → AgentDraftRow → AgentDraftRow
abandoned_row updated_at row = record row {
  status = abandoned;
  encrypted_signer_key = none;
  signer_address = none;
  updated_at = updated_at;
}

abbrev pub abandon_found :
    Option AgentDraftRow
    → String
    → Text
    → List AgentDraftRow
    → Result Failure (Unit {0} × List AgentDraftRow)
abandon_found none id updated_at rows = err draft_not_found
abandon_found (some row) id updated_at rows =
    ok (tt, change_draft id (abandoned_row updated_at) rows)

unfoldable pub abandon_draft_row :
    String → Text → List AgentDraftRow → Result Failure (Unit {0} × List AgentDraftRow)
abandon_draft_row id updated_at rows = abandon_found (find_draft id rows) id updated_at rows

unfoldable pub is_stale : Text → AgentDraftRow → Bool
is_stale cutoff row = is_status_draft row.status && text_ltb row.updated_at cutoff

abbrev pub sweep_row : Bool → Text → AgentDraftRow → ℕ × List AgentDraftRow → ℕ × List AgentDraftRow
sweep_row true updated_at row (n, rest) = (suc n, abandoned_row updated_at row ∷ rest)
sweep_row false updated_at row (n, rest) = (n, row ∷ rest)

-- How many rows were abandoned, and the table after that.
unfoldable pub abandon_stale : Text → Text → List AgentDraftRow → ℕ × List AgentDraftRow
abandon_stale cutoff updated_at [] = (0, [])
abandon_stale cutoff updated_at (row ∷ rows) =
    sweep_row (is_stale cutoff row) updated_at row (abandon_stale cutoff updated_at rows)
