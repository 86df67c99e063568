-- ===== src/Drafts/Service.antt =====
-- api/src/services/agent-drafts.service.ts. Ids and times are arguments.
use protocol_monorepo.Common.{
  ℕ, String, Bool, not, ◌||◌, ◌==◌, List, [], ◌∷◌, map, if◌then◌else◌, Option, none, some,
  get_or_else, Result, ok, err,
}
use mathlib.Core.Option
use protocol_monorepo.Common.Text.{Text, codes, text_eq, to_lower}
use protocol_monorepo.Strategy.Cooldown.{BotFrequency, hourly, daily}
use protocol_monorepo.Db.Actions.{
  Failure, app_error, Action, pure, lift, gets, ◌>>=◌, ◌>>◌, throw_if, require,
}
use protocol_monorepo.Db.Profiles.{is_profile_handle_taken}
use protocol_monorepo.Db.DraftRows.{
  AgentIdentity, AgentDraftRow, UpdateAgentDraftInput, only_updated_at, is_status_draft, find_draft,
  find_drafts_by_owner, is_draft_handle_taken, new_draft_row, insert_draft, draft_not_found,
  update_draft_row, abandon_draft_row,
}
use protocol_monorepo.Db.Database.{Database, on_drafts}

pub record AgentDraft : Type 0 where
  pub draft_id : String
  pub owner : Text
  pub identity : Option AgentIdentity
  pub vault_address : Text
  pub strategy : Option Text
  pub bot_frequency : Option BotFrequency
  pub created_at : Text
  pub updated_at : Text

unfoldable pub frequency_of : Text → Option BotFrequency
frequency_of value =
    if text_eq value (codes "1h")
    then some hourly
    else if text_eq value (codes "1d")
    then some daily
    else none

abbrev pub frequency_text : BotFrequency → Text
frequency_text hourly = codes "1h"
frequency_text daily = codes "1d"

-- `parseBotFrequency` of a nullable column.
abbrev pub frequency_of_column : Option Text → Option BotFrequency
frequency_of_column none = none
frequency_of_column (some value) = frequency_of value

abbrev pub to_agent_draft : Text → AgentDraftRow → AgentDraft
to_agent_draft fallback_vault_address row = record {
  draft_id = row.id;
  owner = row.owner_address;
  identity = row.identity;
  vault_address = get_or_else row.vault_address fallback_vault_address;
  strategy = row.strategy;
  bot_frequency = frequency_of_column row.bot_frequency;
  created_at = row.created_at;
  updated_at = row.updated_at;
}

-- The configured chain, and the genesis vault of each chain that has one.
pub record Deployment : Type 0 where
  pub chain_id : Option ℕ
  pub genesis_vaults : List (ℕ × Text)

abbrev vault_on : ℕ → List (ℕ × Text) → Option Text
vault_on chain_id [] = none
vault_on chain_id ((k, vault) ∷ more) = if k == chain_id then some vault else vault_on chain_id more

abbrev require_genesis_vault : Option Text → Result Failure Text
require_genesis_vault none = err (app_error "GenesisVault is not deployed for CHAIN_ID" 503)
require_genesis_vault (some []) = err (app_error "GenesisVault is not deployed for CHAIN_ID" 503)
require_genesis_vault (some (c ∷ vault)) = ok (c ∷ vault)

abbrev vault_of_chain : Option ℕ → List (ℕ × Text) → Result Failure Text
vault_of_chain none vaults = err (app_error "CHAIN_ID is not configured" 503)
vault_of_chain (some chain_id) vaults = require_genesis_vault (vault_on chain_id vaults)

unfoldable pub get_genesis_vault_address : Deployment → Result Failure Text
get_genesis_vault_address deployment = vault_of_chain deployment.chain_id deployment.genesis_vaults

unfoldable pub is_handle_taken : String → Option String → Database → Bool
is_handle_taken handle exclude_draft_id db =
    is_draft_handle_taken handle exclude_draft_id db.drafts
    || is_profile_handle_taken handle db.profiles

unfoldable pub require_owned_draft : String → Text → Action Database AgentDraftRow
require_owned_draft draft_id owner_address = do
  rows ← gets (λ db. db.drafts)
  row ← require (find_draft draft_id rows) draft_not_found
  throw_if (not (text_eq (map to_lower row.owner_address) (map to_lower owner_address)))
      draft_not_found
  pure row

unfoldable pub require_editable_draft : String → Text → Action Database AgentDraftRow
require_editable_draft draft_id owner_address = do
  row ← require_owned_draft draft_id owner_address
  throw_if (not (is_status_draft row.status)) (app_error "Agent draft is not editable" 400)
  pure row

pub record UpdateAgentDraftBody : Type 0 where
  pub identity : Option AgentIdentity
  pub strategy : Option Text
  pub bot_frequency : Option BotFrequency

abbrev pub handle_is_taken : Failure
handle_is_taken = app_error "Handle is already taken" 400

-- The check of a new identity's handle.
abbrev pub check_identity : String → Option AgentIdentity → Action Database (Unit {0})
check_identity draft_id none = pure tt
check_identity draft_id (some identity) = do
  taken ← gets (is_handle_taken identity.handle (some draft_id))
  throw_if taken handle_is_taken

abbrev pub patch_of : Text → UpdateAgentDraftBody → UpdateAgentDraftInput
patch_of updated_at body = record (only_updated_at updated_at) {
  handle = Option.map (λ identity. some (AgentIdentity.handle identity)) body.identity;
  identity = Option.map some body.identity;
  strategy = Option.map some body.strategy;
  bot_frequency = Option.map (λ f. some (frequency_text f)) body.bot_frequency;
}

module _ (deployment : Deployment) where
  unfoldable pub create_draft : String → Text → Text → AgentIdentity → Action Database AgentDraft
  create_draft draft_id created_at owner_address identity = do
    taken ← gets (is_handle_taken identity.handle none)
    throw_if taken handle_is_taken
    vault ← lift (get_genesis_vault_address deployment)
    let row = new_draft_row draft_id owner_address identity vault created_at
    on_drafts (insert_draft row)
    pure (to_agent_draft vault row)

  unfoldable pub get_draft : String → Text → Action Database AgentDraft
  get_draft draft_id owner_address = do
    row ← require_owned_draft draft_id owner_address
    vault ← lift (get_genesis_vault_address deployment)
    pure (to_agent_draft vault row)

  unfoldable pub list_drafts : Text → Action Database (List AgentDraft)
  list_drafts owner_address = do
    rows ← gets (λ db. find_drafts_by_owner owner_address db.drafts)
    vault ← lift (get_genesis_vault_address deployment)
    pure (map (to_agent_draft vault) rows)

  unfoldable pub update_draft :
      String → Text → Text → UpdateAgentDraftBody → Action Database AgentDraft
  update_draft draft_id owner_address updated_at body = do
    _ ← require_editable_draft draft_id owner_address
    check_identity draft_id body.identity
    row ← on_drafts (update_draft_row draft_id (patch_of updated_at body))
    vault ← lift (get_genesis_vault_address deployment)
    pure (to_agent_draft vault row)

unfoldable pub abandon_draft : String → Text → Text → Action Database (Unit {0})
abandon_draft draft_id owner_address updated_at = do
  _ ← require_owned_draft draft_id owner_address
  on_drafts (abandon_draft_row draft_id updated_at)
