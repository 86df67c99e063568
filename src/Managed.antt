-- ===== src/Managed.antt =====
-- api/src/services/managed-agent.service.ts. The registration service's reads of the chain are
-- arguments; of an agent on chain only the owner is read.
pub mod Keeps
pub mod Archive
pub mod Due
use protocol_monorepo.Common.{
  ℕ, String, Bool, true, false, not, ◌==◌, List, [], ◌∷◌, map, filter_by, length, is_some,
  if◌then◌else◌, Option, none, some, Result, ok, err,
}
use mathlib.Core.Option
use protocol_monorepo.Common.Int.{ℤ}
use protocol_monorepo.Common.Text.{Text, text_eq, to_lower}
use protocol_monorepo.Strategy.Cooldown.{BotFrequency, compute_next_run_at}
use protocol_monorepo.Db.Actions.{
  Failure, app_error, other_error, other_value, Action, pure, throw, lift, gets, ◌>>=◌, ◌>>◌,
  throw_if, require,
}
use protocol_monorepo.Db.Profiles.{
  AgentProfileRow, find_profile, set_profile_owner, archive_profile, update_profile,
}
use protocol_monorepo.Db.Signers.{set_signer_owner, wipe_signer_key}
use protocol_monorepo.Db.Database.{Database, on_profiles, map_signers}
use protocol_monorepo.Drafts.Service.{frequency_of, frequency_text}

pub record ManagedAgentProfile : Type 0 where
  pub agent_id : String
  pub handle : String
  pub strategy : Text
  pub bot_frequency : BotFrequency
  pub pricing_tier : String
  pub next_run_at : Text
  pub archived_at : Option Text
  pub created_at : Text

abbrev pub max_agents_per_user : ℕ
max_agents_per_user = 5

pub record ManagedAgentList : Type 0 where
  pub agents : List ManagedAgentProfile
  pub total : ℕ
  pub active_count : ℕ
  pub max_agents : ℕ

pub record ManagedAgentStatus : Type 0 where
  pub is_managed : Bool
  pub archived_at : Option Text

abbrev pub to_managed_status : Option AgentProfileRow → ManagedAgentStatus
to_managed_status none = record { is_managed = false; archived_at = none }
to_managed_status (some profile) = record { is_managed = true; archived_at = profile.archived_at }

abbrev profile_with : AgentProfileRow → Option BotFrequency → Result Failure ManagedAgentProfile
profile_with row none = err (app_error "Invalid bot frequency in agent profile" 503)
profile_with row (some frequency) = ok record {
  agent_id = row.agent_id;
  handle = row.handle;
  strategy = row.strategy;
  bot_frequency = frequency;
  pricing_tier = row.pricing_tier;
  next_run_at = row.next_run_at;
  archived_at = row.archived_at;
  created_at = row.created_at;
}

unfoldable pub to_managed_profile : AgentProfileRow → Result Failure ManagedAgentProfile
to_managed_profile row = profile_with row (frequency_of row.bot_frequency)

-- The write behind `reconcileOwnerIfNeeded`: the profile, and its signer when there was one.
abbrev sync_signer :
    String → Text → Option AgentProfileRow → Action Database (Option AgentProfileRow)
sync_signer agent_id owner none = pure none
sync_signer agent_id owner (some row) = do
  map_signers (map (set_signer_owner agent_id owner))
  pure (some row)

abbrev sync_profile :
    String → Text → List AgentProfileRow → Option AgentProfileRow × List AgentProfileRow
sync_profile agent_id owner rows =
    let after = map (set_profile_owner agent_id owner) rows in (find_profile agent_id after, after)

unfoldable pub reconcile_owner_if_needed :
    String → Text → Option AgentProfileRow → Action Database (Option AgentProfileRow)
reconcile_owner_if_needed agent_id on_chain_owner none = pure none
reconcile_owner_if_needed agent_id on_chain_owner (some profile) =
    let owner = map to_lower on_chain_owner in
    if text_eq (map to_lower profile.owner_address) owner
    then pure (some profile)
    else (do synced ← on_profiles (sync_profile agent_id owner); sync_signer agent_id owner synced)

-- The registration service: an agent's owner, the agent behind an ERC-8004 id, and the agents of an
-- owner.
pub record Registration : Type 0 where
  pub get_agent_owner : String → Result Failure Text
  pub get_agent_by_erc8004 : String → Result Failure (String × Text)
  pub list_agents_by_owner : Text → Result Failure (List (String × Text))

abbrev pub forbidden : Failure
forbidden = app_error "Forbidden" 403

abbrev profile_not_found : Failure
profile_not_found = app_error "Managed agent profile not found" 404

-- An `AgentRegistrationError` is an `AppError`; its status 404 is answered as an unknown agent.
abbrev pub owner_failure : Failure → Failure
owner_failure (app_error message status) =
    if status == 404 then app_error "Agent not found" 404 else app_error message status
owner_failure (other_error message) = other_error message
owner_failure other_value = other_value

abbrev pub owner_or_not_found : Result Failure Text → Result Failure Text
owner_or_not_found (ok owner) = ok owner
owner_or_not_found (err e) = err (owner_failure e)

-- A profile in front of those that follow; an agent without one is passed over.
abbrev pub with_profile :
    Option AgentProfileRow
    → Action Database (List ManagedAgentProfile)
    → Action Database (List ManagedAgentProfile)
with_profile none rest = rest
with_profile (some row) rest = do
  profile ← lift (to_managed_profile row)
  profiles ← rest
  pure (profile ∷ profiles)

-- The loop over the agents on chain; `rows` is what `findByAgentIds` has read before it.
unfoldable pub managed_of :
    List AgentProfileRow → List (String × Text) → Action Database (List ManagedAgentProfile)
managed_of rows [] = pure []
managed_of rows ((agent_id, owner) ∷ more) =
    reconcile_owner_if_needed agent_id owner (find_profile agent_id rows) >>= λ reconciled.
    with_profile reconciled (managed_of rows more)

-- The same loop for `listAgentsByOwner`, which keeps every agent.
unfoldable pub statuses_of :
    List AgentProfileRow
    → List (String × Text)
    → Action Database (List (String × ManagedAgentStatus))
statuses_of rows [] = pure []
statuses_of rows ((agent_id, owner) ∷ more) = do
  reconciled ← reconcile_owner_if_needed agent_id owner (find_profile agent_id rows)
  statuses ← statuses_of rows more
  pure ((agent_id, to_managed_status reconciled) ∷ statuses)

abbrev pub list_of : List ManagedAgentProfile → ManagedAgentList
list_of agents = record {
  agents = agents;
  total = length agents;
  active_count = length (filter_by (λ agent. not (is_some agent.archived_at)) agents);
  max_agents = max_agents_per_user;
}

module _ (registration : Registration) where
  unfoldable pub get_agent_status : String → Action Database ManagedAgentStatus
  get_agent_status agent_id = do
    owner ← lift (registration.get_agent_owner agent_id)
    profile ← gets (λ db. find_profile agent_id db.profiles)
    reconciled ← reconcile_owner_if_needed agent_id owner profile
    pure (to_managed_status reconciled)

  unfoldable pub get_agent_by_erc8004 : String → Action Database (String × ManagedAgentStatus)
  get_agent_by_erc8004 erc8004_agent_id = do
    (agent_id, owner) ← lift (registration.get_agent_by_erc8004 erc8004_agent_id)
    profile ← gets (λ db. find_profile agent_id db.profiles)
    reconciled ← reconcile_owner_if_needed agent_id owner profile
    pure (agent_id, to_managed_status reconciled)

  unfoldable pub list_agents_by_owner : Text → Action Database (List (String × ManagedAgentStatus))
  list_agents_by_owner owner = do
    on_chain ← lift (registration.list_agents_by_owner owner)
    rows ← gets (λ db. db.profiles)
    statuses_of rows on_chain

  unfoldable pub list_managed_for_owner : Text → Action Database ManagedAgentList
  list_managed_for_owner owner = do
    on_chain ← lift (registration.list_agents_by_owner owner)
    rows ← gets (λ db. db.profiles)
    agents ← managed_of rows on_chain
    pure (list_of agents)

  unfoldable pub count_active_managed_for_owner : Text → Action Database ℕ
  count_active_managed_for_owner owner = do
    listed ← list_managed_for_owner owner
    pure listed.active_count

  -- An error that is returned is thrown by every caller.
  unfoldable pub require_managed_owner : String → Text → Action Database AgentProfileRow
  require_managed_owner agent_id auth_address = do
    owner ← lift (owner_or_not_found (registration.get_agent_owner agent_id))
    throw_if (not (text_eq (map to_lower owner) (map to_lower auth_address))) forbidden
    found ← gets (λ db. find_profile agent_id db.profiles)
    profile ← require found profile_not_found
    reconciled ← reconcile_owner_if_needed agent_id owner (some profile)
    require reconciled profile_not_found

  unfoldable pub get_managed_profile : String → Text → Action Database ManagedAgentProfile
  get_managed_profile agent_id auth_address = do
    profile ← require_managed_owner agent_id auth_address
    lift (to_managed_profile profile)

  unfoldable pub update_managed_profile :
      (ℤ → Text)
      → ℤ
      → String
      → Text
      → Option Text
      → Option BotFrequency
      → Action Database ManagedAgentProfile
  update_managed_profile to_iso now_ms agent_id auth_address strategy bot_frequency = do
    profile ← require_managed_owner agent_id auth_address
    throw_if (is_some profile.archived_at) (app_error "Archived agents cannot be updated" 400)
    updated ← on_profiles (
        update_profile agent_id strategy (Option.map frequency_text bot_frequency)
          (Option.map (λ f. compute_next_run_at to_iso f now_ms) bot_frequency))
    row ← require updated profile_not_found
    lift (to_managed_profile row)

  unfoldable pub archive_managed_agent : Text → String → Text → Action Database ManagedAgentProfile
  archive_managed_agent archived_at agent_id auth_address = do
    profile ← require_managed_owner agent_id auth_address
    throw_if (is_some profile.archived_at) (app_error "Agent is already archived" 400)
    archived ← on_profiles (archive_profile agent_id archived_at)
    row ← require archived (app_error "Failed to archive agent" 503)
    map_signers (map (wipe_signer_key agent_id))
    lift (to_managed_profile row)
