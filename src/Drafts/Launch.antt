-- ===== src/Drafts/Launch.antt =====
-- api/src/services/agent-launch.service.ts. Keys, signatures, the registration on chain and the
-- fee are arguments. The launch is in two parts, before and after the registration is sent, since
-- other requests may come between them.
use protocol_monorepo.Common.{ℕ, String, leb, map, none, some, Result, ok, err}
use protocol_monorepo.Common.Text.{Text, to_lower}
use protocol_monorepo.Strategy.Cooldown.{compute_next_run_at}
use protocol_monorepo.Db.Actions.{
  Failure, app_error, other_error, other_value, Action, pure, throw, lift, ◌>>=◌, ◌>>◌, throw_if,
  try_catch,
}
use protocol_monorepo.Db.Profiles.{AgentProfileRow, create_profile}
use protocol_monorepo.Db.Signers.{AgentSignerRow, create_signer}
use protocol_monorepo.Db.DraftRows.{
  DraftStatus, draft, launching, launched, AgentDraftRow, UpdateAgentDraftInput, only_updated_at,
  update_draft_row,
}
use protocol_monorepo.Db.Database.{Database, on_drafts, insert_profile, insert_signer}
use protocol_monorepo.Drafts.Service.{require_editable_draft}
use protocol_monorepo.Drafts.Signing.{
  SelfRegister, LaunchServices, ReadyDraft, assert_launch_ready, pricing_tier_from_registration_fee,
  LaunchTimes, LaunchAgentResult, Signed, sign_launch,
}
use protocol_monorepo.Managed.{max_agents_per_user, count_active_managed_for_owner}

abbrev pub status_patch : DraftStatus → Text → UpdateAgentDraftInput
status_patch status updated_at = record (only_updated_at updated_at) { status = some status }

-- What the launch holds when it sends the registration.
pub record Prepared : Type 0 where
  pub draft_id : String
  pub owner : Text
  pub ready : ReadyDraft
  pub key_version : ℕ
  pub signer_address : Text
  pub message : SelfRegister
  pub signature : Text
  pub relayer_key : Text

abbrev pub launched_patch : String → Text → String → Text → UpdateAgentDraftInput
launched_patch agent_id tx_hash pricing_tier updated_at = record (only_updated_at updated_at) {
  status = some launched;
  launched_agent_id = some (some agent_id);
  launch_tx_hash = some (some tx_hash);
  encrypted_signer_key = some none;
  pricing_tier = some (some pricing_tier);
}

abbrev pub signer_row : Prepared → String → Text → AgentSignerRow
signer_row p agent_id created_at = record {
  agent_id = agent_id;
  owner_address = p.owner;
  signer_address = p.signer_address;
  encrypted_signer_key = p.ready.encrypted_key;
  key_version = p.key_version;
  created_at = created_at;
}

abbrev pub profile_row : Prepared → String → String → Text → Text → AgentProfileRow
profile_row p agent_id pricing_tier next_run_at created_at = record {
  agent_id = agent_id;
  owner_address = p.owner;
  handle = p.ready.identity.handle;
  strategy = p.ready.strategy;
  bot_frequency = p.ready.frequency_text;
  pricing_tier = pricing_tier;
  next_run_at = next_run_at;
  archived_at = none;
  created_at = created_at;
}

-- What the outer `catch` throws for what it has caught.
abbrev pub launch_failure : Failure → Failure
launch_failure (app_error message status) = app_error message status
launch_failure (other_error message) = app_error message 502
launch_failure other_value = app_error "On-chain registration failed" 502

abbrev pub not_persisted : Failure
not_persisted = app_error "Agent registered on-chain but post-launch persistence failed" 502

abbrev pub too_many_agents : Failure
too_many_agents = app_error "Maximum of 5 active agents per user" 400

module _ (services : LaunchServices) (times : LaunchTimes) where
  abbrev pub prepared : String → Text → AgentDraftRow → ReadyDraft → Signed → Prepared
  prepared draft_id owner row ready signed = record {
    draft_id = draft_id;
    owner = owner;
    ready = ready;
    key_version = row.key_version;
    signer_address = signed.signer_address;
    message = signed.message;
    signature = signed.signature;
    relayer_key = signed.relayer_key;
  }

  abbrev pub mark_launching : Prepared → Action Database Prepared
  mark_launching p = do
    _ ← on_drafts (update_draft_row p.draft_id (status_patch launching times.launched_at))
    pure p

  abbrev pub prepare_active :
      String → Text → AgentDraftRow → ReadyDraft → ℕ → Action Database Prepared
  prepare_active draft_id owner row ready active = do
    throw_if (leb max_agents_per_user active) too_many_agents
    signed ← lift (sign_launch services times.now_seconds row ready)
    mark_launching (prepared draft_id owner row ready signed)

  abbrev pub prepare_row : String → Text → AgentDraftRow → Action Database Prepared
  prepare_row draft_id owner_address row = do
    ready ← lift (assert_launch_ready row)
    active ← count_active_managed_for_owner services.registration (map to_lower owner_address)
    prepare_active draft_id (map to_lower owner_address) row ready active

  -- Up to the update to `launching`.
  unfoldable pub prepare_launch : String → Text → Action Database Prepared
  prepare_launch draft_id owner_address =
      require_editable_draft draft_id owner_address >>= prepare_row draft_id owner_address

  -- The signer and the profile of the new agent; any error is replaced.
  abbrev pub persist_agent : Prepared → String → String → Action Database (Unit {0})
  persist_agent p agent_id pricing_tier =
      let next_run_at =
        compute_next_run_at services.to_iso p.ready.bot_frequency times.scheduled_ms in
      try_catch
        (insert_signer (create_signer (signer_row p agent_id times.launched_at))
          >> insert_profile
              (create_profile (profile_row p agent_id pricing_tier next_run_at times.launched_at)))
        (λ e. throw not_persisted)

  -- The `try` block behind the registration.
  abbrev pub record_launch : Prepared → String → Text → Action Database LaunchAgentResult
  record_launch p agent_id tx_hash = do
    fee ← lift services.registration_fee
    let tier = pricing_tier_from_registration_fee fee
    _ ←
        on_drafts
          (update_draft_row p.draft_id (launched_patch agent_id tx_hash tier times.launched_at))
    persist_agent p agent_id tier
    pure record { agent_id = agent_id; tx_hash = tx_hash }

  -- The `catch` block of a registration that failed: the draft is a draft again.
  abbrev pub restore_draft : Prepared → Failure → Action Database LaunchAgentResult
  restore_draft p e = do
    _ ← on_drafts (update_draft_row p.draft_id (status_patch draft times.failed_at))
    throw (launch_failure e)

  abbrev pub after_register :
      Prepared → Result Failure (String × Text) → Action Database LaunchAgentResult
  after_register p (err e) = restore_draft p e
  after_register p (ok (agent_id, tx_hash)) =
      try_catch (record_launch p agent_id tx_hash) (λ e. throw (launch_failure e))

  -- From the registration on.
  unfoldable pub finish_launch : Prepared → Action Database LaunchAgentResult
  finish_launch p = after_register p (services.register p.relayer_key p.owner p.message p.signature)

  unfoldable pub launch_draft : String → Text → Action Database LaunchAgentResult
  launch_draft draft_id owner_address = prepare_launch draft_id owner_address >>= finish_launch
