-- ===== src/Drafts/Refinement/Sent.antt =====
-- What follows the registration, the whole launch, and the life cycle of a draft.
use protocol_monorepo.Common.{String, List, Result, ok, err, refl}
use protocol_monorepo.Common.Text.{Text}
use protocol_monorepo.Strategy.Cooldown.{compute_next_run_at}
use protocol_monorepo.Db.Actions.{Failure, Action, pure, ◌>>=◌, ◌>>◌}
use protocol_monorepo.Db.Outcomes.{Ends, Ends-state, >>=-Ends, lift_then-Ends, handled-Ends}
use protocol_monorepo.Db.Profiles.{AgentProfileRow, create_profile}
use protocol_monorepo.Db.Signers.{AgentSignerRow, create_signer}
use protocol_monorepo.Db.DraftRows.{AgentDraftRow, update_draft_row, patch_draft}
use protocol_monorepo.Db.Database.{
  Database, on_drafts, stored_profiles, stored_signers, insert_profile, insert_signer,
}
use protocol_monorepo.Drafts.Service.{require_editable_draft}
use protocol_monorepo.Drafts.Signing.{
  LaunchServices, LaunchTimes, LaunchAgentResult, pricing_tier_from_registration_fee,
}
use protocol_monorepo.Drafts.Launch.{
  Prepared, launched_patch, launch_failure, signer_row, profile_row, prepare_row, prepare_launch,
  persist_agent, record_launch, after_register, finish_launch, launch_draft, not_persisted,
}
use protocol_monorepo.Drafts.Lifecycle.{Evolves-refl}
use protocol_monorepo.Drafts.Tables.{IsTable}
use protocol_monorepo.Drafts.Rules.{
  Later, Editable, require_editable_draft-Ends, Found-Holds, update_then-Ends,
}
use protocol_monorepo.Drafts.Refinement.Launches.{
  Sending, succeeds, prepare_row-Ends, restore_draft-Ends,
}

module _ (rows : List AgentDraftRow) where
  stored_signers-Ends :
      (s : Database) (r : Result Failure (List AgentSignerRow))
      → Later rows s
      → Ends (Later rows) (λ _. Later rows) (stored_signers s r)
  stored_signers-Ends s (ok after) h = h
  stored_signers-Ends s (err e) h = h

  stored_profiles-Ends :
      (s : Database) (r : Result Failure (List AgentProfileRow))
      → Later rows s
      → Ends (Later rows) (λ _. Later rows) (stored_profiles s r)
  stored_profiles-Ends s (ok after) h = h
  stored_profiles-Ends s (err e) h = h

module _ (services : LaunchServices) (times : LaunchTimes) (rows : List AgentDraftRow) where
  persist_agent-Ends :
      (p : Prepared) (agent_id tier : String) (s : Database)
      → Later rows s
      → Ends (Later rows) (λ _. Later rows) (persist_agent services times p agent_id tier s)
  persist_agent-Ends p agent_id tier s h =
      handled-Ends (Later rows) (λ _. Later rows) (λ _. not_persisted)
        ((insert_signer (create_signer signer) >> insert_profile (create_profile profile)) s)
        (>>=-Ends (Later rows) (λ _. Later rows) (λ _. Later rows)
          (insert_signer (create_signer signer) s) (λ _. insert_profile (create_profile profile))
          (stored_signers-Ends rows s (create_signer signer s.signers) h)
          (λ _ t k. stored_profiles-Ends rows t (create_profile profile t.profiles) k))
    where
      signer : AgentSignerRow
      signer = signer_row p agent_id times.launched_at

      profile : AgentProfileRow
      profile =
          profile_row p agent_id tier
            (compute_next_run_at services.to_iso p.ready.bot_frequency times.scheduled_ms)
            times.launched_at

  record_launch-Ends :
      (p : Prepared) (agent_id : String) (tx_hash : Text) (s : Database)
      → Sending rows p s
      → Ends (Later rows) (λ _. Later rows) (record_launch services times p agent_id tx_hash s)
  unfolding patch_draft
  record_launch-Ends p agent_id tx_hash s (row, is_launching, holds) =
      lift_then-Ends (Later rows) (λ _. Later rows) services.registration_fee
        (λ fee.
          on_drafts (
            update_draft_row p.draft_id (
              launched_patch agent_id tx_hash (pricing_tier_from_registration_fee fee)
                times.launched_at))
          >>= λ _. finish (pricing_tier_from_registration_fee fee))
        s holds.0
        (λ fee _.
          let tier = pricing_tier_from_registration_fee fee in
          update_then-Ends rows p.draft_id row
            (launched_patch agent_id tx_hash tier times.launched_at) s (λ _. Later rows)
            (λ _. finish tier) holds (refl, succeeds row.status is_launching, λ _. refl)
            (λ _ t h.
              >>=-Ends (Later rows) (λ _. Later rows) (λ _. Later rows)
                (persist_agent services times p agent_id tier t)
                (λ _. pure record { agent_id = agent_id; tx_hash = tx_hash })
                (persist_agent-Ends p agent_id tier t h.0) (λ _ u k. k)))
    where
      finish : String → Action Database LaunchAgentResult
      finish tier =
          persist_agent services times p agent_id tier
          >> pure record { agent_id = agent_id; tx_hash = tx_hash }

  after_register-Ends :
      (p : Prepared) (r : Result Failure (String × Text)) (s : Database)
      → Sending rows p s
      → Ends (Later rows) (λ _. Later rows) (after_register services times p r s)
  after_register-Ends p (err e) s h = restore_draft-Ends services times rows p e s h
  after_register-Ends p (ok (agent_id, tx_hash)) s h =
      handled-Ends (Later rows) (λ _. Later rows) launch_failure
        (record_launch services times p agent_id tx_hash s)
        (record_launch-Ends p agent_id tx_hash s h)

  pub finish_launch-Ends :
      (p : Prepared) (s : Database)
      → Sending rows p s
      → Ends (Later rows) (λ _. Later rows) (finish_launch services times p s)
  unfolding finish_launch
  finish_launch-Ends p =
      after_register-Ends p (services.register p.relayer_key p.owner p.message p.signature)

module _ (services : LaunchServices) (times : LaunchTimes) (db : Database)
    (table : IsTable db.drafts) where
  prepare_launch-Ends :
      (id : String) (owner : Text)
      → Ends (Later db.drafts) (Sending db.drafts) (prepare_launch services times id owner db)
  unfolding prepare_launch
  prepare_launch-Ends id owner =
      >>=-Ends (Later db.drafts) (Editable id owner db) (Sending db.drafts)
        (require_editable_draft id owner db) (prepare_row services times id owner)
        (require_editable_draft-Ends id owner db (Later db.drafts) (Evolves-refl db.drafts, table))
        (λ row s editable.
          prepare_row-Ends services times db.drafts id owner row s editable.1
            (Found-Holds db s id owner row table editable.0))

  pub launch_draft-Later :
      (id : String) (owner : Text) → Later db.drafts (launch_draft services times id owner db).0
  unfolding launch_draft
  launch_draft-Later id owner =
      Ends-state (Later db.drafts) (launch_draft services times id owner db) (
        >>=-Ends (Later db.drafts) (Sending db.drafts) (λ _. Later db.drafts)
          (prepare_launch services times id owner db) (finish_launch services times)
          (prepare_launch-Ends id owner) (finish_launch-Ends services times db.drafts))
