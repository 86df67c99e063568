-- ===== src/Drafts/Handover.antt =====
-- A launch that returns an agent: what it leaves in the tables.
use protocol_monorepo.Common.{String, some, Result, ok, err, ◌≡◌, refl}
use protocol_monorepo.Common.Text.{Text}
use protocol_monorepo.Strategy.Cooldown.{compute_next_run_at}
use protocol_monorepo.Db.Actions.{Failure, Action, pure, throw, ◌>>=◌, ◌>>◌}
use protocol_monorepo.Db.Outcomes.{
  Ends, Always, any-Ends, Ends-ok, Ends-weaken, >>=-Ends, lift_then-Ends, handled-Ends,
}
use protocol_monorepo.Db.Profiles.{AgentProfileRow, find_profile, create_profile}
use protocol_monorepo.Db.Signers.{AgentSignerRow, find_signer, create_signer}
use protocol_monorepo.Db.DraftRows.{draft, update_draft_row, patch_draft}
use protocol_monorepo.Db.Database.{Database, on_drafts, insert_profile, insert_signer}
use protocol_monorepo.Drafts.Signing.{
  LaunchServices, LaunchTimes, LaunchAgentResult, pricing_tier_from_registration_fee,
}
use protocol_monorepo.Drafts.Launch.{
  Prepared, status_patch, launched_patch, launch_failure, signer_row, profile_row, persist_agent,
  record_launch, after_register, finish_launch, not_persisted,
}
use protocol_monorepo.Drafts.Custody.{
  LaunchedRow, HasSigner, HasProfile, Written, update_draft_row-Written, Persisted,
  persisted_signer, persisted_profile,
}

-- All three.
abbrev pub HandedOver : Prepared → LaunchAgentResult → Database → Type 0
HandedOver p result s =
    LaunchedRow p.draft_id result s
    × HasSigner p.ready.encrypted_key p.owner result.agent_id s
    × HasProfile p.ready.identity.handle p.owner result.agent_id s

module _ (services : LaunchServices) (times : LaunchTimes) where
  persist_agent-Persisted :
      (p : Prepared) (agent_id tier : String) (s : Database)
      → Ends Always (Persisted p agent_id s) (persist_agent services times p agent_id tier s)
  persist_agent-Persisted p agent_id tier s =
      handled-Ends Always (Persisted p agent_id s) (λ _. not_persisted)
        ((insert_signer (create_signer signer) >> insert_profile (create_profile profile)) s)
        (>>=-Ends Always
          (λ _ t.
            (t.drafts ≡ s.drafts)
            × (t.profiles ≡ s.profiles)
            × (find_signer agent_id t.signers ≡ some signer))
          (Persisted p agent_id s) (insert_signer (create_signer signer) s)
          (λ _. insert_profile (create_profile profile))
          (persisted_signer signer s (create_signer signer s.signers) refl)
          (λ _ t (drafts, _, found).
            Ends-weaken Always Always
              (λ _ u.
                (u.drafts ≡ t.drafts)
                × (u.signers ≡ t.signers)
                × (find_profile agent_id u.profiles ≡ some profile))
              (Persisted p agent_id s) (λ _ h. h)
              (λ _ u (same, kept, stored). (
                rw same drafts,
                (signer, rw kept found, refl, refl),
                (profile, stored, refl, refl, refl),
              ))
              (insert_profile (create_profile profile) t)
              (persisted_profile profile t (create_profile profile t.profiles) refl)))
    where
      signer : AgentSignerRow
      signer = signer_row p agent_id times.launched_at

      profile : AgentProfileRow
      profile =
          profile_row p agent_id tier
            (compute_next_run_at services.to_iso p.ready.bot_frequency times.scheduled_ms)
            times.launched_at

  record_launch-HandedOver :
      (p : Prepared) (agent_id : String) (tx_hash : Text) (s : Database)
      → Ends Always (HandedOver p) (record_launch services times p agent_id tx_hash s)
  unfolding patch_draft
  record_launch-HandedOver p agent_id tx_hash s =
      lift_then-Ends Always (HandedOver p) services.registration_fee
        (λ fee.
          on_drafts (
            update_draft_row p.draft_id (
              launched_patch agent_id tx_hash (pricing_tier_from_registration_fee fee)
                times.launched_at))
          >>= λ _. finish (pricing_tier_from_registration_fee fee))
        s tt
        (λ fee _.
          let tier = pricing_tier_from_registration_fee fee in
          let patch = launched_patch agent_id tx_hash tier times.launched_at in
          >>=-Ends Always (Written p.draft_id patch s) (HandedOver p)
            (on_drafts (update_draft_row p.draft_id patch) s) (λ _. finish tier)
            (update_draft_row-Written p.draft_id patch s)
            (λ _ t (row, _, found).
              >>=-Ends Always (Persisted p agent_id t) (HandedOver p)
                (persist_agent services times p agent_id tier t)
                (λ _. pure record { agent_id = agent_id; tx_hash = tx_hash })
                (persist_agent-Persisted p agent_id tier t)
                (λ _ u (drafts, signer, profile).
                  ((patch_draft patch row, rw drafts found, refl, refl, refl), signer, profile))))
    where
      finish : String → Action Database LaunchAgentResult
      finish tier =
          persist_agent services times p agent_id tier
          >> pure record { agent_id = agent_id; tx_hash = tx_hash }

  pub after_register-HandedOver :
      (p : Prepared) (r : Result Failure (String × Text)) (s : Database)
      → Ends Always (HandedOver p) (after_register services times p r s)
  after_register-HandedOver p (err e) s =
      >>=-Ends Always (λ _. Always) (HandedOver p)
        (on_drafts (update_draft_row p.draft_id (status_patch draft times.failed_at)) s)
        (λ _. throw (launch_failure e))
        (any-Ends (on_drafts (update_draft_row p.draft_id (status_patch draft times.failed_at)) s))
        (λ _ t h. tt)
  after_register-HandedOver p (ok (agent_id, tx_hash)) s =
      handled-Ends Always (HandedOver p) launch_failure
        (record_launch services times p agent_id tx_hash s)
        (record_launch-HandedOver p agent_id tx_hash s)

  -- A launch behind its registration, on any database: when it returns an agent, the draft is
  -- launched as this agent and its row has no key any more, and the agent has a signer with the key
  -- that was read when the launch was prepared, and a profile under the draft's handle that is not
  -- archived, both of the owner.
  pub finish_launch-HandedOver :
      (p : Prepared) (s : Database) (result : LaunchAgentResult) (after : Database)
      → finish_launch services times p s ≡ (after, ok result)
      → HandedOver p result after
  unfolding finish_launch
  finish_launch-HandedOver p s result after e =
      Ends-ok Always (HandedOver p) (finish_launch services times p s) after result e (
        after_register-HandedOver p (services.register p.relayer_key p.owner p.message p.signature)
          s)
