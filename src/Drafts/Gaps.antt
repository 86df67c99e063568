-- ===== src/Drafts/Gaps.antt =====
-- How a launch ends when something fails behind the update to `launching`.
use protocol_monorepo.Common.{
  ℕ, String, List, none, some, Result, ok, err, ◌≡◌, refl, ◌∙◌, ap, inl, inr, ◌⊎◌,
}
use protocol_monorepo.Common.Text.{Text}
use protocol_monorepo.Strategy.Cooldown.{compute_next_run_at}
use protocol_monorepo.Db.Actions.{
  Failure, Action, pure, throw, lift, handled, continue_with, ◌>>=◌, ◌>>◌,
}
use protocol_monorepo.Db.Profiles.{AgentProfileRow, create_profile}
use protocol_monorepo.Db.Signers.{AgentSignerRow, create_signer}
use protocol_monorepo.Db.DraftRows.{
  AgentDraftRow, draft, launched, commit_drafts, find_draft, change_draft, update_draft_row,
  patch_draft,
}
use protocol_monorepo.Db.Database.{
  Database, on_drafts, stored_profiles, stored_signers, insert_profile,
}
use protocol_monorepo.Drafts.Signing.{
  LaunchServices, LaunchTimes, LaunchAgentResult, pricing_tier_from_registration_fee,
}
use protocol_monorepo.Drafts.Launch.{
  Prepared, status_patch, launched_patch, launch_failure, signer_row, profile_row, persist_agent,
  after_register, finish_launch, not_persisted,
}
use protocol_monorepo.Drafts.Tables.{IsTable, IsTable-commit_drafts, change_draft-IsTable}
use protocol_monorepo.Drafts.Finds.{find_draft-change_draft}

module _ (services : LaunchServices) (times : LaunchTimes) (p : Prepared) (s : Database) where
  abbrev pub registered : Result Failure (String × Text)
  registered = services.register p.relayer_key p.owner p.message p.signature

  -- When the registration is through and the fee cannot be read, the launch throws that error and
  -- writes nothing: the draft that was launching stays so.
  pub finish_launch_fee_failed :
      (agent_id : String) (tx_hash : Text) (e : Failure)
      → registered ≡ ok (agent_id, tx_hash)
      → services.registration_fee ≡ err e
      → finish_launch services times p s ≡ (s, err (launch_failure e))
  unfolding finish_launch
  finish_launch_fee_failed agent_id tx_hash e sent failed = simp (sent, failed) refl

  abbrev pub restored : List AgentDraftRow
  restored = change_draft p.draft_id (patch_draft (status_patch draft times.failed_at)) s.drafts

  -- When the registration fails and the index refuses the draft's return to `draft`, the launch
  -- throws the refusal in place of the registration's error, and the draft stays launching.
  pub finish_launch_restore_refused :
      (row : AgentDraftRow) (e refusal : Failure)
      → registered ≡ err e
      → find_draft p.draft_id s.drafts ≡ some row
      → commit_drafts restored ≡ err refusal
      → finish_launch services times p s ≡ (s, err refusal)
  unfolding finish_launch update_draft_row
  finish_launch_restore_refused row e refusal failed found refused =
      rw (failed, found, refused) refl

  module _ (agent_id : String) (tx_hash : Text) (fee : ℕ) (row : AgentDraftRow) where
    abbrev tier : String
    tier = pricing_tier_from_registration_fee fee

    abbrev change : AgentDraftRow → AgentDraftRow
    change = patch_draft (launched_patch agent_id tx_hash tier times.launched_at)

    abbrev launched_drafts : List AgentDraftRow
    launched_drafts = change_draft p.draft_id change s.drafts

    stored_launched : IsTable s.drafts → commit_drafts launched_drafts ≡ ok launched_drafts
    unfolding patch_draft
    stored_launched table =
        IsTable-commit_drafts launched_drafts
          (change_draft-IsTable p.draft_id change s.drafts (λ r. refl) (λ r. refl) table)

    found_launched :
        find_draft p.draft_id s.drafts ≡ some row
        → find_draft p.draft_id launched_drafts ≡ some (change row)
    unfolding patch_draft
    found_launched found = find_draft-change_draft p.draft_id change row s.drafts (λ r. refl) found

    abbrev stored : Database
    stored = record s { drafts = launched_drafts }

    updated :
        IsTable s.drafts
        → find_draft p.draft_id s.drafts ≡ some row
        → on_drafts
            (update_draft_row p.draft_id (launched_patch agent_id tx_hash tier times.launched_at))
            s
          ≡ (stored, ok (change row))
    unfolding update_draft_row
    updated table found = rw (found, stored_launched table) refl

    abbrev result : LaunchAgentResult
    result = record { agent_id = agent_id; tx_hash = tx_hash }

    -- The launch up to the inserts.
    recorded :
        {t : Database}
        → registered ≡ ok (agent_id, tx_hash)
        → services.registration_fee ≡ ok fee
        → IsTable s.drafts
        → find_draft p.draft_id s.drafts ≡ some row
        → persist_agent services times p agent_id tier stored ≡ (t, err not_persisted)
        → finish_launch services times p s ≡ (t, err not_persisted)
    unfolding finish_launch
    recorded {t} sent paid table found refused =
        let insert : Action Database LaunchAgentResult =
          persist_agent services times p agent_id tier >> pure result in
        let write : ℕ → Action Database LaunchAgentResult = λ amount.
          let tier = pricing_tier_from_registration_fee amount in
          on_drafts
            (update_draft_row p.draft_id (launched_patch agent_id tx_hash tier times.launched_at))
          >>= λ _. (persist_agent services times p agent_id tier >> pure result) in
        let handle : Database × Result Failure LaunchAgentResult
            → Database × Result Failure LaunchAgentResult =
          handled (λ e. throw (launch_failure e)) in
        ap (λ r. after_register services times p r s) sent
        ∙ ap (λ r. handle (continue_with write (lift r s))) paid
        ∙ ap (λ q. handle (continue_with (λ _. insert) q)) (updated table found)
        ∙ ap (λ q. handle (continue_with (λ _. pure result) q)) refused

    abbrev profile_of : AgentProfileRow
    profile_of =
        profile_row p agent_id tier
          (compute_next_run_at services.to_iso p.ready.bot_frequency times.scheduled_ms)
          times.launched_at

    abbrev insert_both : Result Failure (List AgentSignerRow) → Database × Result Failure (Unit {0})
    insert_both r =
        handled (λ e. throw not_persisted)
          (continue_with (λ _. insert_profile (create_profile profile_of))
            (stored_signers stored r))

    abbrev store_profile :
        List AgentSignerRow
        → Result Failure (List AgentProfileRow)
        → Database × Result Failure (Unit {0})
    store_profile signers r =
        handled (λ e. throw not_persisted) (stored_profiles (record stored { signers = signers }) r)

    -- When the registration is through and one of the two inserts is refused, the launch throws that
    -- the persistence failed. The draft is launched and its key gone all the same, and no profile has
    -- been added; if it was the signer that was refused then no signer either, and the key has been
    -- moved nowhere.
    pub finish_launch_insert_refused :
        registered ≡ ok (agent_id, tx_hash)
        → services.registration_fee ≡ ok fee
        → IsTable s.drafts
        → find_draft p.draft_id s.drafts ≡ some row
        → (signers : List AgentSignerRow) (refusal : Failure)
        → ((create_signer (signer_row p agent_id times.launched_at) s.signers ≡ err refusal)
            × (signers ≡ s.signers))
          ⊎ ((create_signer (signer_row p agent_id times.launched_at) s.signers ≡ ok signers)
              × (create_profile profile_of s.profiles ≡ err refusal))
        → (finish_launch services times p s
            ≡ (record stored { signers = signers }, err not_persisted))
          × (find_draft p.draft_id launched_drafts ≡ some (change row))
          × ((change row).status ≡ launched)
          × ((change row).encrypted_signer_key ≡ none)
    unfolding patch_draft
    finish_launch_insert_refused sent paid table found signers refusal (inl (refused, same)) = (
      rw same (recorded sent paid table found (ap insert_both refused)),
      found_launched found,
      refl,
      refl,
    )
    finish_launch_insert_refused sent paid table found signers refusal (inr (added, refused)) = (
      recorded sent paid table found (ap insert_both added ∙ ap (store_profile signers) refused),
      found_launched found,
      refl,
      refl,
    )

  -- When the registration fails and the index allows it, the row is a draft again, whatever it has
  -- become since the launch was prepared: a draft that its owner has abandoned meanwhile comes back
  -- without its key.
  pub finish_launch_restores :
      (row : AgentDraftRow) (e : Failure)
      → registered ≡ err e
      → find_draft p.draft_id s.drafts ≡ some row
      → commit_drafts restored ≡ ok restored
      → (finish_launch services times p s
          ≡ (record s { drafts = restored }, err (launch_failure e)))
        × (find_draft p.draft_id restored
            ≡ some (record row { status = draft; updated_at = times.failed_at }))
  unfolding finish_launch update_draft_row patch_draft
  finish_launch_restores row e failed found allowed = (
    simp (failed, found, allowed) refl,
    find_draft-change_draft p.draft_id (patch_draft (status_patch draft times.failed_at)) row
        s.drafts (λ r. refl) found,
  )
