-- ===== src/Drafts/Custody.antt =====
-- What a launch that returns an agent leaves in the tables.
use protocol_monorepo.Common.{
  String, List, Option, none, some, Result, ok, err, ◌≡◌, refl, inl, inr, Result-cases,
}
use protocol_monorepo.Common.Text.{Text}
use protocol_monorepo.Db.Actions.{Failure}
use protocol_monorepo.Db.Outcomes.{Ends, Always}
use protocol_monorepo.Db.Profiles.{AgentProfileRow, find_profile, create_profile}
use protocol_monorepo.Db.Signers.{AgentSignerRow, find_signer, create_signer}
use protocol_monorepo.Db.DraftRows.{
  AgentDraftRow, UpdateAgentDraftInput, launched, commit_drafts, find_draft, change_draft,
  update_found, update_draft_row, patch_draft,
}
use protocol_monorepo.Db.Database.{
  Database, on_drafts, stored_drafts, stored_profiles, stored_signers,
}
use protocol_monorepo.Drafts.Signing.{LaunchAgentResult}
use protocol_monorepo.Drafts.Launch.{Prepared}
use protocol_monorepo.Drafts.Tables.{commit_drafts-IsTable}
use protocol_monorepo.Drafts.Finds.{
  find_draft-change_draft, find_signer-create_signer, find_profile-create_profile,
}

-- The draft is launched and without its key, and the agent has a signer with that key and a
-- profile, both of the owner.
abbrev pub LaunchedRow : String → LaunchAgentResult → Database → Type 0
LaunchedRow id result s =
    (row : AgentDraftRow) × (find_draft id s.drafts ≡ some row)
    × (row.status ≡ launched)
    × (row.encrypted_signer_key ≡ none)
    × (row.launched_agent_id ≡ some result.agent_id)

abbrev pub HasSigner : Text → Text → String → Database → Type 0
HasSigner key owner agent_id s =
    (signer : AgentSignerRow) × (find_signer agent_id s.signers ≡ some signer)
    × (signer.encrypted_signer_key ≡ key)
    × (signer.owner_address ≡ owner)

abbrev pub HasProfile : String → Text → String → Database → Type 0
HasProfile handle owner agent_id s =
    (profile : AgentProfileRow) × (find_profile agent_id s.profiles ≡ some profile)
    × (profile.handle ≡ handle)
    × (profile.archived_at ≡ none)
    × (profile.owner_address ≡ owner)

-- A draft that is written is the one that was found, with the patch.
abbrev pub Written : String → UpdateAgentDraftInput → Database → AgentDraftRow → Database → Type 0
Written id input s _ t =
    (row : AgentDraftRow) × (find_draft id s.drafts ≡ some row)
    × (find_draft id t.drafts ≡ some (patch_draft input row))

module _ (id : String) (input : UpdateAgentDraftInput) (s : Database) where
  update_found-Written :
      (o : Option AgentDraftRow)
      → find_draft id s.drafts ≡ o
      → Ends Always (Written id input s) (stored_drafts s (update_found o id input s.drafts))
  unfolding patch_draft
  update_found-Written none e = tt
  update_found-Written (some row) e =
      elim (Result-cases (commit_drafts (change_draft id (patch_draft input) s.drafts))) [
        | inr (f, refused) ↦ rw refused tt
        | inl (after, stored) ↦
            let same : after ≡ change_draft id (patch_draft input) s.drafts =
              (commit_drafts-IsTable (change_draft id (patch_draft input) s.drafts) after
                stored).0 in
            rw (stored, same)
              (row, e, find_draft-change_draft id (patch_draft input) row s.drafts (λ r. refl) e)
      ]

  pub update_draft_row-Written :
      Ends Always (Written id input s) (on_drafts (update_draft_row id input) s)
  unfolding update_draft_row
  update_draft_row-Written = update_found-Written (find_draft id s.drafts) refl

-- What the two inserts of a launch leave.
abbrev pub Persisted : Prepared → String → Database → Unit {0} → Database → Type 0
Persisted p agent_id s _ t =
    (t.drafts ≡ s.drafts)
    × HasSigner p.ready.encrypted_key p.owner agent_id t
    × HasProfile p.ready.identity.handle p.owner agent_id t

pub persisted_signer :
    (row : AgentSignerRow) (s : Database) (r : Result Failure (List AgentSignerRow))
    → create_signer row s.signers ≡ r
    → Ends Always
        (λ _ t.
          (t.drafts ≡ s.drafts)
          × (t.profiles ≡ s.profiles)
          × (find_signer row.agent_id t.signers ≡ some row))
        (stored_signers s r)
persisted_signer row s (err e) stored = tt
persisted_signer row s (ok after) stored =
    (refl, refl, find_signer-create_signer row s.signers after stored)

pub persisted_profile :
    (row : AgentProfileRow) (s : Database) (r : Result Failure (List AgentProfileRow))
    → create_profile row s.profiles ≡ r
    → Ends Always
        (λ _ t.
          (t.drafts ≡ s.drafts)
          × (t.signers ≡ s.signers)
          × (find_profile row.agent_id t.profiles ≡ some row))
        (stored_profiles s r)
persisted_profile row s (err e) stored = tt
persisted_profile row s (ok after) stored =
    (refl, refl, find_profile-create_profile row s.profiles after stored)
