-- ===== src/Drafts/Refinement/Edits.antt =====
-- The requests that edit a draft, and the life cycle of a draft.
use protocol_monorepo.Common.{
  String, true, not, [], ◌∷◌, Option, none, some, is_some, ◌≡◌, inl, inr, refl, arith, Bool-cases,
}
use protocol_monorepo.Common.Text.{Text}
use protocol_monorepo.Db.Actions.{Action, pure, ◌>>=◌, ◌>>◌, throw_if, lift}
use protocol_monorepo.Db.Outcomes.{Ends, >>=-Ends, throw_if-Ends, Ends-state, lift_then-Ends}
use protocol_monorepo.Db.DraftRows.{
  DraftStatus, draft, launching, launched, abandoned, AgentIdentity, AgentDraftRow, is_status_draft,
  new_draft_row, insert_draft, update_draft_row, patch_draft, abandon_draft_row,
}
use protocol_monorepo.Db.Database.{Database, on_drafts}
use protocol_monorepo.Drafts.Service.{
  AgentDraft, Deployment, UpdateAgentDraftBody, get_genesis_vault_address, is_handle_taken,
  check_identity, handle_is_taken, patch_of, to_agent_draft, require_owned_draft,
  require_editable_draft, create_draft, update_draft, abandon_draft,
}
use protocol_monorepo.Drafts.Wallet.{
  KeyPair, provision_wallet, provision_new, provision_if_missing, identity_required, signer_patch,
}
use protocol_monorepo.Drafts.Lifecycle.{HoldsKey, Follows, here, Evolves-refl}
use protocol_monorepo.Drafts.Tables.{IsTable}
use protocol_monorepo.Drafts.Rules.{
  Later, Holds, Found, Editable, require_owned_draft-Ends, require_editable_draft-Ends, Found-Holds,
  update_then-Ends, insert_draft-Ends, abandon_draft_row-Ends,
}

signer_given :
    (status : DraftStatus) (address encrypted : Text)
    → is_status_draft status ≡ true
    → HoldsKey status (some address) (some encrypted)
signer_given draft address encrypted e = refl
signer_given launching address encrypted e = absurd (ground (arith, e))
signer_given launched address encrypted e = absurd (ground (arith, e))
signer_given abandoned address encrypted e = absurd (ground (arith, e))

signed-Follows :
    (row : AgentDraftRow) (address encrypted updated_at : Text)
    → is_status_draft row.status ≡ true
    → Follows row (patch_draft (signer_patch address encrypted updated_at) row)
unfolding patch_draft
signed-Follows row address encrypted updated_at e =
    (refl, here, λ _. signer_given row.status address encrypted e)

module _ (db : Database) (table : IsTable db.drafts) where
  abbrev Kept : Database → Type 0
  Kept = Later db.drafts

  kept : Kept db
  kept = (Evolves-refl db.drafts, table)

  pub abandon_draft-Later :
      (id : String) (owner updated_at : Text) → Kept (abandon_draft id owner updated_at db).0
  unfolding abandon_draft
  abandon_draft-Later id owner updated_at = Ends-state Kept (abandon_draft id owner updated_at db) (
      >>=-Ends Kept (Found id owner db) (λ _. Kept) (require_owned_draft id owner db)
        (λ _. on_drafts (abandon_draft_row id updated_at))
        (require_owned_draft-Ends id owner db Kept kept)
        (λ row s found.
          abandon_draft_row-Ends db.drafts s id updated_at row
            (Found-Holds db s id owner row table found)))

  pub create_draft-Later :
      (deployment : Deployment) (id : String) (created_at owner : Text) (identity : AgentIdentity)
      → Kept (create_draft deployment id created_at owner identity db).0
  unfolding create_draft
  create_draft-Later deployment id created_at owner identity =
      Ends-state Kept (create_draft deployment id created_at owner identity db) (
        throw_if-Ends Kept (λ _. Kept) (is_handle_taken identity.handle none db) handle_is_taken
          (lift (get_genesis_vault_address deployment) >>= λ vault. store vault) db kept
          (λ _.
            lift_then-Ends Kept (λ _. Kept) (get_genesis_vault_address deployment) store db kept
              (λ vault _.
                >>=-Ends Kept (λ _. Kept) (λ _. Kept) (on_drafts (insert_draft (row_in vault)) db)
                  (λ _. pure (to_agent_draft vault (row_in vault)))
                  (insert_draft-Ends db.drafts db (row_in vault) kept refl refl) (λ _ t h. h))))
    where
      row_in : Text → AgentDraftRow
      row_in vault = new_draft_row id owner identity vault created_at

      store : Text → Action Database AgentDraft
      store vault =
          on_drafts (insert_draft (row_in vault)) >> pure (to_agent_draft vault (row_in vault))

  checked-Ends :
      (Thrown After : Database → Type 0) (id : String) (o : Option AgentIdentity) (s : Database)
      → Thrown s
      → After s
      → Ends Thrown (λ _. After) (check_identity id o s)
  checked-Ends Thrown After id none s h k = k
  checked-Ends Thrown After id (some identity) s h k =
      elim (Bool-cases (is_handle_taken identity.handle (some id) s)) [
        | inl e ↦ rw e h
        | inr e ↦ rw e k
      ]

  pub update_draft-Later :
      (deployment : Deployment) (id : String) (owner updated_at : Text)
      (body : UpdateAgentDraftBody)
      → Kept (update_draft deployment id owner updated_at body db).0
  unfolding update_draft patch_draft
  update_draft-Later deployment id owner updated_at body =
      Ends-state Kept (update_draft deployment id owner updated_at body db) (
        >>=-Ends Kept (Editable id owner db) (λ _. Kept) (require_editable_draft id owner db)
          (λ _. check_identity id body.identity >> write)
          (require_editable_draft-Ends id owner db Kept kept)
          (λ row s editable.
            >>=-Ends Kept (λ _. Holds db.drafts id row) (λ _. Kept)
              (check_identity id body.identity s) (λ _. write)
              (checked-Ends Kept (Holds db.drafts id row) id body.identity s
                (Found-Holds db s id owner row table editable.0).0
                (Found-Holds db s id owner row table editable.0))
              (λ _ t holds.
                update_then-Ends db.drafts id row (patch_of updated_at body) t (λ _. Kept) answer
                  holds (refl, here, λ h. h)
                  (λ r u h.
                    lift_then-Ends Kept (λ _. Kept) (get_genesis_vault_address deployment)
                      (λ vault. pure (to_agent_draft vault r)) u h.0 (λ vault _. h.0)))))
    where
      answer : AgentDraftRow → Action Database AgentDraft
      answer row =
          lift (get_genesis_vault_address deployment) >>= λ vault. pure (to_agent_draft vault row)

      write : Action Database AgentDraft
      write = on_drafts (update_draft_row id (patch_of updated_at body)) >>= answer

  provision_new-Ends :
      (id : String) (row : AgentDraftRow) (pair : KeyPair) (updated_at : Text) (s : Database)
      → Holds db.drafts id row s
      → is_status_draft row.status ≡ true
      → Ends Kept (λ _. Kept) (provision_new id pair updated_at s)
  provision_new-Ends id row pair updated_at s holds e =
      lift_then-Ends Kept (λ _. Kept) pair.encrypted
        (λ encrypted.
          on_drafts (update_draft_row id (signer_patch pair.address encrypted updated_at)) >>= λ _.
          pure pair.address)
        s holds.0
        (λ encrypted _.
          update_then-Ends db.drafts id row (signer_patch pair.address encrypted updated_at) s
            (λ _. Kept) (λ _. pure pair.address) holds
            (signed-Follows row pair.address encrypted updated_at e) (λ _ t h. h.0))

  provision_if_missing-Ends :
      (id : String) (row : AgentDraftRow) (pair : KeyPair) (updated_at : Text) (s : Database)
      (signer : Option Text)
      → Holds db.drafts id row s
      → is_status_draft row.status ≡ true
      → Ends Kept (λ _. Kept) (provision_if_missing id pair updated_at signer s)
  provision_if_missing-Ends id row pair updated_at s none h e =
      provision_new-Ends id row pair updated_at s h e
  provision_if_missing-Ends id row pair updated_at s (some []) h e =
      provision_new-Ends id row pair updated_at s h e
  provision_if_missing-Ends id row pair updated_at s (some (c ∷ t)) h e = h.0

  pub provision_wallet-Later :
      (id : String) (owner : Text) (pair : KeyPair) (updated_at : Text)
      → Kept (provision_wallet id owner pair updated_at db).0
  unfolding provision_wallet
  provision_wallet-Later id owner pair updated_at =
      Ends-state Kept (provision_wallet id owner pair updated_at db) (
        >>=-Ends Kept (Editable id owner db) (λ _. Kept) (require_editable_draft id owner db)
          provide (require_editable_draft-Ends id owner db Kept kept)
          (λ row s editable.
            let holds = Found-Holds db s id owner row table editable.0 in
            throw_if-Ends Kept (λ _. Kept) (not (is_some row.identity)) identity_required
              (provision_if_missing id pair updated_at row.signer_address) s holds.0
              (λ _.
                provision_if_missing-Ends id row pair updated_at s row.signer_address holds
                  editable.1)))
    where
      provide : AgentDraftRow → Action Database Text
      provide row =
          throw_if (not (is_some row.identity)) identity_required
          >> provision_if_missing id pair updated_at row.signer_address
