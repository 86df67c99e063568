-- ===== src/Drafts/Wallet.antt =====
-- api/src/services/agent-draft-wallet.service.ts. A new key pair, its encryption and the
-- decryption are arguments.
use protocol_monorepo.Common.{
  String, not, [], ◌∷◌, map, is_some, Option, none, some, Result, ok, err,
}
use protocol_monorepo.Common.Text.{Text, to_lower}
use protocol_monorepo.Db.Actions.{Failure, app_error, Action, pure, lift, ◌>>=◌, ◌>>◌, throw_if}
use protocol_monorepo.Db.DraftRows.{
  AgentDraftRow, UpdateAgentDraftInput, only_updated_at, update_draft_row,
}
use protocol_monorepo.Db.Database.{Database, on_drafts}
use protocol_monorepo.Drafts.Service.{require_owned_draft, require_editable_draft}

-- A generated account, and its encrypted key or the error of the encryption.
pub record KeyPair : Type 0 where
  pub address : Text
  pub encrypted : Result Failure Text

abbrev pub signer_patch : Text → Text → Text → UpdateAgentDraftInput
signer_patch address encrypted updated_at = record (only_updated_at updated_at) {
  signer_address = some (some address);
  encrypted_signer_key = some (some encrypted);
}

abbrev pub provision_new : String → KeyPair → Text → Action Database Text
provision_new draft_id pair updated_at = do
  encrypted ← lift pair.encrypted
  _ ← on_drafts (update_draft_row draft_id (signer_patch pair.address encrypted updated_at))
  pure pair.address

-- A draft that has a signer keeps it.
abbrev pub provision_if_missing : String → KeyPair → Text → Option Text → Action Database Text
provision_if_missing draft_id pair updated_at none = provision_new draft_id pair updated_at
provision_if_missing draft_id pair updated_at (some []) = provision_new draft_id pair updated_at
provision_if_missing draft_id pair updated_at (some (c ∷ s)) = pure (map to_lower (c ∷ s))

abbrev pub identity_required : Failure
identity_required = app_error "Draft identity is required" 400

unfoldable pub provision_wallet : String → Text → KeyPair → Text → Action Database Text
provision_wallet draft_id owner_address pair updated_at = do
  row ← require_editable_draft draft_id owner_address
  throw_if (not (is_some row.identity)) identity_required
  provision_if_missing draft_id pair updated_at row.signer_address

abbrev not_provisioned : Failure
not_provisioned = app_error "Agent signer is not provisioned" 400

module _ (decrypt : Text → Result Failure Text) where
  abbrev decrypted : Text → Result Failure Text → Result Failure (Text × Text)
  decrypted signer (err e) = err e
  decrypted signer (ok key) = ok (key, map to_lower signer)

  -- The private key and the address, when both columns are there and not empty.
  abbrev pub decrypt_columns : Option Text → Option Text → Result Failure (Text × Text)
  decrypt_columns none signer = err not_provisioned
  decrypt_columns (some []) signer = err not_provisioned
  decrypt_columns (some (c ∷ s)) none = err not_provisioned
  decrypt_columns (some (c ∷ s)) (some []) = err not_provisioned
  decrypt_columns (some (c ∷ s)) (some (d ∷ t)) = decrypted (d ∷ t) (decrypt (c ∷ s))

  unfoldable pub decrypt_signer_from_row : AgentDraftRow → Result Failure (Text × Text)
  decrypt_signer_from_row row = decrypt_columns row.encrypted_signer_key row.signer_address

  unfoldable pub decrypt_draft_signer_key : String → Text → Action Database (Text × Text)
  decrypt_draft_signer_key draft_id owner_address = do
    row ← require_owned_draft draft_id owner_address
    lift (decrypt_signer_from_row row)
